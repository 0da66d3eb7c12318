-- ===== src/Exam/Exchange/Once.antt =====
-- An invitation is exchanged once.
use mathlib.Core.Path.{subst}
use dsa_platform.Prelude.{
  ℕ, String, Bool, true, false, Option, none, some, List, [], ◌∷◌, ◌++◌, ◌≡◌, refl, sym, ◌==◌, not,
  str_eq, arith, inl, inr, Bool-cases, Result, ok, err, after, pure, raise_if, ◌>>=◌, ◌>>◌,
}
use dsa_platform.Prelude.Table.{first, remove}
use dsa_platform.Prelude.Removal.{first-remove_absent}
use dsa_platform.Exam.Db.{Exam}
use dsa_platform.Exam.Scheduling.{
  Invite, InviteKey, Board, ScheduleError, Services, is_exam, add_invite, mailed,
}
use dsa_platform.Exam.Exchange.{
  InvitePayload, Identity, ExchangeError, Plane, Handler, checked, verified, is_live, take_key,
  consume, admit, admit_payload, check_identity, exchange_payload, exchange, Event, step, steps,
}

-- The exchange was refused.
abbrev pub is_refused : {A : Type 0} → Result ExchangeError A → Bool
is_refused (ok a) = false
is_refused (err e) = true

module _ (jti : ℕ) where
  -- No invitation of this number is in Redis.
  abbrev pub IsAbsent : Board → Type 0
  IsAbsent s = first (λ (k : InviteKey). k.jti == jti) s.keys ≡ none

  -- It is not there after it is removed itself.
  removed_own :
      (ks : List InviteKey)
      → first (λ (k : InviteKey). k.jti == jti) (remove (λ (k : InviteKey). k.jti == jti) ks) ≡ none
  unfolding first remove
  removed_own [] = refl
  removed_own (k ∷ ks) = ground (arith, removed_own ks)

  live_none :
      (now : ℕ) (ks : List InviteKey)
      → first (λ (k : InviteKey). k.jti == jti) ks ≡ none
      → first (is_live now jti) ks ≡ none
  unfolding first
  live_none now [] h = refl
  live_none now (k ∷ ks) h = elim (Bool-cases (k.jti == jti)) [
    | inl same ↦ absurd (ground (arith, h, same))
    | inr other ↦ rw other (live_none now ks (ground (arith, h, other)))
  ]

  -- Whether a step raises or not, the invitation stays absent.
  record Stays {A : Type 0} (m : Handler A) : Type 0 where
    pub run : (s : Board) → IsAbsent s → IsAbsent ((m s).1)

  after-IsAbsent :
      {A B : Type 0} (r : Result ExchangeError A × Board) (k : A → Handler B)
      → IsAbsent (r.1)
      → ((a : A) → Stays (k a))
      → IsAbsent ((after r k).1)
  after-IsAbsent (ok a, s) k h rest = (rest a).run s h
  after-IsAbsent (err e, s) k h rest = h

  bind-Stays :
      {A B : Type 0} {m : Handler A} {k : A → Handler B}
      → Stays m
      → ((a : A) → Stays (k a))
      → Stays (m >>= k)
  bind-Stays {m} {k} before rest = record {
    run = λ s h. after-IsAbsent (m s) k (before.run s h) rest;
  }

  then-Stays : {A B : Type 0} {m : Handler A} {k : Handler B} → Stays m → Stays k → Stays (m >> k)
  then-Stays before rest = bind-Stays before (λ _. rest)

  raise_if-Stays : (test : Bool) (e : ExchangeError) → Stays (raise_if test e)
  raise_if-Stays test e = record { run = λ s h. h }

  checked-Stays : (o : Option InvitePayload) → Stays (checked o)
  checked-Stays none = record { run = λ s h. h }
  checked-Stays (some p) = record {
    run = λ s h. kept (not (str_eq p.type "candidate_invite")) p s h;
  }
    where
      kept :
          (test : Bool) (p : InvitePayload) (s : Board)
          → IsAbsent s
          → IsAbsent (((raise_if test ExchangeError.invite_invalid >> pure p) s).1)
      kept true p s h = h
      kept false p s h = h

  verified-Stays : (o : Option Identity) → Stays (verified o)
  verified-Stays none = record { run = λ s h. h }
  verified-Stays (some i) = record { run = λ s h. h }

  check_identity-Stays :
      (c : Plane) (p : InvitePayload) (i : Identity) → Stays (check_identity c p i)
  check_identity-Stays c p i =
      then-Stays (raise_if-Stays (not i.email_verified) ExchangeError.email_not_verified) (
        raise_if-Stays (not (str_eq (c.normalize i.email) (c.normalize p.candidate_email)))
          ExchangeError.email_mismatch)

  take_key-Stays : (other : ℕ) (o : Option InviteKey) → Stays (take_key other o)
  take_key-Stays other none = record { run = λ s h. h }
  take_key-Stays other (some k) = record {
    run = λ s.
        first-remove_absent (λ (k : InviteKey). k.jti == jti) (λ (k : InviteKey). k.jti == other)
          s.keys;
  }

  consume-Stays : (now other : ℕ) → Stays (consume now other)
  consume-Stays now other = record {
    run = λ s. (take_key-Stays other (first (is_live now other) s.keys)).run s;
  }

  admit-Stays :
      (c : Plane) (now : ℕ) (i : Option Invite) (e : Option Exam) → Stays (admit c now i e)
  admit-Stays c now (some i) (some e) = record { run = λ s h. h }
  admit-Stays c now (some i) none = record { run = λ s h. h }
  admit-Stays c now none e = record { run = λ s h. h }

  admit_payload-Stays : (c : Plane) (now : ℕ) (p : InvitePayload) → Stays (admit_payload c now p)
  admit_payload-Stays c now p = record {
    run = λ s.
        (admit-Stays c now (first (λ (i : Invite). i.id == p.invite_id) s.invites)
            (first (is_exam p.org_id p.exam_id) s.exams)).run
          s;
  }

  exchange-Stays :
      (c : Plane) (now : ℕ) (token google : String) → Stays (exchange c now token google)
  unfolding exchange
  exchange-Stays c now token google = bind-Stays (checked-Stays (c.decode token now)) (λ p.
      bind-Stays (verified-Stays (c.verify google)) (λ i.
        then-Stays (then-Stays (check_identity-Stays c p i) (consume-Stays now p.jti))
          (admit_payload-Stays c now p)))

  -- A new invitation has another number.
  appended_none :
      (k : InviteKey) (ks : List InviteKey)
      → (k.jti == jti) ≡ false
      → first (λ (k : InviteKey). k.jti == jti) ks ≡ none
      → first (λ (k : InviteKey). k.jti == jti) (ks ++ (k ∷ [])) ≡ none
  unfolding first
  appended_none k [] other h = rw other refl
  appended_none k (x ∷ xs) other h = ground (arith, h, appended_none k xs other)

  mailed-IsAbsent :
      (e : Exam) (r : Result ScheduleError Unit) (s : Board)
      → IsAbsent s
      → IsAbsent ((mailed e r s).1)
  mailed-IsAbsent e (ok u) s h = h
  mailed-IsAbsent e (err x) s h = h

  module _ (o : Services) (c : Plane) (fresh : (s : Board) → (o.new_jti s == jti) ≡ false) where
    step-IsAbsent : (e : Event) (s : Board) → IsAbsent s → IsAbsent (step o c e s)
    unfolding step
    step-IsAbsent (Event.invite now e) s h =
        let t = add_invite o now e s in
        mailed-IsAbsent e (o.send_email e (o.new_jti s) t) t (appended_none _ s.keys (fresh s) h)
    step-IsAbsent (Event.visit now token google) s h = (exchange-Stays c now token google).run s h

    steps-IsAbsent : (es : List Event) (s : Board) → IsAbsent s → IsAbsent (steps o c es s)
    unfolding steps
    steps-IsAbsent [] s h = h
    steps-IsAbsent (e ∷ es) s h = steps-IsAbsent es (step o c e s) (step-IsAbsent e s h)

  -- A step that succeeds has taken the invitation.
  abbrev Taken : {A : Type 0} → Result ExchangeError A × Board → Type 0
  Taken (ok a, s) = IsAbsent s
  Taken (err e, s) = Unit

  any-Taken :
      {A B : Type 0} (r : Result ExchangeError A × Board) (k : A → Handler B)
      → ((a : A) (s : Board) → Taken (k a s))
      → Taken (after r k)
  any-Taken (ok a, s) k rest = rest a s
  any-Taken (err e, s) k rest = tt

  absent-Taken : {A : Type 0} (r : Result ExchangeError A × Board) → IsAbsent (r.1) → Taken r
  absent-Taken (ok a, s) h = h
  absent-Taken (err e, s) h = tt

  then-Taken :
      {A B : Type 0} (r : Result ExchangeError A × Board) (k : A → Handler B)
      → Taken r
      → ((a : A) → Stays (k a))
      → Taken (after r k)
  then-Taken (ok a, s) k h rest = absent-Taken (k a s) ((rest a).run s h)
  then-Taken (err e, s) k h rest = tt

  consume-Taken : (now : ℕ) (s : Board) → Taken (consume now jti s)
  consume-Taken now s = one (first (is_live now jti) s.keys)
    where
      one : (o : Option InviteKey) → Taken (take_key jti o s)
      one none = tt
      one (some k) = removed_own s.keys

  payload-Taken :
      (c : Plane) (now : ℕ) (google : String) (p : InvitePayload) (s : Board)
      → p.jti ≡ jti
      → Taken (exchange_payload c now google p s)
  payload-Taken c now google p s same = any-Taken (verified (c.verify google) s) _ (λ i t.
      then-Taken (after (check_identity c p i t) (λ _. consume now p.jti))
        (λ _. admit_payload c now p)
        (any-Taken (check_identity c p i t) (λ _. consume now p.jti)
          (λ _ u. subst (λ j. Taken (consume now j u)) (sym same) (consume-Taken now u)))
        (λ _. admit_payload-Stays c now p))

  exchange-Taken :
      (c : Plane) (now : ℕ) (token google : String) (p : InvitePayload) (s : Board)
      → c.decode token now ≡ some p
      → p.jti ≡ jti
      → Taken (exchange c now token google s)
  unfolding exchange
  exchange-Taken c now token google p s decoded same =
      subst (λ o. Taken (after (checked o s) (λ q. exchange_payload c now google q))) (sym decoded)
        (typed (not (str_eq p.type "candidate_invite")))
    where
      typed :
          (test : Bool)
          → Taken (
              after
                ((raise_if test ExchangeError.invite_invalid >> pure p) s)
                (λ q. exchange_payload c now google q))
      typed true = tt
      typed false = payload-Taken c now google p s same

  abbrev Refused : {A : Type 0} → Result ExchangeError A × Board → Type 0
  Refused r = is_refused (r.0) ≡ true

  then-Refused :
      {A B : Type 0} (r : Result ExchangeError A × Board) (k : A → Handler B)
      → IsAbsent (r.1)
      → ((a : A) (s : Board) → IsAbsent s → Refused (k a s))
      → Refused (after r k)
  then-Refused (ok a, s) k h rest = rest a s h
  then-Refused (err e, s) k h rest = refl

  stop-Refused :
      {A B : Type 0} (r : Result ExchangeError A × Board) (k : A → Handler B)
      → Refused r
      → Refused (after r k)
  stop-Refused (ok a, s) k h = absurd (ground arith)
  stop-Refused (err e, s) k h = refl

  payload-Refused :
      (c : Plane) (now : ℕ) (google : String) (p : InvitePayload) (s : Board)
      → p.jti ≡ jti
      → IsAbsent s
      → Refused (exchange_payload c now google p s)
  payload-Refused c now google p s same h =
      then-Refused (verified (c.verify google) s) _ ((verified-Stays (c.verify google)).run s h)
        (λ i t h'.
          stop-Refused (after (check_identity c p i t) (λ _. consume now p.jti))
            (λ _. admit_payload c now p)
            (then-Refused (check_identity c p i t) (λ _. consume now p.jti)
              ((check_identity-Stays c p i).run t h')
              (λ _ u h''.
                subst (λ j. Refused (consume now j u)) (sym same)
                  (rw (live_none now u.keys h'') refl))))

  exchange-Refused :
      (c : Plane) (now : ℕ) (token google : String) (p : InvitePayload) (s : Board)
      → c.decode token now ≡ some p
      → p.jti ≡ jti
      → IsAbsent s
      → Refused (exchange c now token google s)
  unfolding exchange
  exchange-Refused c now token google p s decoded same h =
      subst (λ o. Refused (after (checked o s) (λ q. exchange_payload c now google q)))
        (sym decoded) (typed (not (str_eq p.type "candidate_invite")))
    where
      typed :
          (test : Bool)
          → Refused (
              after
                ((raise_if test ExchangeError.invite_invalid >> pure p) s)
                (λ q. exchange_payload c now google q))
      typed true = refl
      typed false = payload-Refused c now google p s same h

-- Take an invitation that was exchanged with success, whose number no later invitation gets. After
-- whatever invitations and visits follow, every token with the same number is refused, whoever comes
-- with it.
pub exchange_once :
    (o : Services) (c : Plane) (now later : ℕ) (token google token' google' : String)
    (p p' : InvitePayload) (s s' : Board) (result : Exam × String) (es : List Event)
    → c.decode token now ≡ some p
    → c.decode token' later ≡ some p'
    → p'.jti ≡ p.jti
    → ((s : Board) → (o.new_jti s == p.jti) ≡ false)
    → exchange c now token google s ≡ (ok result, s')
    → is_refused (exchange c later token' google' (steps o c es s')).0 ≡ true
exchange_once o c now later token google token' google' p p' s s' result es decoded decoded' same
      fresh done =
    let gone : IsAbsent p.jti s' =
      subst (Taken p.jti) done (exchange-Taken p.jti c now token google p s decoded refl) in
    exchange-Refused p.jti c later token' google' p' (steps o c es s') decoded' same
      (steps-IsAbsent p.jti o c fresh es s' gone)
