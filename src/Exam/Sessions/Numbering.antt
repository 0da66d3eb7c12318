-- ===== src/Exam/Sessions/Numbering.antt =====
-- The questions that a session is given are numbered from 1, as many as the topic mix asks for.
use dsa_platform.Prelude.{
  ℕ, suc, ◌+◌, ◌≤◌, String, ◌≡◌, refl, sym, ap, All, All-append, none, ◌∙◌, zero, List, [], ◌∷◌,
  ◌++◌, map, arith, Result, ok, err, inl, inr, Result-cases, length, range_from,
}
use mathlib.Core.Path.{subst, ap₂}
use mathlib.Core.List.{append_assoc, append-nil, map-append}
use dsa_platform.Exam.Db.{TopicEntry, SessionQuestion, Error, World}
use dsa_platform.Exam.Sessions.Rows.{Services, QuestionRef, add_question}
use dsa_platform.Exam.Sessions.Assign.{choose, draw, number, prepend, add_questions, assign_from}

-- `random.sample(pool, k)` draws k items.
pub record IsSampler (services : Services) : Type 0 where
  pub size :
      (version : ℕ) (candidate : String) (index : ℕ) (pool : List QuestionRef) (k : ℕ)
      → k ≤ length pool
      → length (services.sample version candidate index pool k) ≡ k

abbrev pub total_questions : List TopicEntry → ℕ
total_questions [] = 0
total_questions (e ∷ es) = e.question_count + total_questions es

abbrev pub ordinals : List SessionQuestion → List ℕ
ordinals = map (λ q. q.ordinal)

pub range_from-add : (n a b : ℕ) → range_from n (a + b) ≡ range_from n a ++ range_from (n + a) b
range_from-add n zero b = ap₂ range_from (omega arith) (omega arith)
range_from-add n (suc a) b =
    let split : suc a + b ≡ suc (a + b) = omega arith in
    let shift : suc n + a ≡ n + suc a = omega arith in
    rw split (ap (λ xs. n ∷ xs) (rw (range_from-add (suc n) a b, shift) refl))

ordinals-number :
    (org_id sid n : ℕ) (rs : List QuestionRef)
    → ordinals (number org_id sid n rs) ≡ range_from n (length rs)
unfolding number
ordinals-number org_id sid n [] = refl
ordinals-number org_id sid n (r ∷ rs) =
    ap (λ xs. n ∷ xs)
      (ordinals-number org_id sid (n + 1) rs ∙ ap (λ m. range_from m (length rs)) (omega arith))

-- A question that was given to a session and not shown yet.
abbrev pub IsGiven : ℕ → ℕ → SessionQuestion → Type 0
IsGiven org_id sid q = (q.org_id ≡ org_id) × (q.session_id ≡ sid) × (q.shown_at ≡ none)

number-IsGiven :
    (org_id sid n : ℕ) (rs : List QuestionRef) → All (IsGiven org_id sid) (number org_id sid n rs)
unfolding number
number-IsGiven org_id sid n [] = tt
number-IsGiven org_id sid n (r ∷ rs) = ((refl, refl, refl), number-IsGiven org_id sid (n + 1) rs)

questions-add_questions :
    (qs : List SessionQuestion) (w : World)
    → (add_questions qs w).db.questions ≡ w.db.questions ++ qs
unfolding add_questions
questions-add_questions [] w = sym (append-nil w.db.questions)
questions-add_questions (q ∷ qs) w =
    questions-add_questions qs (add_question q w) ∙ append_assoc w.db.questions (q ∷ []) qs

-- A drawn entry has as many questions as it asks for.
length-draw :
    (services : Services) (law : IsSampler services) (org_id version : ℕ) (candidate : String)
    (index : ℕ) (entry : TopicEntry) {chosen : List QuestionRef}
    → draw services org_id version candidate index entry ≡ ok chosen
    → length chosen ≡ entry.question_count
unfolding draw choose
length-draw services law org_id version candidate index entry h = grind (arith, law.size)

-- What a successful loop over the topic mix has written: `total` rows of the session, numbered from
-- `n`.
abbrev pub IsAssigned : ℕ → ℕ → ℕ → ℕ → World → Result Error (List SessionQuestion) × World → Type 0
IsAssigned org_id sid n total w (err _, _) = Unit
IsAssigned org_id sid n total w (ok qs, w') =
    (ordinals qs ≡ range_from n total)
    × (w'.db.questions ≡ w.db.questions ++ qs)
    × All (IsGiven org_id sid) qs

prepend-IsAssigned :
    (org_id sid n a b : ℕ) (mine : List SessionQuestion) (w : World)
    (r : Result Error (List SessionQuestion) × World)
    → ordinals mine ≡ range_from n a
    → All (IsGiven org_id sid) mine
    → IsAssigned org_id sid (n + a) b (add_questions mine w) r
    → IsAssigned org_id sid n (a + b) w (prepend mine r)
prepend-IsAssigned org_id sid n a b mine w (err e, w') numbered given rest = tt
prepend-IsAssigned org_id sid n a b mine w (ok qs, w') numbered given (more, written, others) = (
  map-append (λ q. q.ordinal) mine qs ∙ rw (range_from-add n a b, numbered, more) refl,
  written ∙ rw (questions-add_questions mine w, append_assoc w.db.questions mine qs) refl,
  All-append (IsGiven org_id sid) mine qs given others,
)

module _ (services : Services) (law : IsSampler services) (org_id version : ℕ) (candidate : String)
    (sid : ℕ) where
  assign_from-failed :
      (n index : ℕ) (entry : TopicEntry) (rest : List TopicEntry) (w : World) {x : Error}
      → draw services org_id version candidate index entry ≡ err x
      → assign_from services org_id version candidate sid n index (entry ∷ rest) w ≡ (err x, w)
  unfolding assign_from
  assign_from-failed n index entry rest w failed = rw (failed, assign_from)

  assign_from-drawn :
      (n index : ℕ) (entry : TopicEntry) (rest : List TopicEntry) (w : World)
      {chosen : List QuestionRef}
      → draw services org_id version candidate index entry ≡ ok chosen
      → let mine = number org_id sid n chosen in
        assign_from services org_id version candidate sid n index (entry ∷ rest) w
        ≡ prepend mine (
            assign_from services org_id version candidate sid
              (n + length chosen)
              (suc index)
              rest
              (add_questions mine w))
  unfolding assign_from
  assign_from-drawn n index entry rest w drawn = rw (drawn, assign_from)

  pub assign_from-IsAssigned :
      (n index : ℕ) (entries : List TopicEntry) (w : World)
      → IsAssigned org_id sid n
          (total_questions entries)
          w
          (assign_from services org_id version candidate sid n index entries w)
  assign_from-IsAssigned n index [] w =
      unfold assign_from in (refl, sym (append-nil w.db.questions), tt)
  assign_from-IsAssigned n index (entry ∷ rest) w =
      elim (Result-cases (draw services org_id version candidate index entry)) [
        | inl (x, failed) ↦
            subst (IsAssigned org_id sid n (total_questions (entry ∷ rest)) w)
              (sym (assign_from-failed n index entry rest w failed)) tt
        | inr (chosen, drawn) ↦
            let mine = number org_id sid n chosen in
            let w' = add_questions mine w in
            let later =
              assign_from services org_id version candidate sid (n + length chosen) (suc index) rest
                w' in
            let done =
              prepend-IsAssigned org_id sid n (length chosen) (total_questions rest) mine w later
                (ordinals-number org_id sid n chosen) (number-IsGiven org_id sid n chosen)
                (assign_from-IsAssigned (n + length chosen) (suc index) rest w') in
            subst (IsAssigned org_id sid n (total_questions (entry ∷ rest)) w)
              (sym (assign_from-drawn n index entry rest w drawn))
              (subst
                (λ c. IsAssigned org_id sid n (c + total_questions rest) w (prepend mine later))
                (length-draw services law org_id version candidate index entry drawn) done)
      ]
