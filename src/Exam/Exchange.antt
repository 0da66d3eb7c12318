-- ===== src/Exam/Exchange.antt =====
-- services/exam/app/services/candidate_auth.py: a candidate exchanges an invitation for a token.
use dsa_platform.Prelude.{
  ℕ, ◌+◌, String, Bool, true, false, Option, none, some, List, [], ◌∷◌, ◌==◌, ◌&&◌, not, ltb,
  str_eq, if◌then◌else◌, Exec, Result, ok, err, pure, raise, raise_if, modify_state, ◌>>=◌, ◌>>◌,
}
use dsa_platform.Prelude.Table.{first, update, remove}
use dsa_platform.Exam.Db.{Exam}
use dsa_platform.Exam.Scheduling.{
  InviteStatus, Invite, InviteKey, Board, Services, is_exam, send_invite,
}
pub mod Once

-- What `jwt.decode` returns for an invitation.
pub record InvitePayload : Type 0 where
  pub jti : ℕ
  pub invite_id : ℕ
  pub exam_id : ℕ
  pub org_id : ℕ
  pub candidate_email : String
  pub type : String

pub record Identity : Type 0 where
  pub email : String
  pub email_verified : Bool

pub data ExchangeError : Type 0 where
  invite_invalid identity_invalid email_not_verified email_mismatch : ExchangeError

-- PyJWT, at a point in time; Google's verifier; `email.strip().lower()`; and the signed token.
pub record Plane : Type 0 where
  pub decode : String → ℕ → Option InvitePayload
  pub verify : String → Option Identity
  pub normalize : String → String
  pub create_candidate_exam_token : Invite → Exam → ℕ → String

abbrev pub Handler : Type 0 → Type 0
Handler A = Exec ExchangeError Board A

abbrev pub checked : Option InvitePayload → Handler InvitePayload
checked none = raise ExchangeError.invite_invalid
checked (some p) =
    raise_if (not (str_eq p.type "candidate_invite")) ExchangeError.invite_invalid >> pure p

abbrev pub decode_invite_token : Plane → ℕ → String → Handler InvitePayload
decode_invite_token c now token = checked (c.decode token now)

abbrev pub verified : Option Identity → Handler Identity
verified none = raise ExchangeError.identity_invalid
verified (some i) = pure i

-- The key is there and has not expired.
abbrev pub is_live : ℕ → ℕ → InviteKey → Bool
is_live now jti k = k.jti == jti && ltb now (k.set_at + k.ttl)

abbrev pub taken : ℕ → Board → Board
taken jti s = record s { keys = remove (λ (k : InviteKey). k.jti == jti) s.keys }

abbrev pub take_key : ℕ → Option InviteKey → Handler Unit
take_key jti none = raise ExchangeError.invite_invalid
take_key jti (some k) = modify_state (taken jti)

-- `redis.getdel`
abbrev pub consume : ℕ → ℕ → Handler Unit
consume now jti s = take_key jti (first (is_live now jti) s.keys) s

abbrev pub used : ℕ → Invite → Invite
used now i = record i { status = InviteStatus.consumed; consumed_at = some now }

abbrev pub set_invite : ℕ → (Invite → Invite) → Board → Board
set_invite id f s = record s { invites = update (λ (i : Invite). i.id == id) f s.invites }

abbrev pub admit : Plane → ℕ → Option Invite → Option Exam → Handler (Exam × String)
admit c now (some i) (some e) =
    modify_state (set_invite i.id (used now))
    >> pure (e, c.create_candidate_exam_token (used now i) e now)
admit c now (some i) none = raise ExchangeError.invite_invalid
admit c now none found = raise ExchangeError.invite_invalid

abbrev pub admit_payload : Plane → ℕ → InvitePayload → Handler (Exam × String)
admit_payload c now p s =
    admit c now (first (λ (i : Invite). i.id == p.invite_id) s.invites)
      (first (is_exam p.org_id p.exam_id) s.exams) s

-- The candidate is who was invited, before the key is consumed.
abbrev pub check_identity : Plane → InvitePayload → Identity → Handler Unit
check_identity c p i =
    raise_if (not i.email_verified) ExchangeError.email_not_verified
    >> raise_if (not (str_eq (c.normalize i.email) (c.normalize p.candidate_email)))
        ExchangeError.email_mismatch

abbrev pub exchange_payload : Plane → ℕ → String → InvitePayload → Handler (Exam × String)
exchange_payload c now google p = verified (c.verify google) >>= λ (i : Identity).
    check_identity c p i >> consume now p.jti >> admit_payload c now p

unfoldable pub exchange : Plane → ℕ → String → String → Handler (Exam × String)
exchange c now token google =
    decode_invite_token c now token >>= λ p. exchange_payload c now google p

-- An invitation is sent, or a candidate comes with a token and an identity.
pub data Event : Type 0 where
  invite : ℕ → Exam → Event
  visit : ℕ → String → String → Event

unfoldable pub step : Services → Plane → Event → Board → Board
step o c (Event.invite now exam) s = (send_invite o now exam s).1
step o c (Event.visit now token google) s = (exchange c now token google s).1

unfoldable pub steps : Services → Plane → List Event → Board → Board
steps o c [] s = s
steps o c (e ∷ es) s = steps o c es (step o c e s)
