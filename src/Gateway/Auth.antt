-- ===== src/Gateway/Auth.antt =====
-- services/gateway/app/auth.py: which plane may reach which route. The check of a token's signature,
-- its expiry and its required claims is PyJWT's: `decode` stands for `jwt.decode`, `none` for one of
-- its errors.
use dsa_platform.Prelude.{
  ℕ, ◌+◌, String, Bool, true, false, Option, none, some, List, [], ◌∷◌, ◌==◌, ◌&&◌, not, leb, codes,
  list_eq, str_eq, if◌then◌else◌, Result, ok, err,
}
use dsa_platform.Gateway.Routing.{Policy}

-- The claims of a verified token that the gateway reads.
pub record Payload : Type 0 where
  pub sub : String
  pub kind : String

abbrev pub Decoder : Type 0
Decoder = List ℕ → Option Payload

abbrev pub token_type_examiner : String
token_type_examiner = "examiner_access"

abbrev pub token_type_candidate : String
token_type_candidate = "candidate_exam"

-- `_POLICY_TOKEN_TYPE`; a missing key is a `KeyError`
abbrev pub policy_token_type : Policy → Option String
policy_token_type Policy.examiner = some token_type_examiner
policy_token_type Policy.candidate = some token_type_candidate
policy_token_type Policy.public = none
policy_token_type Policy.blocked = none

pub data Kind : Type 0 where
  examiner candidate ip : Kind

pub record Identity : Type 0 where
  pub kind : Kind
  pub value : String

-- A refusal with its detail, or an exception that nobody catches.
pub data AuthError : Type 0 where
  auth_failed : String → AuthError
  key_error : AuthError

abbrev pub space : ℕ
space = b' '

-- `text.partition(" ")`: what stands before the first space, and after it
unfoldable pub partition : List ℕ → List ℕ × List ℕ
partition [] = ([], [])
partition (c ∷ text) =
    let rest = partition text in if c == space then ([], text) else (c ∷ rest.0, rest.1)

-- `lower()` on the ASCII letters. No other character has a lower case in the word `bearer`.
unfoldable pub lower : List ℕ → List ℕ
lower [] = []
lower (c ∷ text) = (if leb b'A' c && leb c b'Z' then c + 32 else c) ∷ lower text

abbrev is_empty : List ℕ → Bool
is_empty [] = true
is_empty (c ∷ text) = false

abbrev pub scheme_of : List ℕ × List ℕ → Option (List ℕ)
scheme_of (scheme, token) =
    if not (list_eq (lower scheme) (codes "bearer"))
    then none
    else if is_empty token
    then none
    else some token

unfoldable pub bearer_token : Option (List ℕ) → Option (List ℕ)
unfolding partition lower
bearer_token none = none
bearer_token (some []) = none
bearer_token (some (c ∷ text)) = scheme_of (partition (c ∷ text))

abbrev pub kind_of : String → Kind
kind_of expected = if str_eq expected token_type_examiner then Kind.examiner else Kind.candidate

abbrev pub check_type : Policy → Payload → Result AuthError Identity
check_type policy payload = elim (policy_token_type policy) [
  | none ↦ err AuthError.key_error
  | some expected ↦
      if not (str_eq payload.kind expected)
      then err (AuthError.auth_failed "Token is not valid for this route")
      else ok (record { kind = kind_of expected; value = payload.sub })
]

abbrev pub check_payload : Policy → Option Payload → Result AuthError Identity
check_payload policy none = err (AuthError.auth_failed "Invalid or expired token")
check_payload policy (some payload) = check_type policy payload

abbrev pub check_token : Decoder → Policy → Option (List ℕ) → Result AuthError Identity
check_token decode policy none = err (AuthError.auth_failed "Missing bearer token")
check_token decode policy (some token) = check_payload policy (decode token)

unfoldable pub authorise : Decoder → Policy → Option (List ℕ) → String → Result AuthError Identity
authorise decode Policy.public authorization client_ip =
    ok (record { kind = Kind.ip; value = client_ip })
authorise decode Policy.examiner authorization client_ip =
    check_token decode Policy.examiner (bearer_token authorization)
authorise decode Policy.candidate authorization client_ip =
    check_token decode Policy.candidate (bearer_token authorization)
authorise decode Policy.blocked authorization client_ip =
    check_token decode Policy.blocked (bearer_token authorization)
