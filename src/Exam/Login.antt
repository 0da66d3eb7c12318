-- ===== src/Exam/Login.antt =====
-- services/exam/app/services/auth.py with its repositories: examiners and their refresh tokens. A
-- raw token and its hash are only compared, so they are numbers.
use dsa_platform.Prelude.{
  ℕ, ◌+◌, String, Bool, true, false, Option, none, some, List, [], ◌∷◌, ◌++◌, ◌==◌, ◌&&◌, ◌||◌, not,
  leb, is_some, is_none, str_eq, if◌then◌else◌, Exec, Result, ok, err, pure, raise, raise_if,
  modify_state, ◌>>=◌, ◌>>◌,
}
use dsa_platform.Prelude.Table.{first, update}
pub mod Reuse
pub mod Rotation

pub data Role : Type 0 where
  admin author proctor reviewer : Role

pub record Examiner : Type 0 where
  pub id : ℕ
  pub org_id : ℕ
  pub email : String
  pub password_hash : String
  pub role : Role
  pub totp_secret : String
  pub totp_enabled : Bool
  pub is_active : Bool

pub record RefreshToken : Type 0 where
  pub examiner_id : ℕ
  pub org_id : ℕ
  pub token_hash : ℕ
  pub expires_at : ℕ
  pub revoked_at : Option ℕ

pub record Accounts : Type 0 where
  pub orgs : List (ℕ × String)
  pub examiners : List Examiner
  pub refresh_tokens : List RefreshToken

-- core/exceptions.py, those that these handlers raise
pub data LoginError : Type 0 where
  email_taken invalid_credentials invalid_totp totp_not_enabled token_invalid : LoginError

-- core/security.py rests on argon2, pyotp, PyJWT, `secrets` and `hashlib`.
pub record Security : Type 0 where
  pub hash_password : String → Accounts → String
  pub verify_password : String → String → Bool
  pub generate_totp_secret : Accounts → String
  pub verify_totp : String → String → ℕ → Bool
  pub create_access_token : Examiner → ℕ → String
  pub generate_refresh_token : Accounts → ℕ
  pub hash_refresh_token : ℕ → ℕ
  pub new_org : Accounts → ℕ
  pub new_examiner : Accounts → ℕ
  pub refresh_token_ttl_seconds : ℕ
  pub access_token_ttl_seconds : ℕ

pub record TokenResponse : Type 0 where
  pub access_token : String
  pub refresh_token : ℕ
  pub expires_in : ℕ

-- Nothing is written before a handler raises, but for what it commits.
abbrev pub Handler : Type 0 → Type 0
Handler A = Exec LoginError Accounts A

-- `get_by_email`
abbrev pub find_email : String → Accounts → Option Examiner
find_email email s = first (λ (e : Examiner). str_eq e.email email) s.examiners

abbrev pub find_examiner : ℕ → ℕ → Accounts → Option Examiner
find_examiner org_id examiner_id s =
    first (λ (e : Examiner). e.id == examiner_id && e.org_id == org_id) s.examiners

-- `get_by_hash`
abbrev pub find_token : ℕ → Accounts → Option RefreshToken
find_token hash s = first (λ (t : RefreshToken). t.token_hash == hash) s.refresh_tokens

abbrev pub add_account : ℕ × String → Examiner → Accounts → Accounts
add_account org e s = record s { orgs = s.orgs ++ (org ∷ []); examiners = s.examiners ++ (e ∷ []) }

abbrev pub set_examiner : ℕ → (Examiner → Examiner) → Accounts → Accounts
set_examiner id f s = record s { examiners = update (λ (e : Examiner). e.id == id) f s.examiners }

abbrev pub add_token : RefreshToken → Accounts → Accounts
add_token t s = record s { refresh_tokens = s.refresh_tokens ++ (t ∷ []) }

abbrev pub revoked : ℕ → RefreshToken → RefreshToken
revoked now t = record t { revoked_at = some now }

abbrev pub revoke : ℕ → RefreshToken → Accounts → Accounts
revoke now row s = record s {
  refresh_tokens =
      update (λ (t : RefreshToken). t.token_hash == row.token_hash) (revoked now) s.refresh_tokens;
}

abbrev pub revoke_all_for_examiner : ℕ → ℕ → Accounts → Accounts
revoke_all_for_examiner now examiner_id s = record s {
  refresh_tokens =
      update (λ (t : RefreshToken). t.examiner_id == examiner_id && is_none t.revoked_at)
        (revoked now) s.refresh_tokens;
}

abbrev pub new_account : Security → ℕ → String → String → Accounts → Examiner
new_account c org_id email password s = record {
  id = c.new_examiner s;
  org_id = org_id;
  email = email;
  password_hash = c.hash_password password s;
  role = Role.admin;
  totp_secret = c.generate_totp_secret s;
  totp_enabled = false;
  is_active = true;
}

unfoldable pub register : Security → String → String → String → Handler Examiner
register c org_name email password s =
    let e = new_account c (c.new_org s) email password s in
    if is_some (find_email email s)
    then (err LoginError.email_taken, s)
    else (ok e, add_account (c.new_org s, org_name) e s)

abbrev pub check_password : Security → String → Option Examiner → Handler Examiner
check_password c password none = raise LoginError.invalid_credentials
check_password c password (some e) =
    raise_if (not e.is_active || not (c.verify_password e.password_hash password))
      LoginError.invalid_credentials
    >> pure e

-- `_authenticate_password`
abbrev pub authenticate_password : Security → String → String → Handler Examiner
authenticate_password c email password s = check_password c password (find_email email s) s

abbrev pub enabled : Examiner → Examiner
enabled e = record e { totp_enabled = true }

unfoldable pub verify_totp_enrollment : Security → ℕ → String → String → String → Handler Unit
verify_totp_enrollment c now email password code =
    authenticate_password c email password >>= λ (e : Examiner).
    raise_if (not (c.verify_totp e.totp_secret code now)) LoginError.invalid_totp
    >> modify_state (set_examiner e.id enabled)

abbrev pub new_token : Security → ℕ → Examiner → Accounts → RefreshToken
new_token c now e s = record {
  examiner_id = e.id;
  org_id = e.org_id;
  token_hash = c.hash_refresh_token (c.generate_refresh_token s);
  expires_at = now + c.refresh_token_ttl_seconds;
  revoked_at = none;
}

-- `_issue_tokens`
abbrev pub issue_tokens : Security → ℕ → Examiner → Handler TokenResponse
issue_tokens c now e s = (
  ok (record {
    access_token = c.create_access_token e now;
    refresh_token = c.generate_refresh_token s;
    expires_in = c.access_token_ttl_seconds;
  }),
  add_token (new_token c now e s) s,
)

unfoldable pub login : Security → ℕ → String → String → String → Handler TokenResponse
login c now email password code = authenticate_password c email password >>= λ (e : Examiner).
    raise_if (not e.totp_enabled) LoginError.totp_not_enabled
    >> raise_if (not (c.verify_totp e.totp_secret code now)) LoginError.invalid_totp
    >> issue_tokens c now e

abbrev pub rotate : Security → ℕ → RefreshToken → Option Examiner → Handler TokenResponse
rotate c now row none = raise LoginError.token_invalid
rotate c now row (some e) =
    raise_if (not e.is_active) LoginError.token_invalid
    >> modify_state (revoke now row)
    >> issue_tokens c now e

abbrev pub refresh_live : Security → ℕ → RefreshToken → Handler TokenResponse
refresh_live c now row s =
    (raise_if (leb row.expires_at now) LoginError.token_invalid
        >> rotate c now row (find_examiner row.org_id row.examiner_id s))
      s

-- A token that was revoked is one that is used again: every token of its examiner is revoked.
abbrev pub refresh_row : Security → ℕ → Option RefreshToken → Handler TokenResponse
refresh_row c now none = raise LoginError.token_invalid
refresh_row c now (some row) =
    if is_some row.revoked_at
    then (modify_state (revoke_all_for_examiner now row.examiner_id)
        >> raise LoginError.token_invalid)
    else refresh_live c now row

unfoldable pub refresh : Security → ℕ → ℕ → Handler TokenResponse
refresh c now raw s = refresh_row c now (find_token (c.hash_refresh_token raw) s) s

abbrev pub logout_row : ℕ → Option RefreshToken → Handler Unit
logout_row now none = pure tt
logout_row now (some row) =
    if is_none row.revoked_at then modify_state (revoke now row) else pure tt

unfoldable pub logout : Security → ℕ → ℕ → Handler Unit
logout c now raw s = logout_row now (find_token (c.hash_refresh_token raw) s) s

-- What an examiner asks for.
pub data Request : Type 0 where
  sign_up : String → String → String → Request
  enroll log_in : ℕ → String → String → String → Request
  renew log_out : ℕ → ℕ → Request

unfoldable pub serve : Security → Request → Accounts → Accounts
serve c (Request.sign_up org_name email password) s = (register c org_name email password s).1
serve c (Request.enroll now email password code) s =
    (verify_totp_enrollment c now email password code s).1
serve c (Request.log_in now email password code) s = (login c now email password code s).1
serve c (Request.renew now raw) s = (refresh c now raw s).1
serve c (Request.log_out now raw) s = (logout c now raw s).1

unfoldable pub serve_all : Security → List Request → Accounts → Accounts
serve_all c [] s = s
serve_all c (r ∷ rs) s = serve_all c rs (serve c r s)
