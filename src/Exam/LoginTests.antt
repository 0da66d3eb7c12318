-- ===== src/Exam/LoginTests.antt =====
-- An examiner with one refresh token, and the theorem about its second exchange at it.
use dsa_platform.Prelude.{◌+◌, refl, true, none, [], ◌∷◌, length}
use dsa_platform.Prelude.Table.{first, update}
use dsa_platform.Exam.Login.{
  Role, Examiner, RefreshToken, Accounts, Security, Request, refresh, serve_all, add_token, revoke,
  new_token,
}
use dsa_platform.Exam.Login.Rotation.{Rejected, refresh_once}

abbrev ada : Examiner
ada = record {
  id = 7;
  org_id = 5;
  email = "ada@example.org";
  password_hash = "x";
  role = Role.admin;
  totp_secret = "y";
  totp_enabled = true;
  is_active = true;
}

abbrev security : Security
security = record {
  hash_password = λ password s. password;
  verify_password = λ hash password. true;
  generate_totp_secret = λ s. "y";
  verify_totp = λ secret code now. true;
  create_access_token = λ e now. "access";
  generate_refresh_token = λ s. length s.refresh_tokens + 40;
  hash_refresh_token = λ raw. raw;
  new_org = λ s. 6;
  new_examiner = λ s. 8;
  refresh_token_ttl_seconds = 1000;
  access_token_ttl_seconds = 60;
}

abbrev token : RefreshToken
token = record { examiner_id = 7; org_id = 5; token_hash = 40; expires_at = 900; revoked_at = none }

abbrev accounts : Accounts
accounts = record { orgs = (5, "Org") ∷ []; examiners = ada ∷ []; refresh_tokens = token ∷ [] }

abbrev exchanged : Accounts
exchanged =
    add_token (new_token security 100 ada (revoke 100 token accounts)) (revoke 100 token accounts)

refresh_once_example :
    Rejected 7 (refresh security 200 40 (serve_all security (Request.renew 150 41 ∷ []) exchanged))
unfolding refresh first update
refresh_once_example =
    refresh_once security 100 200 40 token accounts exchanged
      (record { access_token = "access"; refresh_token = 41; expires_in = 60 })
      (Request.renew 150 41 ∷ []) refl refl
