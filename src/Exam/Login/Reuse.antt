-- ===== src/Exam/Login/Reuse.antt =====
-- A refresh token that was used once.
use mathlib.Core.Option
use dsa_platform.Prelude.{
  ℕ, String, Bool, true, false, Option, none, some, List, [], ◌∷◌, ◌≡◌, refl, ap, ◌∙◌, ◌==◌, ◌&&◌,
  not, is_some, is_none, arith, inl, inr, Bool-cases, if◌then◌else◌, Result, ok, err, after, pure,
  raise, raise_if, modify_state, ◌>>=◌, ◌>>◌,
}
use dsa_platform.Prelude.Table.{update, first-append, first-update, or_else}
use dsa_platform.Exam.Login.{
  Examiner, RefreshToken, Accounts, LoginError, Security, Handler, find_examiner, find_email,
  find_token, set_examiner, add_token, revoked, register, check_password, authenticate_password,
  enabled, verify_totp_enrollment, new_token, issue_tokens, login, rotate, refresh_live,
  refresh_row, refresh, logout_row, logout, Request, serve, serve_all,
}

-- The token was revoked, and is the examiner's.
abbrev pub spent : ℕ → Option RefreshToken → Bool
spent examiner_id none = false
spent examiner_id (some t) = is_some t.revoked_at && t.examiner_id == examiner_id

module _ (hash examiner_id : ℕ) where
  abbrev pub IsSpent : Accounts → Type 0
  IsSpent s = spent examiner_id (find_token hash s) ≡ true

  or_else-spent :
      (o p : Option RefreshToken)
      → spent examiner_id o ≡ true
      → spent examiner_id (or_else o p) ≡ true
  or_else-spent none p h = absurd (ground arith)
  or_else-spent (some t) p h = h

  pub add_token-IsSpent : (t : RefreshToken) (s : Accounts) → IsSpent s → IsSpent (add_token t s)
  add_token-IsSpent t s h =
      ap (spent examiner_id)
        (first-append (λ (t : RefreshToken). t.token_hash == hash) s.refresh_tokens (t ∷ []))
      ∙ or_else-spent (find_token hash s) _ h

  map-spent :
      (test : RefreshToken → Bool) (now : ℕ) (o : Option RefreshToken)
      → spent examiner_id o ≡ true
      → spent examiner_id (Option.map (λ a. if test a then revoked now a else a) o) ≡ true
  map-spent test now none h = absurd (ground arith)
  map-spent test now (some t) h = elim (Bool-cases (test t)) [
    | inl yes_it ↦ rw yes_it (ground (arith, h))
    | inr no_it ↦ rw no_it h
  ]

  revoke_where-IsSpent :
      (test : RefreshToken → Bool) (now : ℕ) (s : Accounts)
      → IsSpent s
      → IsSpent (record s { refresh_tokens = update test (revoked now) s.refresh_tokens })
  revoke_where-IsSpent test now s h =
      ap (spent examiner_id) (
        first-update (λ (t : RefreshToken). t.token_hash == hash) test (revoked now)
          s.refresh_tokens (λ a. refl))
      ∙ map-spent test now (find_token hash s) h

  -- Whether a step raises or not, the token stays spent.
  record Stays {A : Type 0} (m : Handler A) : Type 0 where
    pub run : (s : Accounts) → IsSpent s → IsSpent ((m s).1)

  after-IsSpent :
      {A B : Type 0} (r : Result LoginError A × Accounts) (k : A → Handler B)
      → IsSpent (r.1)
      → ((a : A) → Stays (k a))
      → IsSpent ((after r k).1)
  after-IsSpent (ok a, s) k h rest = (rest a).run s h
  after-IsSpent (err e, s) k h rest = h

  bind-Stays :
      {A B : Type 0} {m : Handler A} {k : A → Handler B}
      → Stays m
      → ((a : A) → Stays (k a))
      → Stays (m >>= k)
  bind-Stays {m} {k} before rest = record {
    run = λ s h. after-IsSpent (m s) k (before.run s h) rest;
  }

  then-Stays : {A B : Type 0} {m : Handler A} {k : Handler B} → Stays m → Stays k → Stays (m >> k)
  then-Stays before rest = bind-Stays before (λ _. rest)

  pure-Stays : {A : Type 0} (a : A) → Stays (pure a)
  pure-Stays a = record { run = λ s h. h }

  raise-Stays : {A : Type 0} (e : LoginError) → Stays {A = A} (raise e)
  raise-Stays e = record { run = λ s h. h }

  raise_if-Stays : (test : Bool) (e : LoginError) → Stays (raise_if test e)
  raise_if-Stays test e = record { run = λ s h. h }

  revoke_where-Stays :
      (test : RefreshToken → Bool) (now : ℕ)
      → Stays (
          modify_state
            (λ s. record s { refresh_tokens = update test (revoked now) s.refresh_tokens }))
  revoke_where-Stays test now = record { run = revoke_where-IsSpent test now }

  if-Stays :
      {A : Type 0} {m n : Handler A} (test : Bool)
      → Stays m
      → Stays n
      → Stays (if test then m else n)
  if-Stays true h h' = h
  if-Stays false h h' = h'

  check_password-Stays :
      (c : Security) (password : String) (o : Option Examiner) → Stays (check_password c password o)
  check_password-Stays c password none = raise-Stays LoginError.invalid_credentials
  check_password-Stays c password (some e) =
      then-Stays (raise_if-Stays _ LoginError.invalid_credentials) (pure-Stays e)

  authenticate-Stays :
      (c : Security) (email password : String) → Stays (authenticate_password c email password)
  authenticate-Stays c email password = record {
    run = λ s. (check_password-Stays c password (find_email email s)).run s;
  }

  issue_tokens-Stays : (c : Security) (now : ℕ) (e : Examiner) → Stays (issue_tokens c now e)
  issue_tokens-Stays c now e = record { run = λ s. add_token-IsSpent (new_token c now e s) s }

  register-Stays :
      (c : Security) (org_name email password : String) → Stays (register c org_name email password)
  unfolding register
  register-Stays c org_name email password = record {
    run = λ s h. elim (Bool-cases (is_some (find_email email s))) [
      | inl taken ↦ rw taken h
      | inr unused ↦ rw unused h
    ];
  }

  set_examiner-Stays : (id : ℕ) (f : Examiner → Examiner) → Stays (modify_state (set_examiner id f))
  set_examiner-Stays id f = record { run = λ s h. h }

  enroll-Stays :
      (c : Security) (now : ℕ) (email password code : String)
      → Stays (verify_totp_enrollment c now email password code)
  unfolding verify_totp_enrollment
  enroll-Stays c now email password code =
      bind-Stays (authenticate-Stays c email password) (λ (e : Examiner).
        then-Stays
          (raise_if-Stays (not (c.verify_totp e.totp_secret code now)) LoginError.invalid_totp)
          (set_examiner-Stays e.id enabled))

  login-Stays :
      (c : Security) (now : ℕ) (email password code : String)
      → Stays (login c now email password code)
  unfolding login
  login-Stays c now email password code = bind-Stays (authenticate-Stays c email password) (λ e.
      then-Stays
        (then-Stays (raise_if-Stays _ LoginError.totp_not_enabled)
          (raise_if-Stays _ LoginError.invalid_totp))
        (issue_tokens-Stays c now e))

  rotate-Stays :
      (c : Security) (now : ℕ) (row : RefreshToken) (o : Option Examiner)
      → Stays (rotate c now row o)
  rotate-Stays c now row none = raise-Stays LoginError.token_invalid
  rotate-Stays c now row (some e) =
      then-Stays (then-Stays (raise_if-Stays _ LoginError.token_invalid) (revoke_where-Stays _ now))
        (issue_tokens-Stays c now e)

  refresh_live-Stays :
      (c : Security) (now : ℕ) (row : RefreshToken) → Stays (refresh_live c now row)
  refresh_live-Stays c now row = record {
    run = λ s.
        (then-Stays (raise_if-Stays _ LoginError.token_invalid)
            (rotate-Stays c now row (find_examiner row.org_id row.examiner_id s))).run
          s;
  }

  refresh_row-Stays :
      (c : Security) (now : ℕ) (o : Option RefreshToken) → Stays (refresh_row c now o)
  refresh_row-Stays c now none = raise-Stays LoginError.token_invalid
  refresh_row-Stays c now (some row) =
      if-Stays (is_some row.revoked_at)
        (then-Stays (revoke_where-Stays _ now) (raise-Stays LoginError.token_invalid))
        (refresh_live-Stays c now row)

  refresh-Stays : (c : Security) (now raw : ℕ) → Stays (refresh c now raw)
  unfolding refresh
  refresh-Stays c now raw = record {
    run = λ s. (refresh_row-Stays c now (find_token (c.hash_refresh_token raw) s)).run s;
  }

  logout_row-Stays : (now : ℕ) (o : Option RefreshToken) → Stays (logout_row now o)
  logout_row-Stays now none = pure-Stays tt
  logout_row-Stays now (some row) =
      if-Stays (is_none row.revoked_at) (revoke_where-Stays _ now) (pure-Stays tt)

  logout-Stays : (c : Security) (now raw : ℕ) → Stays (logout c now raw)
  unfolding logout
  logout-Stays c now raw = record {
    run = λ s. (logout_row-Stays now (find_token (c.hash_refresh_token raw) s)).run s;
  }

  serve-IsSpent : (c : Security) (r : Request) (s : Accounts) → IsSpent s → IsSpent (serve c r s)
  unfolding serve
  serve-IsSpent c (Request.sign_up org_name email password) s h =
      (register-Stays c org_name email password).run s h
  serve-IsSpent c (Request.enroll now email password code) s h =
      (enroll-Stays c now email password code).run s h
  serve-IsSpent c (Request.log_in now email password code) s h =
      (login-Stays c now email password code).run s h
  serve-IsSpent c (Request.renew now raw) s h = (refresh-Stays c now raw).run s h
  serve-IsSpent c (Request.log_out now raw) s h = (logout-Stays c now raw).run s h

  pub serve_all-IsSpent :
      (c : Security) (rs : List Request) (s : Accounts) → IsSpent s → IsSpent (serve_all c rs s)
  unfolding serve_all
  serve_all-IsSpent c [] s h = h
  serve_all-IsSpent c (r ∷ rs) s h = serve_all-IsSpent c rs (serve c r s) (serve-IsSpent c r s h)
