-- ===== src/Exam/Login/Rotation.antt =====
-- The rotation of refresh tokens: one that was exchanged is good for nothing any more.
use mathlib.Core.Path.{subst}
use mathlib.Core.Option
use dsa_platform.Prelude.{
  ℕ, Bool, true, false, Option, none, some, List, [], ◌∷◌, ◌≡◌, refl, sym, ap, ◌∙◌, ◌==◌, ◌&&◌,
  ◌||◌, not, leb, is_some, is_none, All, and_both, arith, inl, inr, Bool-cases, ==_refl,
  if◌then◌else◌, Result, ok, err, raise_if, ◌>>◌,
}
use dsa_platform.Prelude.Table.{update, first-update}
use dsa_platform.Exam.Login.{
  Examiner, RefreshToken, Accounts, LoginError, Security, TokenResponse, Handler, find_examiner,
  find_token, revoked, revoke, new_token, rotate, refresh_row, refresh, Request, serve_all,
}
use dsa_platform.Exam.Login.Reuse.{spent, IsSpent, add_token-IsSpent, serve_all-IsSpent}

-- The token does not belong to the examiner, or was revoked.
abbrev pub is_dead : ℕ → RefreshToken → Bool
is_dead examiner_id t = not (t.examiner_id == examiner_id) || is_some t.revoked_at

-- The exchange is refused, and no token of the examiner is left.
abbrev pub Rejected : ℕ → Result LoginError TokenResponse × Accounts → Type 0
Rejected examiner_id r =
    (r.0 ≡ err LoginError.token_invalid)
    × All (λ t. is_dead examiner_id t ≡ true) (r.1).refresh_tokens

All-dead :
    (now examiner_id : ℕ) (xs : List RefreshToken)
    → All
        (λ t. is_dead examiner_id t ≡ true)
        (update
          (λ (t : RefreshToken). t.examiner_id == examiner_id && is_none t.revoked_at)
          (revoked now)
          xs)
unfolding update
All-dead now examiner_id [] = tt
All-dead now examiner_id (t ∷ ts) = (one t t.revoked_at refl, All-dead now examiner_id ts)
  where
    one :
        (t : RefreshToken) (r : Option ℕ)
        → t.revoked_at ≡ r
        → is_dead examiner_id
            (if t.examiner_id == examiner_id && is_none t.revoked_at then revoked now t else t)
          ≡ true
    one t none h = ground (arith, h)
    one t (some n) h = ground (arith, h)

row-Rejected :
    (c : Security) (now examiner_id : ℕ) (o : Option RefreshToken) (s : Accounts)
    → spent examiner_id o ≡ true
    → Rejected examiner_id (refresh_row c now o s)
row-Rejected c now examiner_id none s h = absurd (ground arith)
row-Rejected c now examiner_id (some row) s h =
    let both = and_both (is_some row.revoked_at) (row.examiner_id == examiner_id) h in
    let same : row.examiner_id ≡ examiner_id = ground (arith, both.1) in
    subst (λ e. Rejected e (refresh_row c now (some row) s)) same
      (rw (both.0) (refl, All-dead now row.examiner_id s.refresh_tokens))

module _ (hash examiner_id : ℕ) where
  -- A step that succeeds has spent the token.
  abbrev Rotated : Result LoginError TokenResponse × Accounts → Type 0
  Rotated (ok tokens, s) = IsSpent hash examiner_id s
  Rotated (err e, s) = Unit

  guarded-Rotated :
      (test : Bool) (e : LoginError) (m : Handler TokenResponse) (s : Accounts)
      → Rotated (m s)
      → Rotated ((raise_if test e >> m) s)
  guarded-Rotated true e m s h = tt
  guarded-Rotated false e m s h = h

  module _ (c : Security) (now : ℕ) (row : RefreshToken) (owner : row.examiner_id ≡ examiner_id)
      (s : Accounts) (found : find_token hash s ≡ some row) where
    revoke-IsSpent : IsSpent hash examiner_id (revoke now row s)
    revoke-IsSpent =
        ap (spent examiner_id) (
          first-update (λ (t : RefreshToken). t.token_hash == hash)
            (λ (t : RefreshToken). t.token_hash == row.token_hash) (revoked now) s.refresh_tokens
            (λ a. refl)
          ∙ ap (Option.map _) found)
        ∙ hit (row.token_hash == row.token_hash) (==_refl row.token_hash)
      where
        hit :
            (test : Bool)
            → test ≡ true
            → spent examiner_id (some (if test then revoked now row else row)) ≡ true
        hit true h = ground (arith, owner)
        hit false h = absurd (ground arith)

    rotate-Rotated : (o : Option Examiner) → Rotated (rotate c now row o s)
    rotate-Rotated none = tt
    rotate-Rotated (some e) = elim (Bool-cases e.is_active) [
      | inl active ↦ rw active (
          add_token-IsSpent hash examiner_id (new_token c now e (revoke now row s))
            (revoke now row s) revoke-IsSpent)
      | inr inactive ↦ rw inactive tt
    ]

    row-Rotated : Rotated (refresh_row c now (some row) s)
    row-Rotated = elim (Bool-cases (is_some row.revoked_at)) [
      | inl used ↦ rw used tt
      | inr live ↦ rw live (
          guarded-Rotated (leb row.expires_at now) LoginError.token_invalid
            (rotate c now row (find_examiner row.org_id row.examiner_id s)) s
            (rotate-Rotated (find_examiner row.org_id row.examiner_id s)))
    ]

-- Take a refresh token that was exchanged with success. After whatever requests follow, a second
-- exchange of it is refused, and leaves its examiner without any token that is not revoked: those
-- that came of the first exchange are revoked too.
pub refresh_once :
    (c : Security) (now later raw : ℕ) (row : RefreshToken) (s s' : Accounts)
    (tokens : TokenResponse) (rs : List Request)
    → find_token (c.hash_refresh_token raw) s ≡ some row
    → refresh c now raw s ≡ (ok tokens, s')
    → Rejected row.examiner_id (refresh c later raw (serve_all c rs s'))
unfolding refresh
refresh_once c now later raw row s s' tokens rs found exchanged =
    let hash = c.hash_refresh_token raw in
    let first_time : Rotated hash row.examiner_id (refresh_row c now (find_token hash s) s) =
      subst (λ o. Rotated hash row.examiner_id (refresh_row c now o s)) (sym found)
        (row-Rotated hash row.examiner_id c now row refl s found) in
    let gone : IsSpent hash row.examiner_id s' =
      subst (Rotated hash row.examiner_id) exchanged first_time in
    row-Rejected c later row.examiner_id (find_token hash (serve_all c rs s')) (serve_all c rs s')
      (serve_all-IsSpent hash row.examiner_id c rs s' gone)
