-- ===== src/Prelude/Keyed.antt =====
-- Tables with a primary key.
use mathlib.Core.Path.{◌≡◌, refl, subst}
use mathlib.Core.Bool.{Bool, true, false}
use mathlib.Core.Option.{none, some}
use mathlib.Core.List.{List, [], ◌∷◌, ◌++◌}
use mathlib.Core.Logic.{inl, inr, ◌≢◌}
use native.Mathlib.Omega.{arith}
use Prim.Native.Nat.{ℕ, ◌<◌}
use dsa_platform.Prelude.Tests.{◌==◌, ==_refl, if◌then◌else◌, Bool-cases}
use dsa_platform.Prelude.Table.{first, update, first-append, first-update, max_of}

module _ {A : Type 0} (key : A → ℕ) where
  abbrev pub has_key : ℕ → A → Bool
  has_key k a = key a == k

  -- No key stands in two rows.
  abbrev pub IsKeyed : List A → Type 0
  IsKeyed [] = Unit
  IsKeyed (x ∷ xs) = (first (has_key (key x)) xs ≡ none) × IsKeyed xs

  absent-ne :
      (k : ℕ) (q : A → Bool) (xs : List A) {a : A}
      → first (has_key k) xs ≡ none
      → first q xs ≡ some a
      → key a ≢ k
  unfolding first
  absent-ne k q [] gone found e = cc
  absent-ne k q (x ∷ xs) gone found e = elim (Bool-cases (q x)) [
    | inl here ↦ ground arith
    | inr there ↦ absent-ne k q xs (ground arith) (ground arith) e
  ]

  -- Whatever is found by another query is also found by its key.
  pub first-has_key :
      (q : A → Bool) (xs : List A) {a : A}
      → IsKeyed xs
      → first q xs ≡ some a
      → first (has_key (key a)) xs ≡ some a
  unfolding first
  first-has_key q [] u found = cc
  first-has_key q (x ∷ xs) {a} u found = elim (Bool-cases (q x)) [
    | inl here ↦
        let same : x ≡ a = ground arith in
        subst (λ b. first (has_key (key b)) (x ∷ xs) ≡ some b) same (rw (==_refl (key x)) refl)
    | inr there ↦
        let later : first q xs ≡ some a = ground arith in
        ground (arith, absent-ne (key x) q xs u.0 later, first-has_key q xs u.1 later)
  ]

  pub IsKeyed-update :
      (p : A → Bool) (f : A → A) (xs : List A)
      → ((a : A) → key (f a) ≡ key a)
      → IsKeyed xs
      → IsKeyed (update p f xs)
  unfolding update
  IsKeyed-update p f [] keep u = tt
  IsKeyed-update p f (x ∷ xs) keep u =
      let same : key (if p x then f x else x) ≡ key x = ground (arith, keep x) in
      (
        rw same (rw (first-update (has_key (key x)) p f xs (λ a. rw (keep a) refl), u.0) refl),
        IsKeyed-update p f xs keep u.1,
      )

  pub IsKeyed-append :
      (xs : List A) (a : A)
      → IsKeyed xs
      → first (has_key (key a)) xs ≡ none
      → IsKeyed (xs ++ a ∷ [])
  unfolding first
  IsKeyed-append [] a u new = (refl, tt)
  IsKeyed-append (x ∷ xs) a u new = (
    rw (first-append (has_key (key x)) xs (a ∷ []), u.0) (ground arith),
    IsKeyed-append xs a u.1 (ground arith),
  )

-- A key above all of them stands in no row.
pub first_above :
    {A : Type 0} (key : A → ℕ) (k : ℕ) (xs : List A)
    → max_of (λ a. true) key xs < k
    → first (has_key key k) xs ≡ none
unfolding first max_of
first_above key k [] above = refl
first_above key k (x ∷ xs) above =
    let other : has_key key k x ≡ false = ground arith in
    rw other (first_above key k xs (ground arith))
