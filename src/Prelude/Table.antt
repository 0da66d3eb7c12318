-- ===== src/Prelude/Table.antt =====
-- A database table as the list of its rows, with the queries that the repositories make.
use mathlib.Core.Path.{◌≡◌, refl, ap}
use mathlib.Core.Bool.{Bool, true}
use mathlib.Core.Option
use mathlib.Core.Option.{Option, none, some}
use mathlib.Core.List.{List, [], ◌∷◌, ◌++◌}
use mathlib.Core.Logic.{inl, inr}
use native.Mathlib.Omega.{arith}
use Prim.Native.Nat.{ℕ, suc, max}
use dsa_platform.Prelude.Tests.{leb, if◌then◌else◌, Bool-cases}
use dsa_platform.Prelude.Lists.{length}

module _ {ℓ} {A : Type ℓ} where
  -- `select … where p` and `scalar_one_or_none`, for a `p` that a key of the table makes unique
  unfoldable pub first : (A → Bool) → List A → Option A
  first p [] = none
  first p (x ∷ xs) = if p x then some x else first p xs

  -- `select … where p` and `all`
  unfoldable pub select : (A → Bool) → List A → List A
  select p [] = []
  select p (x ∷ xs) = let rest = select p xs in if p x then x ∷ rest else rest

  -- an assignment to the loaded row, or `update … where p`
  unfoldable pub update : (A → Bool) → (A → A) → List A → List A
  update p f [] = []
  update p f (x ∷ xs) = (if p x then f x else x) ∷ update p f xs

  -- `delete … where p`
  unfoldable pub remove : (A → Bool) → List A → List A
  remove p [] = []
  remove p (x ∷ xs) = let rest = remove p xs in if p x then rest else x ∷ rest

  -- `coalesce(max(f), 0)` over the rows where `p`
  unfoldable pub max_of : (A → Bool) → (A → ℕ) → List A → ℕ
  max_of p f [] = 0
  max_of p f (x ∷ xs) = max (if p x then f x else 0) (max_of p f xs)

  abbrev pub or_else : Option A → Option A → Option A
  or_else none b = b
  or_else (some a) b = some a

  -- A row that an update of other fields touches is found as updated.
  pub first-update :
      (q p : A → Bool) (f : A → A) (xs : List A)
      → ((a : A) → q (f a) ≡ q a)
      → first q (update p f xs) ≡ Option.map (λ a. if p a then f a else a) (first q xs)
  unfolding first update
  first-update q p f [] keep = refl
  first-update q p f (x ∷ xs) keep = ground (arith, first-update q p f xs keep, keep x)

  pub first-append :
      (q : A → Bool) (xs ys : List A) → first q (xs ++ ys) ≡ or_else (first q xs) (first q ys)
  unfolding first
  first-append q [] ys = refl
  first-append q (x ∷ xs) ys = ground (arith, first-append q xs ys)

  -- What is found has the property asked for.
  pub first_sound : (q : A → Bool) (xs : List A) {a : A} → first q xs ≡ some a → q a ≡ true
  unfolding first
  first_sound q [] h = cc
  first_sound q (x ∷ xs) h = elim (Bool-cases (q x)) [
    | inl t ↦ ground arith
    | inr f ↦ first_sound q xs (ground arith)
  ]

  pub select-append :
      (q : A → Bool) (xs ys : List A) → select q (xs ++ ys) ≡ select q xs ++ select q ys
  unfolding select
  select-append q [] ys = refl
  select-append q (x ∷ xs) ys = ground (arith, select-append q xs ys)

  pub length-update : (p : A → Bool) (f : A → A) (xs : List A) → length (update p f xs) ≡ length xs
  unfolding update
  length-update p f [] = refl
  length-update p f (x ∷ xs) = ap suc (length-update p f xs)

  insert_by : (A → ℕ) → A → List A → List A
  insert_by key a [] = a ∷ []
  insert_by key a (x ∷ xs) = if leb (key a) (key x) then a ∷ x ∷ xs else x ∷ insert_by key a xs

  -- `order_by(key)`, `sorted(xs, key=key)`
  unfoldable pub sort_by : (A → ℕ) → List A → List A
  unfolding insert_by
  sort_by key [] = []
  sort_by key (x ∷ xs) = insert_by key x (sort_by key xs)

  length-insert_by :
      (key : A → ℕ) (a : A) (xs : List A) → length (insert_by key a xs) ≡ suc (length xs)
  unfolding insert_by
  length-insert_by key a [] = refl
  length-insert_by key a (x ∷ xs) = ground (arith, length-insert_by key a xs)

  pub length-sort_by : (key : A → ℕ) (xs : List A) → length (sort_by key xs) ≡ length xs
  unfolding sort_by
  length-sort_by key [] = refl
  length-sort_by key (x ∷ xs) = rw (length-insert_by key x (sort_by key xs), length-sort_by key xs)
