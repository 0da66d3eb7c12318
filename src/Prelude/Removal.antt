-- ===== src/Prelude/Removal.antt =====
-- Rows that are deleted from a table.
use mathlib.Core.Path.{subst, ◌≡◌, refl, ap, ◌∙◌}
use mathlib.Core.Bool.{Bool, true, false}
use mathlib.Core.Option.{none, some}
use mathlib.Core.List.{List, [], ◌∷◌, ◌++◌}
use mathlib.Core.Logic.{inl, inr}
use native.Mathlib.Omega.{arith}
use Prim.Native.Nat.{ℕ}
use dsa_platform.Prelude.Tests.{◌==◌, ==_iff, Bool-cases}
use dsa_platform.Prelude.Lists.{All}
use dsa_platform.Prelude.Table.{first, select, update, remove}
use dsa_platform.Prelude.Keyed.{has_key, IsKeyed}

module _ {A : Type 0} where
  pub remove-absent : (p : A → Bool) (xs : List A) → first p xs ≡ none → remove p xs ≡ xs
  unfolding first remove
  remove-absent p [] h = refl
  remove-absent p (x ∷ xs) h = elim (Bool-cases (p x)) [
    | inl yes_it ↦ ground arith
    | inr no_it ↦ rw no_it (ap (λ ys. x ∷ ys) (remove-absent p xs (ground arith)))
  ]

  pub first-remove_absent :
      (q p : A → Bool) (xs : List A) → first q xs ≡ none → first q (remove p xs) ≡ none
  unfolding first remove
  first-remove_absent q p [] h = refl
  first-remove_absent q p (x ∷ xs) h = elim (Bool-cases (q x)) [
    | inl yes_it ↦ ground arith
    | inr no_it ↦ ground (arith, first-remove_absent q p xs (ground arith))
  ]

  pub IsKeyed-remove :
      (key : A → ℕ) (p : A → Bool) (xs : List A) → IsKeyed key xs → IsKeyed key (remove p xs)
  unfolding remove
  IsKeyed-remove key p [] h = tt
  IsKeyed-remove key p (x ∷ xs) h = elim (Bool-cases (p x)) [
    | inl yes_it ↦ rw yes_it (IsKeyed-remove key p xs h.1)
    | inr no_it ↦
        rw no_it (first-remove_absent (has_key key (key x)) p xs h.0, IsKeyed-remove key p xs h.1)
  ]

  -- The deletion of one row by its key is not seen by a query for other rows.
  pub select-remove :
      (key : A → ℕ) (r : A → Bool) (k : ℕ) (xs : List A) (t : A)
      → IsKeyed key xs
      → first (has_key key k) xs ≡ some t
      → r t ≡ false
      → select r (remove (has_key key k) xs) ≡ select r xs
  unfolding first select remove
  select-remove key r k [] t h found other = refl
  select-remove key r k (x ∷ xs) t h found other = elim (Bool-cases (key x == k)) [
    | inl mine ↦
        let same : x ≡ t = ground arith in
        let unseen : r x ≡ false = ap r same ∙ other in
        let alone : first (has_key key k) xs ≡ none =
          subst (λ n. first (has_key key n) xs ≡ none) ((==_iff (key x) k).0 mine) h.0 in
        rw mine (rw unseen (ap (select r) (remove-absent (has_key key k) xs alone)))
    | inr not_mine ↦
        rw not_mine (ground (arith, select-remove key r k xs t h.1 (ground arith) other))
  ]

  -- What every row has, the row that is found has.
  pub first-All :
      (P : A → Type 0) (p : A → Bool) (xs : List A) {a : A} → All P xs → first p xs ≡ some a → P a
  unfolding first
  first-All P p [] h found = ground arith
  first-All P p (x ∷ xs) {a} h found = elim (Bool-cases (p x)) [
    | inl yes_it ↦ let same : x ≡ a = ground arith in subst P same h.0
    | inr no_it ↦ first-All P p xs h.1 (ground arith)
  ]

  -- A new row that the query does not ask for.
  pub select-append_other :
      (p : A → Bool) (xs : List A) (x : A) → p x ≡ false → select p (xs ++ (x ∷ [])) ≡ select p xs
  unfolding select
  select-append_other p [] x other = rw other refl
  select-append_other p (y ∷ xs) x other = ground (arith, select-append_other p xs x other)

  pub All-update :
      (P : A → Type 0) (p : A → Bool) (f : A → A) (xs : List A)
      → ((a : A) → P a → P (f a))
      → All P xs
      → All P (update p f xs)
  unfolding update
  All-update P p f [] keep h = tt
  All-update P p f (x ∷ xs) keep h = elim (Bool-cases (p x)) [
    | inl yes_it ↦ rw yes_it (keep x h.0, All-update P p f xs keep h.1)
    | inr no_it ↦ rw no_it (h.0, All-update P p f xs keep h.1)
  ]

  -- An update whose effect depends on the row.
  pub All-update_where :
      (P Q : A → Type 0) (p : A → Bool) (f : A → A) (xs : List A)
      → ((a : A) → P a → p a ≡ true → Q (f a))
      → ((a : A) → P a → p a ≡ false → Q a)
      → All P xs
      → All Q (update p f xs)
  unfolding update
  All-update_where P Q p f [] changed kept h = tt
  All-update_where P Q p f (x ∷ xs) changed kept h = elim (Bool-cases (p x)) [
    | inl yes_it ↦ rw yes_it (changed x h.0 yes_it, All-update_where P Q p f xs changed kept h.1)
    | inr no_it ↦ rw no_it (kept x h.0 no_it, All-update_where P Q p f xs changed kept h.1)
  ]
