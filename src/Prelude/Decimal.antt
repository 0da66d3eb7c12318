-- ===== src/Prelude/Decimal.antt =====
-- `str(n)` of an integer, and `int(text)`, on the code points of texts.
use Prim.Native.Nat.{ℕ, zero, suc, ◌+◌, ◌-◌, ◌*◌, ◌/◌, ◌%◌, ◌≤◌}
use mathlib.Core.Path.{◌≡◌, refl, ap, sym, ◌∙◌}
use mathlib.Core.Bool.{Bool, true, false, ◌&&◌}
use mathlib.Core.Option
use mathlib.Core.Option.{Option, none, some}
use mathlib.Core.List.{List, [], ◌∷◌, ◌++◌, append-nil, append_assoc}
use native.Mathlib.Omega.{arith}
use mathlib.Core.Logic.{inl, inr}
use dsa_platform.Prelude.Lists.{is_empty, All, All-append}
use dsa_platform.Prelude.Tests.{Bool-cases, ltb, leb, ◌==◌, if◌then◌else◌}
use dsa_platform.Prelude.Int.{ℤ, pos, negsuc}

abbrev pub digit : ℕ → ℕ
digit n = b'0' + n % 10

-- `str(n)`: at most `n` further digits stand before the last one.
abbrev pub digits : ℕ → ℕ → List ℕ
digits zero n = digit n ∷ []
digits (suc fuel) n =
    let rest = digits fuel (n / 10) in if ltb n 10 then digit n ∷ [] else rest ++ (digit n ∷ [])

unfoldable pub decimal : ℕ → List ℕ
decimal n = digits n n

abbrev pub show_int : ℤ → List ℕ
show_int (pos n) = decimal n
show_int (negsuc n) = b'-' ∷ decimal (n + 1)

abbrev pub is_digit : ℕ → Bool
is_digit c = leb b'0' c && leb c b'9'

-- The digits of `int(text)`, which a single underscore may separate. The test tells whether the
-- character before was a digit.
unfoldable pub scan : List ℕ → Bool → ℕ → Option ℕ
scan [] after_digit n = if after_digit then some n else none
scan (c ∷ text) after_digit n =
    let digit_read = scan text true (n * 10 + (c - b'0')) in
    let underscore_read = scan text false n in
    if is_digit c then digit_read else if c == b'_' && after_digit then underscore_read else none

abbrev pub negate : ℕ → ℤ
negate zero = pos zero
negate (suc n) = negsuc n

-- `int(text)`, of a text of ASCII characters without white space around it
unfoldable pub read_int : List ℕ → Option ℤ
read_int [] = none
read_int (c ∷ text) =
    if c == b'-'
    then Option.map negate (scan text false 0)
    else if c == b'+'
    then Option.map pos (scan text false 0)
    else Option.map pos (scan (c ∷ text) false 0)

abbrev pub IsDigits : List ℕ → Type 0
IsDigits text = All (λ c. is_digit c ≡ true) text

digit-IsDigit : (n : ℕ) → is_digit (digit n) ≡ true
digit-IsDigit n = ground arith

digits-IsDigits : (fuel n : ℕ) → IsDigits (digits fuel n)
digits-IsDigits zero n = (digit-IsDigit n, tt)
digits-IsDigits (suc fuel) n = elim (Bool-cases (ltb n 10)) [
  | inl last ↦ rw last (digit-IsDigit n, tt)
  | inr more ↦ rw more (
      All-append _ (digits fuel (n / 10)) (digit n ∷ []) (digits-IsDigits fuel (n / 10))
        (digit-IsDigit n, tt))
]

-- One more digit is read.
scan-digit :
    (n m : ℕ) (rest : List ℕ) (after_digit : Bool)
    → scan (digit n ∷ rest) after_digit m ≡ scan rest true (m * 10 + n % 10)
unfolding scan
scan-digit n m rest after_digit =
    let back : digit n - b'0' ≡ n % 10 = omega arith in rw (digit-IsDigit n, back) refl

scan-digits :
    (fuel n : ℕ) (rest : List ℕ)
    → n ≤ fuel
    → scan (digits fuel n ++ rest) false 0 ≡ scan rest true n
scan-digits zero n rest h =
    let last : 0 * 10 + n % 10 ≡ n = omega arith in
    scan-digit n 0 rest false ∙ ap (scan rest true) last
scan-digits (suc fuel) n rest h = elim (Bool-cases (ltb n 10)) [
  | inl last ↦
      let same : 0 * 10 + n % 10 ≡ n = ground arith in
      rw last (scan-digit n 0 rest false ∙ ap (scan rest true) same)
  | inr more ↦
      let back : n / 10 * 10 + n % 10 ≡ n = omega arith in
      rw more (
        ap (λ t. scan t false 0) (append_assoc (digits fuel (n / 10)) (digit n ∷ []) rest)
        ∙ scan-digits fuel (n / 10) (digit n ∷ rest) (ground arith)
        ∙ scan-digit n (n / 10) rest true
        ∙ ap (scan rest true) back)
]

pub decimal-IsDigits : (n : ℕ) → IsDigits (decimal n)
unfolding decimal
decimal-IsDigits n = digits-IsDigits n n

append-ne_nil : (text : List ℕ) (c : ℕ) → is_empty (text ++ (c ∷ [])) ≡ false
append-ne_nil [] c = refl
append-ne_nil (d ∷ text) c = refl

digits-ne_nil : (fuel n : ℕ) → is_empty (digits fuel n) ≡ false
digits-ne_nil zero n = refl
digits-ne_nil (suc fuel) n = elim (Bool-cases (ltb n 10)) [
  | inl last ↦ rw last refl
  | inr more ↦ rw more (append-ne_nil (digits fuel (n / 10)) (digit n))
]

pub decimal-ne_nil : (n : ℕ) → is_empty (decimal n) ≡ false
unfolding decimal
decimal-ne_nil n = digits-ne_nil n n

scan-decimal : (n : ℕ) → scan (decimal n) false 0 ≡ some n
unfolding decimal scan
scan-decimal n =
    ap (λ t. scan t false 0) (sym (append-nil (digits n n))) ∙ scan-digits n n [] (omega arith)

-- A text that starts with a digit has no sign.
read_unsigned :
    (text : List ℕ) (n : ℕ)
    → IsDigits text
    → scan text false 0 ≡ some n
    → read_int text ≡ some (pos n)
unfolding read_int scan
read_unsigned [] n digits_only scanned = absurd (ground arith)
read_unsigned (c ∷ text) n digits_only scanned =
    let no_minus : (c == b'-') ≡ false = ground (arith, digits_only.0) in
    let no_plus : (c == b'+') ≡ false = ground (arith, digits_only.0) in
    rw (no_minus, no_plus) (ap (Option.map pos) scanned)

-- An integer that was printed is read back.
pub read_int-show_int : (z : ℤ) → read_int (show_int z) ≡ some z
unfolding read_int
read_int-show_int (pos n) = read_unsigned (decimal n) n (decimal-IsDigits n) (scan-decimal n)
read_int-show_int (negsuc n) =
    let next : n + 1 ≡ suc n = omega arith in
    rw (scan-decimal (n + 1)) (ap (λ k. some (negate k)) next)
