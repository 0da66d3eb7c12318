-- ===== src/Ai/Draws.antt =====
-- What the drawn texts of a variable are, and that its check accepts them.
use mathlib.Core.Path.{subst}
use dsa_platform.Prelude.{
  ==_iff, is_empty, ℕ, zero, suc, ◌+◌, Bool, true, false, Option, none, some, List, [], ◌∷◌, ◌≡◌,
  refl, ap, ◌∙◌, ◌==◌, any, length, All, All-append, arith, not, if◌then◌else◌, inl, inr,
  Bool-cases, Result, ok, err, after,
}
use dsa_platform.Prelude.Int.{ℤ, pos, negsuc, lt_int, add_ℕ}
use dsa_platform.Prelude.Decimal.{
  IsDigits, decimal, decimal-IsDigits, decimal-ne_nil, show_int, read_int,
}
use dsa_platform.Prelude.Table.{or_else}
use dsa_platform.Ai.Drafts.{Text, VarKind, InputVar}
use dsa_platform.Ai.Texts.{
  newline, join, IsWord, IsLine, IsToken, split_lines-join, split_words-join,
}
use dsa_platform.Ai.Validate.{
  Measure, range_error, number_error, size_error, elements_error, line_error,
  check_value_against_var, check_lines, InputError, validate_lines, validate_input,
}
use dsa_platform.Ai.Inputs.{
  Random, RandomError, Draw, or_default, low, high, shortest, longest, charset_of, rounds, repeat,
}

-- The documented behaviour of `randint` and `choice`.
pub record IsRandom (rng : Random) : Type 0 where
  pub within :
      (n : ℕ) (lo hi : ℤ)
      → lt_int hi lo ≡ false
      → (lt_int (rng.between n lo hi) lo ≡ false) × (lt_int hi (rng.between n lo hi) ≡ false)
  pub member : (n c : ℕ) (cs : Text) → any (λ d. d == rng.element n (c ∷ cs)) (c ∷ cs) ≡ true

abbrev pub HasValues : InputVar → Type 0
HasValues var = lt_int (high var) (low var) ≡ false

abbrev pub HasSizes : InputVar → Type 0
HasSizes var =
    (lt_int (longest var) (shortest var) ≡ false) × (lt_int (shortest var) (pos 0) ≡ false)

-- With its defaults, the ranges of a variable are not empty, no size is negative, and no character
-- of its set ends a line.
abbrev pub IsDrawableAs : VarKind → InputVar → Type 0
IsDrawableAs VarKind.int var = HasValues var
IsDrawableAs VarKind.int_array var = HasValues var × HasSizes var
IsDrawableAs VarKind.string var = HasSizes var × IsLine var.charset

abbrev pub IsDrawable : InputVar → Type 0
IsDrawable var = IsDrawableAs var.kind var

-- A draw succeeds, and what it gives is as told.
abbrev pub Gives : {A : Type 0} → (A → Type 0) → Result RandomError A × ℕ → Type 0
Gives P (ok a, n) = P a
Gives P (err e, n) = ⊥

pub after-Gives :
    {A B : Type 0} (P : A → Type 0) (Q : B → Type 0) (r : Result RandomError A × ℕ) (k : A → Draw B)
    → Gives P r
    → ((a : A) (n : ℕ) → P a → Gives Q (k a n))
    → Gives Q (after r k)
after-Gives P Q (ok a, n) k h rest = rest a n h
after-Gives P Q (err e, n) k h rest = absurd h

pub weaker :
    {A : Type 0} (P Q : A → Type 0) (r : Result RandomError A × ℕ)
    → Gives P r
    → ((a : A) → P a → Q a)
    → Gives Q r
weaker P Q (ok a, n) h imp = imp a h
weaker P Q (err e, n) h imp = h

abbrev pub Repeated : {A : Type 0} → (A → Type 0) → ℕ → List A → Type 0
Repeated P k xs = (length xs ≡ k) × All P xs

pub repeat-Gives :
    {A : Type 0} (P : A → Type 0) (k : ℕ) (draw : Draw A) (n : ℕ)
    → ((n : ℕ) → Gives P (draw n))
    → Gives (Repeated P k) (repeat k draw n)
unfolding repeat
repeat-Gives P zero draw n h = (refl, tt)
repeat-Gives P (suc k) draw n h = after-Gives P (Repeated P (suc k)) (draw n) _ (h n) (λ a m good.
    after-Gives (Repeated P k) (Repeated P (suc k)) (repeat k draw m) _ (repeat-Gives P k draw m h)
      (λ xs _ rest. (ap suc rest.0, (good, rest.1))))

pub range_none :
    (what : Measure) (name : Text) (z : ℤ) (lo hi : Option ℤ) (d d' : ℤ)
    → lt_int z (or_default lo d) ≡ false
    → lt_int (or_default hi d') z ≡ false
    → range_error what name z lo hi ≡ none
range_none what name z none none d d' h h' = refl
range_none what name z none (some hi) d d' h h' = rw h' refl
range_none what name z (some lo) none d d' h h' = rw h refl
range_none what name z (some lo) (some hi) d d' h h' = rw (h, h') refl

pub digits-IsWord : (text : Text) → IsDigits text → IsWord text
digits-IsWord [] h = tt
digits-IsWord (c ∷ text) h = (ground (arith, h.0), digits-IsWord text h.1)

pub show_int-IsToken : (z : ℤ) → IsToken (show_int z)
show_int-IsToken (pos n) = (digits-IsWord (decimal n) (decimal-IsDigits n), decimal-ne_nil n)
show_int-IsToken (negsuc n) =
    ((refl, digits-IsWord (decimal (n + 1)) (decimal-IsDigits (n + 1))), refl)

pub word-IsLine : (text : Text) → IsWord text → IsLine text
word-IsLine [] h = tt
word-IsLine (c ∷ text) h = (ground (arith, h.0), word-IsLine text h.1)

-- a text of a number that is within the variable's bounds
abbrev pub Shown : Measure → InputVar → Text → Type 0
Shown what var text = IsToken text × (number_error what var text (read_int text) ≡ none)

abbrev pub Inside : ℤ → ℤ → ℤ → Type 0
Inside lo hi z = (lt_int z lo ≡ false) × (lt_int hi z ≡ false)

-- a line that the check of its variable accepts
abbrev pub Accepted : InputVar → Text → Type 0
Accepted var line = IsLine line × (check_value_against_var line var ≡ none)

abbrev pub AcceptedAs : VarKind → InputVar → Text → Type 0
AcceptedAs kind var line = IsLine line × (line_error kind var line ≡ none)

pub pos-rounds : (lo z : ℤ) → lt_int lo (pos 0) ≡ false → lt_int z lo ≡ false → pos (rounds z) ≡ z
pos-rounds lo (pos z) h h' = refl
pos-rounds (pos lo) (negsuc z) h h' = absurd (ground arith)
pos-rounds (negsuc lo) (negsuc z) h h' = absurd (ground arith)

-- As many rounds as a drawn size are a size within the bounds.
pub size_none :
    (var : InputVar) (z : ℤ) (k : ℕ)
    → HasSizes var
    → Inside (shortest var) (longest var) z
    → k ≡ rounds z
    → size_error var k ≡ none
size_none var z k h inside same =
    ap (λ k. size_error var k) same
    ∙ ap (λ y. range_error Measure.size var.name y var.length_min var.length_max)
        (pos-rounds (shortest var) z h.1 inside.0)
    ∙ range_none Measure.size var.name z var.length_min var.length_max (pos 1)
        (add_ℕ (shortest var) 10) inside.0 inside.1

pub elements_none :
    (var : InputVar) (texts : List Text)
    → All (Shown Measure.element var) texts
    → elements_error var texts ≡ none
unfolding elements_error
elements_none var [] h = refl
elements_none var (text ∷ texts) h = rw (h.0.1, elements_none var texts h.1) refl

pub Shown-IsToken :
    (what : Measure) (var : InputVar) (texts : List Text)
    → All (Shown what var) texts
    → All IsToken texts
Shown-IsToken what var [] h = tt
Shown-IsToken what var (text ∷ texts) h = (h.0.0, Shown-IsToken what var texts h.1)

pub join-IsLine : (texts : List Text) → All IsToken texts → IsLine (join b' ' texts)
join-IsLine [] h = tt
join-IsLine (text ∷ []) h = word-IsLine text h.0.0
join-IsLine (text ∷ next ∷ texts) h =
    All-append _ text (b' ' ∷ join b' ' (next ∷ texts)) (word-IsLine text h.0.0)
      (refl, join-IsLine (next ∷ texts) h.1)

pub member-All : (P : ℕ → Type 0) (d : ℕ) (cs : Text) → All P cs → any (λ c. c == d) cs ≡ true → P d
member-All P d [] h found = absurd (ground arith)
member-All P d (c ∷ cs) h found = elim (Bool-cases (c == d)) [
  | inl same ↦ subst P ((==_iff c d).0 same) h.0
  | inr other ↦ member-All P d cs h.1 (ground (arith, found, other))
]

pub accepted_array :
    (var : InputVar) (z : ℤ) (texts : List Text)
    → HasSizes var
    → Inside (shortest var) (longest var) z
    → Repeated (Shown Measure.element var) (rounds z) texts
    → AcceptedAs VarKind.int_array var (join b' ' texts)
accepted_array var z texts h inside drawn =
    let tokens = Shown-IsToken Measure.element var texts drawn.1 in
    (
      join-IsLine texts tokens,
      ap (λ words. or_else (size_error var (length words)) (elements_error var words))
            (split_words-join texts tokens)
          ∙ ap (λ e. or_else e (elements_error var texts))
              (size_none var z (length texts) h inside drawn.0)
          ∙ elements_none var texts drawn.1,
    )

pub charset-IsLine : (var : InputVar) → IsLine var.charset → IsLine (charset_of var)
charset-IsLine var h = elim (Bool-cases (is_empty var.charset)) [
  | inl empty ↦ rw empty (ground arith)
  | inr filled ↦ rw filled h
]

-- the lines of an input, one for each variable
abbrev pub Matched : List InputVar → List Text → Type 0
Matched [] [] = Unit
Matched (var ∷ spec) (line ∷ lines) = Accepted var line × Matched spec lines
Matched _ _ = ⊥

pub Matched-IsLine :
    (spec : List InputVar) (lines : List Text) → Matched spec lines → All IsLine lines
Matched-IsLine [] [] h = tt
Matched-IsLine [] (line ∷ lines) h = elim h [ ]
Matched-IsLine (var ∷ spec) [] h = elim h [ ]
Matched-IsLine (var ∷ spec) (line ∷ lines) h = (h.0.0, Matched-IsLine spec lines h.1)

pub length-Matched :
    (spec : List InputVar) (lines : List Text) → Matched spec lines → length lines ≡ length spec
length-Matched [] [] h = refl
length-Matched [] (line ∷ lines) h = elim h [ ]
length-Matched (var ∷ spec) [] h = elim h [ ]
length-Matched (var ∷ spec) (line ∷ lines) h = ap suc (length-Matched spec lines h.1)

pub check_lines-Matched :
    (spec : List InputVar) (lines : List Text) → Matched spec lines → check_lines lines spec ≡ []
unfolding check_lines
check_lines-Matched [] [] h = refl
check_lines-Matched [] (line ∷ lines) h = elim h [ ]
check_lines-Matched (var ∷ spec) [] h = elim h [ ]
check_lines-Matched (var ∷ spec) (line ∷ lines) h =
    rw (h.0.1, check_lines-Matched spec lines h.1) refl

abbrev pub IsValid : List InputVar → Text → Type 0
IsValid spec text = validate_input text spec ≡ []

pub joined-IsValid :
    (var : InputVar) (spec : List InputVar) (lines : List Text)
    → Matched (var ∷ spec) lines
    → IsValid (var ∷ spec) (join newline lines)
unfolding validate_input
joined-IsValid var spec [] h = elim h [ ]
joined-IsValid var spec (line ∷ lines) h =
    let as_many : (length (line ∷ lines) == length (var ∷ spec)) ≡ true =
      (==_iff _ _).1 (length-Matched (var ∷ spec) (line ∷ lines) h) in
    ap (λ ls. validate_lines ls (var ∷ spec))
      (split_lines-join line lines (Matched-IsLine (var ∷ spec) (line ∷ lines) h))
    ∙ counted (length (line ∷ lines) == length (var ∷ spec)) as_many
  where
    counted :
        (same : Bool)
        → same ≡ true
        → (if not same
            then InputError.line_count (length (var ∷ spec)) (length (line ∷ lines)) ∷ []
            else check_lines (line ∷ lines) (var ∷ spec))
          ≡ []
    counted true h' = check_lines-Matched (var ∷ spec) (line ∷ lines) h
    counted false h' = absurd (ground arith)

-- The asked number of inputs, each of which passes.
abbrev pub Valid : List InputVar → ℕ → List Text → Type 0
Valid spec count texts = (length texts ≡ count) × All (IsValid spec) texts
