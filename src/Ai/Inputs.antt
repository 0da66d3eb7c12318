-- ===== src/Ai/Inputs.antt =====
-- services/ai/app/generation/input_generator.py. `random.Random` is a parameter: what it draws may
-- depend on how often it was asked.
use dsa_platform.Prelude.{
  is_empty, ℕ, zero, suc, Option, none, some, List, [], ◌∷◌, codes, if◌then◌else◌, Exec, ok, err,
  pure, ◌>>=◌,
}
use dsa_platform.Prelude.Int.{ℤ, pos, negsuc, lt_int, add_ℕ}
use dsa_platform.Prelude.Decimal.{show_int}
use dsa_platform.Ai.Drafts.{Text, VarKind, InputVar}
use dsa_platform.Ai.Texts.{join, newline}

-- A number between the bounds, and an element of a list that is not empty.
pub record Random : Type 0 where
  pub between : ℕ → ℤ → ℤ → ℤ
  pub element : ℕ → Text → ℕ

-- `randint` of an empty range raises.
pub data RandomError : Type 0 where
  empty_range : RandomError

abbrev pub Draw : Type 0 → Type 0
Draw A = Exec RandomError ℕ A

abbrev pub or_default : Option ℤ → ℤ → ℤ
or_default none default = default
or_default (some z) default = z

abbrev pub low : InputVar → ℤ
low var = or_default var.min_value (pos 0)

abbrev pub high : InputVar → ℤ
high var = or_default var.max_value (add_ℕ (low var) 1000)

abbrev pub shortest : InputVar → ℤ
shortest var = or_default var.length_min (pos 1)

abbrev pub longest : InputVar → ℤ
longest var = or_default var.length_max (add_ℕ (shortest var) 10)

abbrev pub default_charset : Text
default_charset = codes "abcdefghijklmnopqrstuvwxyz"

-- `var.charset or "abcdefghijklmnopqrstuvwxyz"`
abbrev pub charset_of : InputVar → Text
charset_of var = if is_empty var.charset then default_charset else var.charset

-- how often `range(z)` loops
abbrev pub rounds : ℤ → ℕ
rounds (pos n) = n
rounds (negsuc n) = 0

-- `[draw() for _ in range(n)]`
unfoldable pub repeat : {A : Type 0} → ℕ → Draw A → Draw (List A)
repeat zero draw = pure []
repeat (suc n) draw = draw >>= λ a. repeat n draw >>= λ rest. pure (a ∷ rest)

module _ (rng : Random) where
  abbrev pub randint : ℤ → ℤ → Draw ℤ
  randint lo hi n =
      if lt_int hi lo then (err RandomError.empty_range, n) else (ok (rng.between n lo hi), suc n)

  abbrev pub choice : Text → Draw ℕ
  choice charset n = (ok (rng.element n charset), suc n)

  abbrev pub show_one : InputVar → Draw Text
  show_one var = randint (low var) (high var) >>= λ z. pure (show_int z)

  abbrev pub render : VarKind → InputVar → Draw Text
  render VarKind.int var = show_one var
  render VarKind.int_array var = randint (shortest var) (longest var) >>= λ size.
      repeat (rounds size) (show_one var) >>= λ texts. pure (join b' ' texts)
  render VarKind.string var = randint (shortest var) (longest var) >>= λ size.
      repeat (rounds size) (choice (charset_of var))

  -- `_render_var`
  abbrev pub render_var : InputVar → Draw Text
  render_var var = render var.kind var

  unfoldable pub render_lines : List InputVar → Draw (List Text)
  render_lines [] = pure []
  render_lines (var ∷ spec) =
      render_var var >>= λ line. render_lines spec >>= λ lines. pure (line ∷ lines)

  abbrev pub generate_input : List InputVar → Draw Text
  generate_input spec = render_lines spec >>= λ lines. pure (join newline lines)

  unfoldable pub generate_inputs : List InputVar → ℕ → Draw (List Text)
  generate_inputs spec count = repeat count (generate_input spec)
