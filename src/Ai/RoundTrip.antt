-- ===== src/Ai/RoundTrip.antt =====
-- Inputs that are drawn within the bounds of a draft pass the check of the same bounds.
use dsa_platform.Prelude.{
  is_empty, ℕ, false, List, [], ◌∷◌, ◌≡◌, refl, ap, ◌∙◌, ◌==◌, length, All, arith, inl, inr,
  Bool-cases,
}
use dsa_platform.Prelude.Int.{ℤ, pos, lt_int, add_ℕ}
use dsa_platform.Prelude.Decimal.{show_int, read_int, read_int-show_int}
use dsa_platform.Ai.Drafts.{Text, VarKind, InputVar}
use dsa_platform.Ai.Texts.{newline, IsLine, strip-IsWord}
use dsa_platform.Ai.Validate.{Measure, number_error}
use dsa_platform.Ai.Inputs.{
  Random, randint, choice, low, high, shortest, longest, charset_of, rounds, repeat, show_one,
  render, render_var, render_lines, generate_input, generate_inputs,
}
use dsa_platform.Ai.Draws.{
  after-Gives, weaker, Repeated, repeat-Gives, range_none, show_int-IsToken, word-IsLine, Shown,
  Inside, Accepted, AcceptedAs, size_none, member-All, accepted_array, charset-IsLine, Matched,
  joined-IsValid, IsRandom, HasValues, IsDrawableAs, IsDrawable, Gives, IsValid, Valid,
}

module _ (rng : Random) (random : IsRandom rng) where
  randint-Gives :
      (lo hi : ℤ) (n : ℕ) → lt_int hi lo ≡ false → Gives (Inside lo hi) (randint rng lo hi n)
  randint-Gives lo hi n h = rw h (random.within n lo hi h)

  show_one-Gives :
      (what : Measure) (var : InputVar) (n : ℕ)
      → HasValues var
      → Gives (Shown what var) (show_one rng var n)
  show_one-Gives what var n h =
      after-Gives (Inside (low var) (high var)) (Shown what var)
        (randint rng (low var) (high var) n) _ (randint-Gives (low var) (high var) n h)
        (λ z _ inside. (
          show_int-IsToken z,
          ap (number_error what var (show_int z)) (read_int-show_int z)
              ∙ range_none what var.name z var.min_value var.max_value (pos 0)
                  (add_ℕ (low var) 1000) inside.0 inside.1,
        ))

  choice-Gives :
      (charset : Text) (n : ℕ)
      → is_empty charset ≡ false
      → IsLine charset
      → Gives (λ c. (c == newline) ≡ false) (choice rng charset n)
  choice-Gives [] n h line = absurd (ground arith)
  choice-Gives (c ∷ cs) n h line =
      member-All (λ c. (c == newline) ≡ false) _ (c ∷ cs) line (random.member n c cs)

  charset-ne_nil : (var : InputVar) → is_empty (charset_of var) ≡ false
  charset-ne_nil var = elim (Bool-cases (is_empty var.charset)) [
    | inl empty ↦ rw empty refl
    | inr filled ↦ rw filled filled
  ]

  render-Gives :
      (kind : VarKind) (var : InputVar) (n : ℕ)
      → IsDrawableAs kind var
      → Gives (AcceptedAs kind var) (render rng kind var n)
  render-Gives VarKind.int var n h =
      weaker (Shown Measure.value var) (AcceptedAs VarKind.int var) (show_one rng var n)
        (show_one-Gives Measure.value var n h)
        (λ text shown. (
          word-IsLine text shown.0.0,
          ap (λ t. number_error Measure.value var text (read_int t)) (strip-IsWord text shown.0.0)
              ∙ shown.1,
        ))
  render-Gives VarKind.int_array var n h =
      after-Gives (Inside (shortest var) (longest var)) (AcceptedAs VarKind.int_array var)
        (randint rng (shortest var) (longest var) n) _
        (randint-Gives (shortest var) (longest var) n h.1.0)
        (λ z m inside.
          after-Gives (Repeated (Shown Measure.element var) (rounds z))
            (AcceptedAs VarKind.int_array var) (repeat (rounds z) (show_one rng var) m) _
            (repeat-Gives (Shown Measure.element var) (rounds z) (show_one rng var) m
              (λ k. show_one-Gives Measure.element var k h.0))
            (λ texts _ drawn. accepted_array var z texts h.1 inside drawn))
  render-Gives VarKind.string var n h =
      after-Gives (Inside (shortest var) (longest var)) (AcceptedAs VarKind.string var)
        (randint rng (shortest var) (longest var) n) _
        (randint-Gives (shortest var) (longest var) n h.0.0)
        (λ z m inside.
          weaker (Repeated (λ c. (c == newline) ≡ false) (rounds z)) (AcceptedAs VarKind.string var)
            (repeat (rounds z) (choice rng (charset_of var)) m)
            (repeat-Gives (λ c. (c == newline) ≡ false) (rounds z) (choice rng (charset_of var)) m
              (λ k. choice-Gives (charset_of var) k (charset-ne_nil var) (charset-IsLine var h.1)))
            (λ text drawn. (drawn.1, size_none var z (length text) h.0 inside drawn.0)))

  render_lines-Gives :
      (spec : List InputVar) (n : ℕ)
      → All IsDrawable spec
      → Gives (Matched spec) (render_lines rng spec n)
  unfolding render_lines
  render_lines-Gives [] n h = tt
  render_lines-Gives (var ∷ spec) n h =
      after-Gives (Accepted var) (Matched (var ∷ spec)) (render_var rng var n) _
        (render-Gives var.kind var n h.0)
        (λ line m good.
          after-Gives (Matched spec) (Matched (var ∷ spec)) (render_lines rng spec m) _
            (render_lines-Gives spec m h.1) (λ lines _ rest. (good, rest)))

  -- Take a source of random numbers as documented, and at least one variable, each with ranges that
  -- are not empty under the defaults, sizes that are not negative and no newline among its
  -- characters. The generator raises nothing: it returns the asked number of inputs, and each passes
  -- the check of the same variables.
  pub generate_inputs-Valid :
      (var : InputVar) (spec : List InputVar) (count n : ℕ)
      → All IsDrawable (var ∷ spec)
      → Gives (Valid (var ∷ spec) count) (generate_inputs rng (var ∷ spec) count n)
  unfolding generate_inputs
  generate_inputs-Valid var spec count n h =
      repeat-Gives (IsValid (var ∷ spec)) count (generate_input rng (var ∷ spec)) n (λ m.
        after-Gives (Matched (var ∷ spec)) (IsValid (var ∷ spec)) (render_lines rng (var ∷ spec) m)
          _ (render_lines-Gives (var ∷ spec) m h)
          (λ lines _ good. joined-IsValid var spec lines good))
