-- ===== src/Judge/Sides.antt =====
-- One side of a differential run, as `_classify` of services/judge/app/gen_runner.py sees it.
use dsa_platform.Prelude.{
  ℕ, true, false, Bool, Option, none, some, List, ◌≡◌, refl, sym, ap, ◌∙◌, ◌↔◌, inl, inr,
  Option-cases, arith, not, ◌||◌, Result, ok, err, if◌then◌else◌,
}
use dsa_platform.Prelude.Int.{ℤ, pos, negsuc, is_zero}
use dsa_platform.Judge.Contracts.{Verdict, CompareMode}
use dsa_platform.Judge.Compare.{outputs_match}
use dsa_platform.Judge.Runner.{
  Engine, Envelope, ContainerOutcome, JudgeError, oom_code, decode_output, is_minus, code_of,
}
use dsa_platform.Judge.Differ.{Side, clean, classify_found, classify_run, same_output}

-- A run that ended by itself, in its limits and with exit code 0, and what it printed.
abbrev pub Printed : Engine → ContainerOutcome → List ℕ → Type 0
Printed e o output =
    (o.killed_by_worker ≡ false)
    × ((env : Envelope) × (o.envelope ≡ some env)
        × (env.oom_killed ≡ false)
        × (env.timed_out ≡ false)
        × (is_zero (code_of env) ≡ true)
        × (env.truncated ≡ false)
        × (decode_output e env ≡ some output))

zero_is_no_kill : (z : ℤ) → is_zero z ≡ true → is_minus 9 z ≡ false
zero_is_no_kill (pos n) h = ground arith
zero_is_no_kill (negsuc n) h = ground arith

-- Both sides ran and printed matching outputs.
abbrev pub Match : Engine → CompareMode → ContainerOutcome → ContainerOutcome → Type 0
Match e mode reference brute =
    (a : List ℕ) × (b : List ℕ) × Printed e reference a
    × Printed e brute b
    × (outputs_match a b mode ≡ true)

classify_run-Printed :
    (e : Engine) (o : ContainerOutcome) (output : List ℕ)
    → Printed e o output
    → classify_run e o ≡ ok (Verdict.ac, some output)
unfolding classify_run
classify_run-Printed e o output (alive, (env, found, oom, timely, zero, whole, decoded)) =
    rw (alive, found, oom, zero_is_no_kill (code_of env) zero, timely, zero, whole, decoded) refl

is_true_unless : (b : Bool) → not b ≡ false → b ≡ true
is_true_unless true h = refl
is_true_unless false h = ground arith

or_left : (a b : Bool) → (a || b) ≡ false → a ≡ false
or_left a b h = ground arith

abbrev side_or : Side → Result JudgeError Side → Side
side_or side (ok other) = other
side_or side (err x) = side

abbrev printed_by : Result JudgeError Side → Option (List ℕ)
printed_by (ok side) = side.1
printed_by (err x) = none

some_is_not_none : (output : List ℕ) → none ≡ some output → ⊥
some_is_not_none output h = ground arith

not_taken :
    (b : Bool) (v : Verdict) (rest : Result JudgeError Side) (output : List ℕ)
    → (if b then ok (v, none) else rest) ≡ ok (Verdict.ac, some output)
    → (b ≡ false) × (rest ≡ ok (Verdict.ac, some output))
not_taken true v rest output h = absurd (some_is_not_none output (ap printed_by h))
not_taken false v rest output h = (refl, h)

clean_printed :
    (o : Option (List ℕ)) (output : List ℕ)
    → clean o ≡ ok (Verdict.ac, some output)
    → o ≡ some output
clean_printed none output h = absurd (some_is_not_none output (ap printed_by h))
clean_printed (some x) output h = ap printed_by h

Printed-classify_run :
    (e : Engine) (o : ContainerOutcome) (output : List ℕ)
    → classify_run e o ≡ ok (Verdict.ac, some output)
    → Printed e o output
unfolding classify_run
Printed-classify_run e o output h =
    let alive = not_taken o.killed_by_worker Verdict.tle _ output h in
    elim (Option-cases o.envelope) [
      | inl missing ↦
          let lost = ap (classify_found e o) (sym missing) ∙ alive.1 in
          let gone = not_taken (oom_code o.docker_returncode) Verdict.mle _ output lost in
          absurd (some_is_not_none output (ap printed_by gone.1))
      | inr (env, found) ↦
          let there = ap (classify_found e o) (sym found) ∙ alive.1 in
          let calm =
            not_taken (env.oom_killed || is_minus 9 (code_of env)) Verdict.mle _ output there in
          let timely = not_taken env.timed_out Verdict.tle _ output calm.1 in
          let good = not_taken (not (is_zero (code_of env))) Verdict.re _ output timely.1 in
          let whole = not_taken env.truncated Verdict.re _ output good.1 in
          (
            alive.0,
            (
              env,
              found,
              or_left env.oom_killed (is_minus 9 (code_of env)) calm.0,
              timely.0,
              is_true_unless (is_zero (code_of env)) good.0,
              whole.0,
              clean_printed (decode_output e env) output whole.1,
            ),
          )
    ]

Side-Printed :
    (e : Engine) (o : ContainerOutcome) (side : Side) (output : List ℕ)
    → classify_run e o ≡ ok side
    → Printed e o output
    → side ≡ (Verdict.ac, some output)
Side-Printed e o side output is h = ap (side_or side) (sym is ∙ classify_run-Printed e o output h)

same_output_iff :
    (mode : CompareMode) (reference brute : Side)
    → same_output mode reference brute ≡ true
    → (a : List ℕ) × (b : List ℕ) × (reference ≡ (Verdict.ac, some a))
      × (brute ≡ (Verdict.ac, some b))
      × (outputs_match a b mode ≡ true)
same_output_iff mode (Verdict.ac, some a) (Verdict.ac, some b) h = (a, b, refl, refl, h)
same_output_iff mode _ _ h = ground arith

-- The comparison of the classified sides says whether the runs match.
pub same_output-Match :
    (e : Engine) (mode : CompareMode) (ref bf : ContainerOutcome) (reference brute : Side)
    → classify_run e ref ≡ ok reference
    → classify_run e bf ≡ ok brute
    → (same_output mode reference brute ≡ true) ↔ Match e mode ref bf
same_output-Match e mode ref bf reference brute is_ref is_bf = (
  (λ h.
      let (a, b, one, two, same) = same_output_iff mode reference brute h in
      (
        a,
        b,
        Printed-classify_run e ref a (is_ref ∙ ap ok one),
        Printed-classify_run e bf b (is_bf ∙ ap ok two),
        same,
      )),
  λ (a, b, one, two, same).
      rw (Side-Printed e ref reference a is_ref one, Side-Printed e bf brute b is_bf two) same,
)
