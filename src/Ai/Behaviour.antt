-- ===== src/Ai/Behaviour.antt =====
-- services/ai/app/evaluation/behavioural.py and partial_credit.py: what a candidate's submissions to
-- one question, the oldest first, tell of the way of working, and the score, in tenths.
use dsa_platform.Prelude.{
  ℕ, suc, ◌+◌, String, Bool, true, false, Option, none, some, List, [], ◌∷◌, ◌++◌, str_eq,
  if◌then◌else◌, ◌≡◌, refl, ap, ◌∙◌, arith, inl, inr, Bool-cases, and_both, eq_iff, any, take,
  length, ◌&&◌, ◌||◌, not,
}

pub record SubmissionRecord : Type 0 where
  pub mode : String
  pub language : String
  pub source : String
  pub status : String
  pub summary_verdict : Option String
  pub created_at : ℕ

pub data BugSeverity : Type 0 where
  no_bug minor major fundamental : BugSeverity

abbrev pub is_run_record : SubmissionRecord → Bool
is_run_record r = str_eq r.mode "run"

abbrev pub is_submit_record : SubmissionRecord → Bool
is_submit_record r = str_eq r.mode "submit"

abbrev pub is_ac_verdict : Option String → Bool
is_ac_verdict none = false
is_ac_verdict (some verdict) = str_eq verdict "AC"

abbrev pub is_ac_submit : SubmissionRecord → Bool
is_ac_submit r = is_submit_record r && is_ac_verdict r.summary_verdict

-- The loop, with its count.
unfoldable pub count_runs : ℕ → List SubmissionRecord → ℕ
count_runs count [] = count
count_runs count (r ∷ rs) =
    let next = count_runs (suc count) rs in
    let same = count_runs count rs in
    if is_run_record r then next else if is_ac_submit r then count else same

abbrev pub runs_before_ac : List SubmissionRecord → ℕ
runs_before_ac rs = count_runs 0 rs

unfoldable pub submit_indices : ℕ → List SubmissionRecord → List ℕ
submit_indices i [] = []
submit_indices i (r ∷ rs) =
    if is_submit_record r then i ∷ submit_indices (suc i) rs else submit_indices (suc i) rs

unfoldable pub last_or : ℕ → List ℕ → ℕ
last_or default [] = default
last_or default (i ∷ is) = last_or i is

unfoldable pub edge_cases_tested : List SubmissionRecord → Bool
edge_cases_tested rs = any is_run_record (take (last_or (length rs) (submit_indices 0 rs)) rs)

abbrev pub partial_score : BugSeverity → ℕ
partial_score BugSeverity.minor = 7
partial_score BugSeverity.major = 4
partial_score BugSeverity.no_bug = 1
partial_score BugSeverity.fundamental = 1

unfoldable pub score : Option String → Bool → Bool → BugSeverity → ℕ
score verdict has_submission approach_correct severity =
    if not has_submission
    then 0
    else if is_ac_verdict verdict
    then 10
    else if approach_correct
    then partial_score severity
    else 1

-- A run that a later submission follows.
unfoldable pub run_then_submit : List SubmissionRecord → Bool
run_then_submit [] = false
run_then_submit (r ∷ rs) = (is_run_record r && any is_submit_record rs) || run_then_submit rs

and_false : (b : Bool) → (b && false) ≡ false
and_false true = refl
and_false false = refl

and_true : (b : Bool) → (b && true) ≡ b
and_true true = refl
and_true false = refl

or_none : (a b : Bool) → (a || b) ≡ false → (a ≡ false) × (b ≡ false)
or_none true b h = ground arith
or_none false b h = (refl, h)

or_first : (a b : Bool) → (a || b) ≡ true → b ≡ false → a ≡ true
or_first true b h none_later = refl
or_first false b h none_later = ground arith

or_same : (a : Bool) → (a || false) ≡ a
or_same true = refl
or_same false = refl

submit_indices_none :
    (i : ℕ) (rs : List SubmissionRecord)
    → any is_submit_record rs ≡ false
    → submit_indices i rs ≡ []
unfolding submit_indices
submit_indices_none i [] h = refl
submit_indices_none i (r ∷ rs) h =
    let both = or_none (is_submit_record r) (any is_submit_record rs) h in
    rw both.0 (submit_indices_none (suc i) rs both.1)

run_then_submit_none :
    (rs : List SubmissionRecord) → any is_submit_record rs ≡ false → run_then_submit rs ≡ false
unfolding run_then_submit
run_then_submit_none [] h = refl
run_then_submit_none (r ∷ rs) h =
    let both = or_none (is_submit_record r) (any is_submit_record rs) h in
    rw (both.1, run_then_submit_none rs both.1, and_false (is_run_record r)) refl

last_or_later :
    (first : Bool) (default i : ℕ) (is : List ℕ)
    → (d : ℕ) × (last_or default (if first then i ∷ is else is) ≡ last_or d is)
unfolding last_or
last_or_later true default i is = (i, refl)
last_or_later false default i is = (default, refl)

last_submit :
    (default i : ℕ) (rs : List SubmissionRecord)
    → any is_submit_record rs ≡ true
    → (k : ℕ) × (last_or default (submit_indices i rs) ≡ k + i)
      × (any is_run_record (take k rs) ≡ run_then_submit rs)
unfolding submit_indices run_then_submit last_or
last_submit default i [] h = ground arith
last_submit default i (r ∷ rs) h = elim (Bool-cases (any is_submit_record rs)) [
  | inl later ↦
      let d = last_or_later (is_submit_record r) default i (submit_indices (suc i) rs) in
      let rest = last_submit d.0 (suc i) rs later in
      (
        suc rest.0,
        d.1 ∙ rest.1 ∙ (omega arith),
        rw (later, and_true (is_run_record r)) (ap (λ b. is_run_record r || b) rest.2),
      )
  | inr none_later ↦ (
    0,
    rw
        (
          submit_indices_none (suc i) rs none_later,
          or_first (is_submit_record r) (any is_submit_record rs) h none_later,
        )
        (omega arith),
    rw (none_later, run_then_submit_none rs none_later, and_false (is_run_record r)) refl,
  )
]

take_all : (rs : List SubmissionRecord) → take (length rs) rs ≡ rs
take_all [] = refl
take_all (r ∷ rs) = ap (◌∷◌ r) (take_all rs)

-- A candidate counts as having tested edge cases when a run precedes the last submission, and, if
-- there is no submission, when there is a run.
pub edge_cases_tested-run_then_submit :
    (rs : List SubmissionRecord)
    → edge_cases_tested rs
      ≡ (if any is_submit_record rs then run_then_submit rs else any is_run_record rs)
unfolding edge_cases_tested last_or
edge_cases_tested-run_then_submit rs = elim (Bool-cases (any is_submit_record rs)) [
  | inl some_submit ↦
      let last = last_submit (length rs) 0 rs some_submit in
      let at_end : last_or (length rs) (submit_indices 0 rs) ≡ last.0 = last.1 ∙ (omega arith) in
      rw (some_submit, at_end) last.2
  | inr no_submit ↦ rw (no_submit, submit_indices_none 0 rs no_submit, take_all rs) refl
]

abbrev pub count_if : (SubmissionRecord → Bool) → List SubmissionRecord → ℕ
count_if test [] = 0
count_if test (r ∷ rs) = (if test r then 1 else 0) + count_if test rs

ac_submit_is_no_run : (r : SubmissionRecord) → is_ac_submit r ≡ true → is_run_record r ≡ false
ac_submit_is_no_run r h =
    let mode_is =
      (eq_iff r.mode "submit").0
        (and_both (is_submit_record r) (is_ac_verdict r.summary_verdict) h).0 in
    rw mode_is refl

count_runs_append :
    (n : ℕ) (before : List SubmissionRecord) (accepted : SubmissionRecord)
    (after : List SubmissionRecord)
    → any is_ac_submit before ≡ false
    → is_ac_submit accepted ≡ true
    → count_runs n (before ++ accepted ∷ after) ≡ n + count_if is_run_record before
unfolding count_runs
count_runs_append n [] accepted after early h = rw (ac_submit_is_no_run accepted h, h) (omega arith)
count_runs_append n (r ∷ rs) accepted after early h =
    let both = or_none (is_ac_submit r) (any is_ac_submit rs) early in
    elim (Bool-cases (is_run_record r)) [
      | inl ran ↦ rw ran (count_runs_append (suc n) rs accepted after both.1 h ∙ (omega arith))
      | inr other ↦
          rw (other, both.0) (count_runs_append n rs accepted after both.1 h ∙ (omega arith))
    ]

-- If a submission was accepted and none before it, the runs that count are those before it, whatever
-- comes after it.
pub runs_before_ac_append :
    (before : List SubmissionRecord) (accepted : SubmissionRecord) (after : List SubmissionRecord)
    → any is_ac_submit before ≡ false
    → is_ac_submit accepted ≡ true
    → runs_before_ac (before ++ accepted ∷ after) ≡ count_if is_run_record before
runs_before_ac_append before accepted after early h =
    count_runs_append 0 before accepted after early h ∙ (omega arith)
