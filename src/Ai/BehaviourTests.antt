-- ===== src/Ai/BehaviourTests.antt =====
-- A run, an accepted submission and a run after it, and the theorems at them.
use dsa_platform.Prelude.{none, some, [], ◌∷◌, ◌++◌, ◌≡◌, refl, any, if◌then◌else◌}
use dsa_platform.Ai.Behaviour.{
  SubmissionRecord, is_run_record, is_submit_record, edge_cases_tested, run_then_submit, count_if,
  runs_before_ac, edge_cases_tested-run_then_submit, runs_before_ac_append,
}

abbrev tried : SubmissionRecord
tried = record {
  mode = "run";
  language = "python";
  source = "pass";
  status = "completed";
  summary_verdict = none;
  created_at = 1;
}

abbrev winning : SubmissionRecord
winning = record tried { mode = "submit"; summary_verdict = some "AC"; created_at = 2 }

edge_cases_tested-run_then_submit_example : edge_cases_tested (tried ∷ winning ∷ tried ∷ []) ≡ (
    if any is_submit_record (tried ∷ winning ∷ tried ∷ [])
    then run_then_submit (tried ∷ winning ∷ tried ∷ [])
    else any is_run_record (tried ∷ winning ∷ tried ∷ []))
edge_cases_tested-run_then_submit_example =
    edge_cases_tested-run_then_submit (tried ∷ winning ∷ tried ∷ [])

runs_before_ac_append_example :
    runs_before_ac ((tried ∷ []) ++ winning ∷ tried ∷ []) ≡ count_if is_run_record (tried ∷ [])
runs_before_ac_append_example = runs_before_ac_append (tried ∷ []) winning (tried ∷ []) refl refl
