-- ===== src/Judge/Differ.antt =====
-- services/judge/app/gen_runner.py: a reference and a brute-force solution on the same inputs. The
-- engine's object store is the one of the ai service here.
use dsa_platform.Prelude.{
  ℕ, suc, ◌+◌, String, Bool, false, Option, none, some, List, [], ◌∷◌, ◌++◌, ◌||◌, not, codes, take,
  length, if◌then◌else◌, Result, ok, err, pure, ◌>>=◌,
}
use dsa_platform.Prelude.Int.{is_zero}
use dsa_platform.Judge.Contracts.{
  Verdict, CompareMode, DiffInputRef, DiffJob, DiffCaseResult, DiffStatus, DiffResult,
}
use dsa_platform.Judge.Compare.{outputs_match}
use dsa_platform.Judge.Sandbox.{Text}
use dsa_platform.Prelude.Decimal.{decimal}
use dsa_platform.Judge.Runner.{
  Engine, Envelope, ContainerOutcome, JudgeError, Job, launch, compile_spec, run_spec,
  compile_failed, fetch, lift, log_or, decode_output, code_of, is_minus, oom_code,
}

-- A side's verdict, and its output where it ran cleanly.
abbrev pub Side : Type 0
Side = Verdict × Option (List ℕ)

abbrev pub clean : Option (List ℕ) → Result JudgeError Side
clean none = err JudgeError.bad_output
clean (some output) = ok (Verdict.ac, some output)

abbrev pub classify_envelope : Engine → Envelope → Result JudgeError Side
classify_envelope e env =
    if env.oom_killed || is_minus 9 (code_of env)
    then ok (Verdict.mle, none)
    else if env.timed_out
    then ok (Verdict.tle, none)
    else if not (is_zero (code_of env))
    then ok (Verdict.re, none)
    else if env.truncated
    then ok (Verdict.re, none)
    else clean (decode_output e env)

abbrev pub classify_found : Engine → ContainerOutcome → Option Envelope → Result JudgeError Side
classify_found e o none =
    if oom_code o.docker_returncode
    then ok (Verdict.mle, none)
    else err (JudgeError.container_failed o.docker_returncode (take 500 o.compile_log))
classify_found e o (some env) = classify_envelope e env

unfoldable pub classify_run : Engine → ContainerOutcome → Result JudgeError Side
classify_run e o =
    if o.killed_by_worker then ok (Verdict.tle, none) else classify_found e o o.envelope

abbrev pub disagreement_output_cap : ℕ
disagreement_output_cap = 2000

-- `_truncated_b64`
abbrev pub truncated : Option (List ℕ) → Option (List ℕ)
truncated none = none
truncated (some output) = some (take disagreement_output_cap output)

abbrev pub same_output : CompareMode → Side → Side → Bool
same_output mode (Verdict.ac, some a) (Verdict.ac, some b) = outputs_match a b mode
same_output mode _ _ = false

abbrev pub diff_case : DiffJob → DiffInputRef → Side → Side → DiffCaseResult
diff_case job input reference brute =
    let agree = same_output job.compare_mode reference brute in
    record {
      ordinal = input.ordinal;
      agree = agree;
      reference_verdict = reference.0;
      brute_force_verdict = brute.0;
      reference_output =
          if not agree || job.capture_agreement_outputs then truncated (reference.1) else none;
      brute_force_output = if agree then none else truncated (brute.1);
    }

-- `_run_one` and what it is classified as
abbrev pub run_side :
    Engine → DiffJob → Text → String → DiffInputRef → List ℕ → Job ContainerOutcome
run_side e job dir role input stdin =
    launch e
      (run_spec e job.job_id dir job.language job.limits
        (codes "gen-run-" ++ codes role ++ codes "-" ++ decimal input.ordinal))
      stdin (job.limits.time_ms + e.settings.wall_grace_ms)

unfoldable pub diff_input : Engine → Text → Text → DiffJob → DiffInputRef → Job DiffCaseResult
diff_input e ref_dir bf_dir job input = fetch e input.input_s3_key >>= λ stdin.
    run_side e job ref_dir "ref" input stdin >>= λ ref_outcome.
    run_side e job bf_dir "bf" input stdin >>= λ bf_outcome.
    lift (classify_run e ref_outcome) >>= λ reference.
    lift (classify_run e bf_outcome) >>= λ brute. pure (diff_case job input reference brute)

unfoldable pub diff_inputs :
    Engine → Text → Text → DiffJob → List DiffInputRef → Job (List DiffCaseResult)
diff_inputs e ref_dir bf_dir job [] = pure []
diff_inputs e ref_dir bf_dir job (input ∷ inputs) =
    diff_input e ref_dir bf_dir job input >>= λ case.
    diff_inputs e ref_dir bf_dir job inputs >>= λ cases. pure (case ∷ cases)

-- `agree_count`
abbrev pub agree_count : List DiffCaseResult → ℕ
agree_count [] = 0
agree_count (case ∷ cases) = let rest = agree_count cases in if case.agree then suc rest else rest

-- `agree_count / len(job.inputs) if job.inputs else 0.0`
abbrev pub agreement : List DiffInputRef → List DiffCaseResult → ℕ × ℕ
agreement [] cases = (0, 1)
agreement (input ∷ inputs) cases = (agree_count cases, length (input ∷ inputs))

abbrev pub diff_failed : DiffJob → DiffStatus → Text → DiffResult
diff_failed job status log = record {
  job_id = job.job_id;
  org_id = job.org_id;
  attempt = job.attempt;
  status = status;
  agreement_pct = (0, 1);
  compile_error = some log;
  cases = [];
  request_id = job.request_id;
}

abbrev pub diffed : DiffJob → List DiffCaseResult → DiffResult
diffed job cases = record {
  job_id = job.job_id;
  org_id = job.org_id;
  attempt = job.attempt;
  status = DiffStatus.completed;
  agreement_pct = agreement job.inputs cases;
  compile_error = none;
  cases = cases;
  request_id = job.request_id;
}

-- `_compile`
abbrev pub compile_side : Engine → DiffJob → Text → String → Job ContainerOutcome
compile_side e job dir role =
    launch e
      (compile_spec e job.job_id dir job.language job.limits (codes "gen-compile-" ++ codes role))
      [] (e.settings.wall_grace_ms + 20000)

abbrev pub brute_then : Engine → Text → Text → DiffJob → ContainerOutcome → Job DiffResult
brute_then e ref_dir bf_dir job brute =
    if compile_failed brute
    then pure (
        diff_failed job DiffStatus.brute_force_compile_error
          (log_or "brute-force failed to compile" brute.compile_log))
    else diff_inputs e ref_dir bf_dir job job.inputs >>= λ cases. pure (diffed job cases)

abbrev pub reference_then : Engine → Text → Text → DiffJob → ContainerOutcome → Job DiffResult
reference_then e ref_dir bf_dir job reference =
    if compile_failed reference
    then pure (
        diff_failed job DiffStatus.reference_compile_error
          (log_or "reference failed to compile" reference.compile_log))
    else compile_side e job bf_dir "bf" >>= λ brute. brute_then e ref_dir bf_dir job brute

-- The two directories are fresh ones.
unfoldable pub run_diff : Engine → Text → Text → DiffJob → Job DiffResult
run_diff e ref_dir bf_dir job =
    compile_side e job ref_dir "ref" >>= λ reference. reference_then e ref_dir bf_dir job reference
