-- ===== src/Judge/Tests.antt =====
-- The judge on concrete data: a docker that prints one envelope, and the theorems about the judge at
-- its runs.
use dsa_platform.Prelude.{
  ℕ, true, false, none, some, List, [], ◌∷◌, ◌≡◌, refl, codes, list_eq, Result, ok, err,
  if◌then◌else◌, ltb, length, map,
}
use dsa_platform.Prelude.Int.{pos}
use dsa_platform.Judge.Contracts.{
  Language, Verdict, CompareMode, Limits, TestCaseRef, SubmissionJob, CaseResult, VerdictMessage,
  DiffJob,
}
use dsa_platform.Judge.Compare.{outputs_match, tokens}
use dsa_platform.Judge.Spacing.{Matching, spacing_ignored, outputs_match-Matching}
use dsa_platform.Judge.Sandbox.{SandboxSpec, build_run_command}
use dsa_platform.Judge.Contained.{Held, container_of, build_run_command-Held}
use dsa_platform.Judge.Runner.{
  JudgeError, Engine, Host, Process, Envelope, Settings, ContainerOutcome, run, run_case, run_cases,
  run_container, verdict_for_case, summary, split_lines, last_object, compile_spec,
}
use dsa_platform.Judge.Launches.{AllSafe, run-AllSafe}
use dsa_platform.Judge.Verdicts.{Answers, IsReport, IsClean, run-IsReport, Accepted-IsClean}

abbrev envelope : Envelope
envelope = record {
  time_ms = some 12;
  memory_kb = none;
  exit_code = none;
  oom_killed = false;
  timed_out = false;
  truncated = false;
  output_b64 = some (codes "1 2\n");
}

-- The first launch compiles; the third one runs into its timeout.
abbrev docker : Host → List ℕ → ℕ → Process
docker host stdin wall =
    if ltb 2 (length host)
    then Process.timeout_expired
    else Process.exited (pos 0) (codes "log\n {\n")

abbrev settings : Settings
settings = record {
  gvisor = false;
  image_python = codes "py";
  image_java = codes "java";
  image_cpp = codes "cpp";
  wall_grace_ms = 5;
}

abbrev engine : Engine
engine = record {
  docker = docker;
  decode = λ stdout. stdout;
  parse = λ line. if list_eq line (codes "{") then some envelope else none;
  unbase64 = λ text. some text;
  get_object = λ key. some (codes "1  2");
  short_hex = λ id. codes "id";
  token_hex = λ host. codes "t";
  workdir = λ id. codes "/scratch";
  settings = settings;
}

abbrev limits : Limits
limits = record { time_ms = 100; memory_mb = 64; pids = 8; output_bytes = 9 }

abbrev test_case : ℕ → TestCaseRef
test_case n = record { ordinal = n; input_s3_key = codes "i"; expected_output_s3_key = codes "o" }

abbrev job : SubmissionJob
job = record {
  submission_id = 7;
  org_id = 1;
  language = Language.python;
  source = codes "print(1, 2)";
  compare_mode = CompareMode.whitespace;
  limits = limits;
  cases = test_case 4 ∷ test_case 9 ∷ [];
  request_id = none;
}

abbrev verdicts_of : Result JudgeError VerdictMessage → List (ℕ × Verdict)
verdicts_of (ok m) =
    (0, m.summary_verdict) ∷ map (λ (r : CaseResult). (r.ordinal, r.verdict)) m.cases
verdicts_of (err x) = []

accepted_then_late :
    verdicts_of ((run engine job []).0) ≡ (0, Verdict.tle) ∷ (4, Verdict.ac) ∷ (9, Verdict.tle) ∷ []
unfolding run run_cases run_case run_container verdict_for_case outputs_match tokens split_lines
    last_object summary
accepted_then_late = refl

run-IsReport_example : Answers engine (IsReport job) ((run engine job []).0)
run-IsReport_example = run-IsReport engine job []

run-AllSafe_example : AllSafe engine job ((run engine job []).1)
run-AllSafe_example = run-AllSafe engine job [] ((refl, refl), (refl, refl), (refl, refl)) tt

abbrev outcome : ContainerOutcome
outcome = record {
  killed_by_worker = false;
  docker_returncode = pos 0;
  envelope = some envelope;
  compile_log = [];
}

Accepted-IsClean_example : IsClean engine outcome (codes "1  2") job
unfolding verdict_for_case outputs_match tokens
Accepted-IsClean_example = Accepted-IsClean engine outcome (codes "1  2") job refl

spacing_ignored_example : outputs_match (codes "1 2") (codes "1\n\n2") CompareMode.whitespace ≡ true
spacing_ignored_example =
    spacing_ignored (codes "1") (codes "2") 32 10 [] (10 ∷ []) refl refl tt (refl, tt)

outputs_match-Matching_example : Matching CompareMode.whitespace (codes "1 2\n") (codes "1  2")
unfolding outputs_match tokens
outputs_match-Matching_example =
    outputs_match-Matching (codes "1 2\n") (codes "1  2") CompareMode.whitespace refl

abbrev compiling : SandboxSpec
compiling = compile_spec engine 7 (codes "/scratch") Language.python limits (codes "compile") []

build_run_command-Held_example : Held compiling (container_of (build_run_command compiling))
build_run_command-Held_example = build_run_command-Held compiling (refl, refl)

abbrev diff_job : DiffJob
diff_job = record {
  job_id = 3;
  org_id = 1;
  attempt = 1;
  language = Language.cpp;
  reference_source = [];
  brute_force_source = [];
  limits = limits;
  compare_mode = CompareMode.exact;
  inputs = record { ordinal = 1; input_s3_key = codes "i" } ∷ [];
  capture_agreement_outputs = false;
  request_id = none;
}
