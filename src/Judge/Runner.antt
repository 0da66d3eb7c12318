-- ===== src/Judge/Runner.antt =====
-- services/judge/app/exec_common.py and app/runner.py. Docker, the object store, JSON, base64, UTF-8
-- and fresh names are parameters; the files in the working directory are left out. What a container
-- does may depend on every command launched so far.
use dsa_platform.Prelude.{
  ℕ, ◌+◌, ◌*◌, max, String, Bool, true, false, Option, none, some, List, [], ◌∷◌, ◌++◌, ◌==◌, ◌&&◌,
  ◌||◌, not, leb, codes, take, if◌then◌else◌, Exec, Result, ok, err, pure, ◌>>=◌,
}
use dsa_platform.Prelude.Int.{ℤ, pos, negsuc, is_zero}
use dsa_platform.Judge.Contracts.{
  Language, Verdict, Limits, TestCaseRef, SubmissionJob, CaseResult, SubmissionStatus,
  VerdictMessage,
}
use dsa_platform.Judge.Compare.{outputs_match}
use dsa_platform.Judge.Sandbox.{Text, SandboxSpec, build_run_command}
use dsa_platform.Prelude.Decimal.{decimal}

-- The JSON object that the runner in the container prints last.
pub record Envelope : Type 0 where
  pub time_ms : Option ℕ
  pub memory_kb : Option ℕ
  pub exit_code : Option ℤ
  pub oom_killed : Bool
  pub timed_out : Bool
  pub truncated : Bool
  pub output_b64 : Option Text

pub record ContainerOutcome : Type 0 where
  pub killed_by_worker : Bool
  pub docker_returncode : ℤ
  pub envelope : Option Envelope
  pub compile_log : Text

-- How `subprocess.run` ends: at its timeout, or with a return code and the standard output.
pub data Process : Type 0 where
  timeout_expired : Process
  exited : ℤ → List ℕ → Process

pub record Settings : Type 0 where
  pub gvisor : Bool
  pub image_python : Text
  pub image_java : Text
  pub image_cpp : Text
  pub wall_grace_ms : ℕ

-- The commands given to docker, the latest first.
abbrev pub Host : Type 0
Host = List (List Text)

pub record Engine : Type 0 where
  pub docker : Host → List ℕ → ℕ → Process
  pub decode : List ℕ → Text
  pub parse : Text → Option Envelope
  pub unbase64 : Text → Option (List ℕ)
  pub get_object : Text → Option (List ℕ)
  pub short_hex : ℕ → Text
  pub token_hex : Host → Text
  pub workdir : ℕ → Text
  pub settings : Settings

-- The exceptions that end a job without a message: the object store's, base64's, and the runner's own.
pub data JudgeError : Type 0 where
  storage : Text → JudgeError
  bad_output : JudgeError
  container_failed : ℤ → Text → JudgeError

abbrev pub Job : Type 0 → Type 0
Job A = Exec JudgeError Host A

abbrev pub image_for : Settings → Language → Text
image_for s Language.python = s.image_python
image_for s Language.java = s.image_java
image_for s Language.cpp = s.image_cpp

abbrev pub language_name : Language → Text
language_name Language.python = codes "python"
language_name Language.java = codes "java"
language_name Language.cpp = codes "cpp"

-- The line boundaries of `str.splitlines`, and what `str.strip` takes off.
abbrev is_break : ℕ → Bool
is_break c = (leb 10 c && leb c 13) || (leb 28 c && leb c 30) || c == 133 || c == 8232 || c == 8233

abbrev is_blank : ℕ → Bool
is_blank c =
    (leb 9 c && leb c 13)
    || (leb 28 c && leb c 32)
    || c == 133
    || c == 160
    || c == 5760
    || (leb 8192 c && leb c 8202)
    || c == 8232
    || c == 8233
    || c == 8239
    || c == 8287
    || c == 12288

abbrev lead : ℕ → List Text → List Text
lead c [] = (c ∷ []) ∷ []
lead c (line ∷ lines) = (c ∷ line) ∷ lines

-- A carriage return with its line feed ends two lines here; the second one is empty.
unfoldable pub split_lines : Text → List Text
split_lines [] = []
split_lines (c ∷ text) =
    let lines = split_lines text in if is_break c then [] ∷ lines else lead c lines

abbrev pub strip_left : Text → Text
strip_left [] = []
strip_left (c ∷ text) = let rest = strip_left text in if is_blank c then rest else c ∷ text

abbrev keep : ℕ → Text → Text
keep c [] = if is_blank c then [] else c ∷ []
keep c (d ∷ text) = c ∷ d ∷ text

abbrev pub strip_right : Text → Text
strip_right [] = []
strip_right (c ∷ text) = keep c (strip_right text)

abbrev opens_object : Text → Bool
opens_object [] = false
opens_object (c ∷ text) = c == b'{'

-- the last line that starts with a brace
unfoldable pub last_object : List Text → Option Text
last_object [] = none
last_object (line ∷ lines) = elim (last_object lines) [
  | some found ↦ some found
  | none ↦
      let stripped = strip_right (strip_left line) in
      if opens_object stripped then some stripped else none
]

abbrev pub parsed : Engine → Option Text → Option Envelope
parsed e none = none
parsed e (some line) = e.parse line

abbrev pub outcome_of : Engine → Process → ContainerOutcome
outcome_of e Process.timeout_expired = record {
  killed_by_worker = true;
  docker_returncode = negsuc 0;
  envelope = none;
  compile_log = [];
}
outcome_of e (Process.exited code stdout) = record {
  killed_by_worker = false;
  docker_returncode = code;
  envelope = parsed e (last_object (split_lines (e.decode stdout)));
  compile_log = e.decode stdout;
}

-- After a timeout the container is killed by its name.
abbrev pub killed : SandboxSpec → Process → Host → Host
killed spec Process.timeout_expired host = (codes "docker" ∷ codes "kill" ∷ spec.name ∷ []) ∷ host
killed spec (Process.exited code stdout) host = host

unfoldable pub run_container : Engine → SandboxSpec → List ℕ → ℕ → Job ContainerOutcome
run_container e spec stdin wall_ms host =
    let launched = build_run_command spec ∷ host in
    let process = e.docker launched stdin wall_ms in
    (ok (outcome_of e process), killed spec process launched)

abbrev pub container_name : Engine → ℕ → Text → Host → Text
container_name e id stage host =
    codes "dsa-judge-" ++ e.short_hex id ++ codes "-" ++ stage ++ codes "-" ++ e.token_hex host

abbrev pub runtime_of : Settings → Text
runtime_of s = if s.gvisor then codes "runsc" else codes "runc"

abbrev pub fetched : Text → Option (List ℕ) → Result JudgeError (List ℕ)
fetched key none = err (JudgeError.storage key)
fetched key (some content) = ok content

abbrev pub fetch : Engine → Text → Job (List ℕ)
fetch e key host = (fetched key (e.get_object key), host)

abbrev pub or_zero : Option ℕ → ℕ
or_zero none = 0
or_zero (some n) = n

abbrev pub code_of : Envelope → ℤ
code_of env = elim env.exit_code [ none ↦ pos 0 | some c ↦ c ]

-- `decode_output`
abbrev pub decode_output : Engine → Envelope → Option (List ℕ)
decode_output e env = e.unbase64 (elim env.output_b64 [ none ↦ [] | some t ↦ t ])

abbrev pub is_minus : ℕ → ℤ → Bool
is_minus n (pos m) = false
is_minus n (negsuc m) = m + 1 == n

abbrev pub is_plus : ℕ → ℤ → Bool
is_plus n (pos m) = n == m
is_plus n (negsuc m) = false

-- `returncode in (137, -9)`
abbrev pub oom_code : ℤ → Bool
oom_code c = is_plus 137 c || is_minus 9 c

abbrev pub case_result : Verdict → ℕ → ℕ → CaseResult
case_result verdict runtime_ms memory_kb = record {
  ordinal = 0;
  verdict = verdict;
  runtime_ms = runtime_ms;
  memory_kb = memory_kb;
}

abbrev pub compared :
    SubmissionJob → Envelope → List ℕ → Option (List ℕ) → Result JudgeError CaseResult
compared job env expected none = err JudgeError.bad_output
compared job env expected (some output) = ok (
    case_result (if outputs_match output expected job.compare_mode then Verdict.ac else Verdict.wa)
      (or_zero env.time_ms) (or_zero env.memory_kb))

abbrev pub ended : Envelope → Verdict → Result JudgeError CaseResult
ended env verdict = ok (case_result verdict (or_zero env.time_ms) (or_zero env.memory_kb))

-- the verdict on a run that has an envelope
abbrev pub verdict_of_envelope :
    Engine → Envelope → List ℕ → SubmissionJob → Result JudgeError CaseResult
verdict_of_envelope e env expected job =
    if env.oom_killed || is_minus 9 (code_of env)
    then ended env Verdict.mle
    else if env.timed_out
    then ok (case_result Verdict.tle job.limits.time_ms (or_zero env.memory_kb))
    else if not (is_zero (code_of env))
    then ended env Verdict.re
    else if env.truncated
    then ended env Verdict.wa
    else compared job env expected (decode_output e env)

abbrev pub verdict_of_run :
    Engine
    → ContainerOutcome
    → List ℕ
    → SubmissionJob
    → Option Envelope
    → Result JudgeError CaseResult
verdict_of_run e outcome expected job none =
    if oom_code outcome.docker_returncode
    then ok (case_result Verdict.mle 0 (job.limits.memory_mb * 1024))
    else err (JudgeError.container_failed outcome.docker_returncode (take 500 outcome.compile_log))
verdict_of_run e outcome expected job (some env) = verdict_of_envelope e env expected job

unfoldable pub verdict_for_case :
    Engine → ContainerOutcome → List ℕ → SubmissionJob → Result JudgeError CaseResult
verdict_for_case e outcome expected job =
    if outcome.killed_by_worker
    then ok (case_result Verdict.tle job.limits.time_ms 0)
    else verdict_of_run e outcome expected job outcome.envelope

abbrev pub unless_ac : Verdict → Verdict → Verdict
unless_ac Verdict.ac rest = rest
unless_ac Verdict.wa rest = Verdict.wa
unless_ac Verdict.tle rest = Verdict.tle
unless_ac Verdict.mle rest = Verdict.mle
unless_ac Verdict.re rest = Verdict.re
unless_ac Verdict.ce rest = Verdict.ce

-- `_summary`
unfoldable pub summary : List CaseResult → Verdict
summary [] = Verdict.ac
summary (case ∷ cases) = unless_ac case.verdict (summary cases)

abbrev pub compile_spec : Engine → ℕ → Text → Language → Limits → Text → Host → SandboxSpec
compile_spec e id dir language limits stage host = record {
  image = image_for e.settings language;
  argv = codes "compile" ∷ language_name language ∷ [];
  artifact_dir = dir;
  memory_mb = max limits.memory_mb 512;
  pids_limit = limits.pids;
  name = container_name e id stage host;
  cpus = codes "1.0";
  output_bytes = limits.output_bytes;
  writable_artifact = true;
  env = [];
  runtime = runtime_of e.settings;
}

abbrev pub run_spec : Engine → ℕ → Text → Language → Limits → Text → Host → SandboxSpec
run_spec e id dir language limits stage host = record {
  image = image_for e.settings language;
  argv = codes "run" ∷ language_name language ∷ decimal limits.time_ms ∷ [];
  artifact_dir = dir;
  memory_mb = limits.memory_mb;
  pids_limit = limits.pids;
  name = container_name e id stage host;
  cpus = codes "1.0";
  output_bytes = limits.output_bytes;
  writable_artifact = false;
  env = (codes "MAX_OUTPUT_BYTES", decimal limits.output_bytes) ∷ [];
  runtime = runtime_of e.settings;
}

abbrev pub launch : Engine → (Host → SandboxSpec) → List ℕ → ℕ → Job ContainerOutcome
launch e spec stdin wall_ms host = run_container e (spec host) stdin wall_ms host

abbrev pub compile_failed : ContainerOutcome → Bool
compile_failed o = o.killed_by_worker || not (is_zero o.docker_returncode)

-- `compile_log[:4000] or default`
abbrev pub log_or : String → Text → Text
log_or default [] = codes default
log_or default (c ∷ log) = take 4000 (c ∷ log)

abbrev pub lift : {A : Type 0} → Result JudgeError A → Job A
lift r host = (r, host)

-- one test case of the run stage
unfoldable pub run_case : Engine → SubmissionJob → TestCaseRef → Job CaseResult
run_case e job case = fetch e case.input_s3_key >>= λ stdin.
    fetch e case.expected_output_s3_key >>= λ expected.
    launch e
      (run_spec e job.submission_id (e.workdir job.submission_id) job.language job.limits
        (codes "run-" ++ decimal case.ordinal))
      stdin (job.limits.time_ms + e.settings.wall_grace_ms)
    >>= λ outcome. lift (verdict_for_case e outcome expected job) >>= λ (result : CaseResult).
        pure (record result { ordinal = case.ordinal })

unfoldable pub run_cases : Engine → SubmissionJob → List TestCaseRef → Job (List CaseResult)
run_cases e job [] = pure []
run_cases e job (case ∷ cases) =
    run_case e job case >>= λ result. run_cases e job cases >>= λ results. pure (result ∷ results)

abbrev pub judged : SubmissionJob → List CaseResult → VerdictMessage
judged job results = record {
  submission_id = job.submission_id;
  org_id = job.org_id;
  status = SubmissionStatus.completed;
  summary_verdict = summary results;
  compile_error = none;
  cases = results;
  request_id = job.request_id;
}

abbrev pub not_compiled : SubmissionJob → ContainerOutcome → VerdictMessage
not_compiled job outcome = record {
  submission_id = job.submission_id;
  org_id = job.org_id;
  status = SubmissionStatus.compile_error;
  summary_verdict = Verdict.ce;
  compile_error = some (log_or "compilation failed" outcome.compile_log);
  cases = [];
  request_id = job.request_id;
}

abbrev pub run_stage : Engine → SubmissionJob → ContainerOutcome → Job VerdictMessage
run_stage e job compiled =
    if compile_failed compiled
    then pure (not_compiled job compiled)
    else run_cases e job job.cases >>= λ results. pure (judged job results)

unfoldable pub run : Engine → SubmissionJob → Job VerdictMessage
run e job =
    launch e
      (compile_spec e job.submission_id (e.workdir job.submission_id) job.language job.limits
        (codes "compile"))
      [] (e.settings.wall_grace_ms + 20000)
    >>= λ compiled. run_stage e job compiled
