-- ===== src/Ai/Generation.antt =====
-- services/ai/app/services/generation.py
use dsa_platform.Prelude.{
  ℕ, suc, ◌+◌, false, Option, none, some, List, [], ◌∷◌, ◌++◌, codes, not, is_empty, if◌then◌else◌,
  Result, ok, err, pure, ◌>>=◌, ◌>>◌,
}
use dsa_platform.Prelude.Decimal.{decimal}
use dsa_platform.Judge.Contracts.{
  Language, CompareMode, Limits, DiffInputRef, DiffJob, DiffCaseResult, DiffResult,
}
use dsa_platform.Ai.Drafts.{Text, DifficultyBand, InputVar, GeneratedQuestionDraft}
use dsa_platform.Ai.Validate.{DraftError, validate_draft}
use dsa_platform.Ai.Inputs.{RandomError, generate_inputs}
use dsa_platform.Ai.Jobs.{
  GenerationStatus, Failure, JobError, GenerationJob, NewQuestion, QuestionCreated, State, Role,
  Outside, Settings, Step, call, asserted, find_job, set_job, save, put_object, send,
  create_question,
}

abbrev pub new_job : ℕ → ℕ → ℕ → DifficultyBand → List Text → GenerationJob
new_job id org_id topic_id band languages = record {
  id = id;
  org_id = org_id;
  topic_id = topic_id;
  difficulty_band = band;
  language_targets = languages;
  status = GenerationStatus.queued;
  attempt = 0;
  draft = none;
  reference_solution = none;
  brute_force_solution = none;
  question_version_id = none;
  question_id = none;
  discard_log = none;
  error = none;
}

-- `start_generation`, up to the detached task
unfoldable pub start_generation : Outside → ℕ → ℕ → DifficultyBand → List Text → Step GenerationJob
start_generation o org_id topic_id band languages s =
    let job = new_job (o.new_job s) org_id topic_id band languages in
    (ok job, record s { generation_jobs = s.generation_jobs ++ (job ∷ []) })

abbrev pub drafting : GenerationJob → GenerationJob
drafting j = record j { status = GenerationStatus.drafting }

abbrev pub rejected : List DraftError → GenerationJob → GenerationJob
rejected errors j = record j {
  status = GenerationStatus.failed;
  error = some (JobError.draft_errors errors);
}

abbrev pub drafted : GeneratedQuestionDraft → GenerationJob → GenerationJob
drafted draft j = record j { draft = some draft; attempt = 1; status = GenerationStatus.validating }

abbrev pub solved : Text → Text → GenerationJob → GenerationJob
solved reference brute_force j = record j {
  reference_solution = some reference;
  brute_force_solution = some brute_force;
}

abbrev pub raised : Failure → GenerationJob → GenerationJob
raised e j = record j { status = GenerationStatus.failed; error = some (JobError.raised e) }

abbrev pub from_draw : {A : Type 0} → State → Result RandomError A × ℕ → Result Failure A × State
from_draw s (ok a, n) = (ok a, record s { draws = n })
from_draw s (err e, n) = (err Failure.no_range, record s { draws = n })

-- the inputs that are drawn for the draft
abbrev pub draw_inputs : Outside → List InputVar → ℕ → Step (List Text)
draw_inputs o spec count s = from_draw s (generate_inputs o.random spec count s.draws)

abbrev pub input_key : Outside → GenerationJob → ℕ → Text
input_key o job ordinal =
    codes "generation/"
    ++ o.uuid_text job.id
    ++ codes "/"
    ++ decimal job.attempt
    ++ codes "/input-"
    ++ decimal ordinal
    ++ codes ".txt"

unfoldable pub put_inputs : Outside → GenerationJob → ℕ → List Text → Step (List DiffInputRef)
put_inputs o job ordinal [] = pure []
put_inputs o job ordinal (text ∷ texts) =
    let key = input_key o job ordinal in
    put_object o key text >> put_inputs o job (suc ordinal) texts >>= λ refs.
    pure (record { ordinal = ordinal; input_s3_key = key } ∷ refs)

abbrev pub diff_limits : Limits
diff_limits = record { time_ms = 2000; memory_mb = 256; pids = 64; output_bytes = 1000000 }

abbrev pub diff_job : GenerationJob → Text → Text → List DiffInputRef → DiffJob
diff_job job reference brute_force inputs = record {
  job_id = job.id;
  org_id = job.org_id;
  attempt = job.attempt;
  language = Language.python;
  reference_source = reference;
  brute_force_source = brute_force;
  limits = diff_limits;
  compare_mode = CompareMode.whitespace;
  inputs = inputs;
  capture_agreement_outputs = false;
  request_id = none;
}

-- `_submit_attempt`
unfoldable pub submit_attempt : Outside → Settings → GenerationJob → Step Unit
submit_attempt o settings job = asserted job.draft >>= λ draft.
    call (o.generate_solution draft Role.reference) >>= λ reference.
    call (o.generate_solution draft Role.brute_force) >>= λ brute_force.
    draw_inputs o draft.input_spec settings.generation_input_count >>= λ texts.
    put_inputs o job 1 texts >>= λ refs.
    save job (solved reference brute_force) >>= λ (job : GenerationJob).
    send o (diff_job job reference brute_force refs)

abbrev pub accept_draft : Outside → Settings → GenerationJob → GeneratedQuestionDraft → Step Unit
accept_draft o settings job draft =
    let errors = validate_draft draft job.difficulty_band job.language_targets in
    if not (is_empty errors)
    then (save job (rejected errors) >> pure tt)
    else (save job (drafted draft) >>= λ job. submit_attempt o settings job)

-- what `except Exception` does
abbrev pub caught : GenerationJob → Result Failure Unit × State → State
caught job (ok u, s) = s
caught job (err e, s) = set_job job (raised e) s

abbrev pub draft_job : Outside → Settings → Option GenerationJob → State → State
draft_job o settings none s = s
draft_job o settings (some job) s = caught job (
    (save job drafting >>= λ (job : GenerationJob).
    call (o.draft_question job) >>= λ draft. accept_draft o settings job draft)
      s)

-- `_draft_and_start`
unfoldable pub draft_and_start : Outside → Settings → ℕ → ℕ → State → State
draft_and_start o settings job_id org_id s = draft_job o settings (find_job org_id job_id s) s

abbrev pub next_attempt : GenerationJob → GenerationJob
next_attempt j = record j { attempt = j.attempt + 1 }

unfoldable pub retry_attempt : Outside → Settings → GenerationJob → Step Unit
retry_attempt o settings job = save job next_attempt >>= λ job. submit_attempt o settings job

abbrev pub question_of : GenerationJob → GeneratedQuestionDraft → NewQuestion
question_of job draft = record { org_id = job.org_id; content = draft; topic_id = job.topic_id }

abbrev pub published : QuestionCreated → GenerationJob → GenerationJob
published created j = record j {
  question_id = some created.question_id;
  question_version_id = some created.version_id;
  status = GenerationStatus.succeeded;
}

unfoldable pub finalize_success : Outside → GenerationJob → Step Unit
finalize_success o job = asserted job.draft >>= λ draft.
    create_question o (question_of job draft) >>= λ created. save job (published created) >> pure tt

-- the cases on which the solutions disagree
abbrev pub disagreeing : List DiffCaseResult → List DiffCaseResult
disagreeing [] = []
disagreeing (case ∷ cases) =
    let rest = disagreeing cases in if case.agree then rest else case ∷ rest

-- `result.compile_error or …`
abbrev pub failure_error : DiffResult → Option Text → JobError
failure_error result none = JobError.below_threshold result.agreement_pct result.attempt
failure_error result (some log) =
    if is_empty log
    then JobError.below_threshold result.agreement_pct result.attempt
    else JobError.compile_error log

abbrev pub discarded : DiffResult → GenerationJob → GenerationJob
discarded result j = record j {
  status = GenerationStatus.failed;
  discard_log = some (record {
    attempt = result.attempt;
    agreement_pct = result.agreement_pct;
    cases = disagreeing result.cases;
  });
  error = some (failure_error result result.compile_error);
}

unfoldable pub finalize_failure : GenerationJob → DiffResult → Step Unit
finalize_failure job result = save job (discarded result) >> pure tt
