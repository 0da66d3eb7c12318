-- ===== src/Ai/Jobs.antt =====
-- services/ai/app/models, app/repositories and app/clients: the job tables, and what the service
-- reaches outside: the language model, the object store, the queue and the question service.
-- Identifiers are numbers.
use dsa_platform.Prelude.{
  ℕ, Bool, true, false, Option, none, some, List, [], ◌∷◌, ◌++◌, ◌==◌, ◌&&◌, opt_eq, Exec, Result,
  pure, raise, modify_state, ◌>>◌, ◌>>=◌, if◌then◌else◌,
}
use dsa_platform.Prelude.Table.{first, update, or_else}
use dsa_platform.Judge.Contracts.{DiffJob, DiffCaseResult, DiffStatus, DiffResult}
use dsa_platform.Ai.Drafts.{Text, DifficultyBand, GeneratedQuestionDraft, GeneratedTestCase}
use dsa_platform.Ai.Validate.{DraftError}
use dsa_platform.Ai.Inputs.{Random}

pub data GenerationStatus : Type 0 where
  queued drafting validating succeeded failed : GenerationStatus

-- An exception: a failed call, a failed assertion, or a range with no number in it.
pub data Failure : Type 0 where
  call_failed : Text → Failure
  assertion_failed no_range not_found : Failure

-- The `error` column: the data that its text shows.
pub data JobError : Type 0 where
  raised : Failure → JobError
  draft_errors : List DraftError → JobError
  compile_error : Text → JobError
  below_threshold : ℕ × ℕ → ℕ → JobError
  run_failed : DiffStatus → JobError
  no_response : JobError

pub record DiscardLog : Type 0 where
  pub attempt : ℕ
  pub agreement_pct : ℕ × ℕ
  pub cases : List DiffCaseResult

pub record GenerationJob : Type 0 where
  pub id : ℕ
  pub org_id : ℕ
  pub topic_id : ℕ
  pub difficulty_band : DifficultyBand
  pub language_targets : List Text
  pub status : GenerationStatus
  pub attempt : ℕ
  pub draft : Option GeneratedQuestionDraft
  pub reference_solution : Option Text
  pub brute_force_solution : Option Text
  pub question_version_id : Option ℕ
  pub question_id : Option ℕ
  pub discard_log : Option DiscardLog
  pub error : Option JobError

pub data TestCaseGenerationStatus : Type 0 where
  queued generating validating succeeded failed : TestCaseGenerationStatus

pub record TestCaseGenerationJob : Type 0 where
  pub id : ℕ
  pub org_id : ℕ
  pub question_id : ℕ
  pub question_version_id : ℕ
  pub generation_job_id : ℕ
  pub synchronous : Bool
  pub status : TestCaseGenerationStatus
  pub kept_case_count : ℕ
  pub discard_log : Option (List DiffCaseResult)
  pub error : Option JobError

-- `create_question`, as it is asked for
pub record NewQuestion : Type 0 where
  pub org_id : ℕ
  pub content : GeneratedQuestionDraft
  pub topic_id : ℕ

-- What a question service returned.
pub record QuestionCreated : Type 0 where
  pub question_id : ℕ
  pub version_id : ℕ

pub record TestCaseUpload : Type 0 where
  pub upload_input_url : Text
  pub upload_output_url : Text

-- The two tables, the messages sent to `gen_jobs_queue`, the objects and PUT requests, the
-- questions asked for, and the number of random draws.
pub record State : Type 0 where
  pub generation_jobs : List GenerationJob
  pub test_case_jobs : List TestCaseGenerationJob
  pub sent : List DiffJob
  pub objects : List (Text × Text)
  pub puts : List (Text × Text)
  pub created : List NewQuestion
  pub draws : ℕ

pub data Role : Type 0 where
  reference brute_force : Role

-- A call may fail, and its answer may depend on all that happened.
pub record Outside : Type 0 where
  pub draft_question : GenerationJob → State → Result Failure GeneratedQuestionDraft
  pub generate_solution : GeneratedQuestionDraft → Role → State → Result Failure Text
  pub generate_test_cases :
      GeneratedQuestionDraft → ℕ → ℕ → ℕ → State → Result Failure (List GeneratedTestCase)
  pub put_object : Text → Text → State → Result Failure Unit
  pub get_object : Text → State → Result Failure Text
  pub send : DiffJob → State → Result Failure Unit
  pub create_question : NewQuestion → State → Result Failure QuestionCreated
  pub create_test_case_upload : ℕ → ℕ → State → Result Failure TestCaseUpload
  pub put : Text → Text → State → Result Failure Unit
  pub poll : TestCaseGenerationJob → State → Result Failure (Option DiffResult)
  pub in_network_url : Text → Text
  pub uuid_text : ℕ → Text
  pub random : Random
  pub new_job : State → ℕ
  pub new_test_case_job : State → ℕ

-- `app/core/config.py`
pub record Settings : Type 0 where
  pub generation_input_count : ℕ
  pub generation_max_attempts : ℕ
  pub generation_agreement_threshold : ℕ × ℕ
  pub testcase_factory_edge_count : ℕ
  pub testcase_factory_adversarial_count : ℕ
  pub testcase_factory_stress_count : ℕ
  pub testcase_factory_sync_case_count : ℕ

-- A step may raise; what was committed before stays. All changes are committed before the next call.
abbrev pub Step : Type 0 → Type 0
Step A = Exec Failure State A

abbrev pub call : {A : Type 0} → (State → Result Failure A) → Step A
call f s = (f s, s)

-- `assert x is not None`
abbrev pub asserted : {A : Type 0} → Option A → Step A
asserted none = raise Failure.assertion_failed
asserted (some a) = pure a

abbrev pub is_job : ℕ → ℕ → GenerationJob → Bool
is_job org_id job_id j = j.id == job_id && j.org_id == org_id

abbrev pub find_job : ℕ → ℕ → State → Option GenerationJob
find_job org_id job_id s = first (is_job org_id job_id) s.generation_jobs

abbrev pub is_succeeded : GenerationStatus → Bool
is_succeeded GenerationStatus.succeeded = true
is_succeeded _ = false

-- `get_succeeded_by_version`
abbrev pub succeeded_by_version : ℕ → ℕ → State → Option GenerationJob
succeeded_by_version org_id version_id s =
    first
      (λ (j : GenerationJob).
        opt_eq j.question_version_id (some version_id)
        && j.org_id == org_id
        && is_succeeded j.status)
      s.generation_jobs

-- the last row of those where `p`, in the order of their creation
abbrev pub latest : (GenerationJob → Bool) → List GenerationJob → Option GenerationJob
latest p [] = none
latest p (j ∷ js) = or_else (latest p js) (if p j then some j else none)

-- `get_succeeded_by_question`
abbrev pub succeeded_by_question : ℕ → ℕ → State → Option GenerationJob
succeeded_by_question org_id question_id s =
    latest
      (λ (j : GenerationJob).
        opt_eq j.question_id (some question_id) && j.org_id == org_id && is_succeeded j.status)
      s.generation_jobs

abbrev pub find_test_case_job : ℕ → ℕ → State → Option TestCaseGenerationJob
find_test_case_job org_id job_id s =
    first (λ (j : TestCaseGenerationJob). j.id == job_id && j.org_id == org_id) s.test_case_jobs

abbrev pub set_job : GenerationJob → (GenerationJob → GenerationJob) → State → State
set_job job change s = record s {
  generation_jobs = update (is_job job.org_id job.id) change s.generation_jobs;
}

abbrev pub is_test_case_job : TestCaseGenerationJob → TestCaseGenerationJob → Bool
is_test_case_job job j = j.id == job.id && j.org_id == job.org_id

abbrev pub set_test_case_job :
    TestCaseGenerationJob → (TestCaseGenerationJob → TestCaseGenerationJob) → State → State
set_test_case_job job change s = record s {
  test_case_jobs = update (is_test_case_job job) change s.test_case_jobs;
}

-- Assignments to the loaded row and `commit`; the row as it is then.
abbrev pub save : GenerationJob → (GenerationJob → GenerationJob) → Step GenerationJob
save job change = modify_state (set_job job change) >> pure (change job)

abbrev pub save_test_case_job :
    TestCaseGenerationJob
    → (TestCaseGenerationJob → TestCaseGenerationJob)
    → Step TestCaseGenerationJob
save_test_case_job job change = modify_state (set_test_case_job job change) >> pure (change job)

abbrev pub put_object : Outside → Text → Text → Step Unit
put_object o key body =
    call (o.put_object key body)
    >> modify_state (λ s. record s { objects = s.objects ++ ((key, body) ∷ []) })

abbrev pub put : Outside → Text → Text → Step Unit
put o url body =
    call (o.put url body) >> modify_state (λ s. record s { puts = s.puts ++ ((url, body) ∷ []) })

abbrev pub send : Outside → DiffJob → Step Unit
send o job = call (o.send job) >> modify_state (λ s. record s { sent = s.sent ++ (job ∷ []) })

abbrev pub create_question : Outside → NewQuestion → Step QuestionCreated
create_question o q = call (o.create_question q) >>= λ c.
    modify_state (λ s. record s { created = s.created ++ (q ∷ []) }) >> pure c
