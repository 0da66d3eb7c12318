-- ===== src/Ai/Factory.antt =====
-- services/ai/app/services/testcase_generation.py
use dsa_platform.Prelude.{
  ℕ, suc, ◌-◌, ◌/◌, Bool, true, false, Option, none, some, List, [], ◌∷◌, ◌++◌, codes, not,
  is_empty, if◌then◌else◌, Result, ok, err, pure, raise, modify_state, ◌>>=◌, ◌>>◌,
}
use dsa_platform.Prelude.Decimal.{decimal}
use dsa_platform.Judge.Contracts.{
  Language, CompareMode, DiffInputRef, DiffJob, DiffCaseResult, DiffStatus, DiffResult,
}
use dsa_platform.Ai.Drafts.{Text, InputVar, GeneratedQuestionDraft, GeneratedTestCase}
use dsa_platform.Ai.Validate.{validate_input}
use dsa_platform.Ai.Jobs.{
  TestCaseGenerationStatus, Failure, JobError, GenerationJob, TestCaseGenerationJob, TestCaseUpload,
  State, Outside, Settings, Step, call, asserted, find_job, succeeded_by_version,
  succeeded_by_question, find_test_case_job, set_test_case_job, save_test_case_job, put_object, put,
  send,
}
use dsa_platform.Ai.Generation.{diff_limits}

abbrev pub new_factory_job : ℕ → ℕ → ℕ → ℕ → ℕ → Bool → TestCaseGenerationJob
new_factory_job id org_id question_id version_id source_id synchronous = record {
  id = id;
  org_id = org_id;
  question_id = question_id;
  question_version_id = version_id;
  generation_job_id = source_id;
  synchronous = synchronous;
  status = TestCaseGenerationStatus.queued;
  kept_case_count = 0;
  discard_log = none;
  error = none;
}

abbrev pub is_accepted : List InputVar → GeneratedTestCase → Bool
is_accepted spec candidate = is_empty (validate_input candidate.input spec)

-- `[c for c in candidates if not validate_input(c.input, draft.input_spec)]`
unfoldable pub accepted : List InputVar → List GeneratedTestCase → List GeneratedTestCase
accepted spec [] = []
accepted spec (c ∷ cs) =
    let rest = accepted spec cs in if is_accepted spec c then c ∷ rest else rest

-- `_generate_and_validate_candidates`
abbrev pub candidates_for :
    Outside → GeneratedQuestionDraft → ℕ → ℕ → ℕ → Step (List GeneratedTestCase)
candidates_for o draft edge_count adversarial_count stress_count =
    call (o.generate_test_cases draft edge_count adversarial_count stress_count) >>= λ cs.
    pure (accepted draft.input_spec cs)

abbrev pub case_key : Outside → TestCaseGenerationJob → ℕ → Text
case_key o job ordinal =
    codes "test-cases/" ++ o.uuid_text job.id ++ codes "/input-" ++ decimal ordinal ++ codes ".txt"

-- `_upload_candidates`
unfoldable pub upload_candidates :
    Outside → TestCaseGenerationJob → ℕ → List GeneratedTestCase → Step (List DiffInputRef)
upload_candidates o job ordinal [] = pure []
upload_candidates o job ordinal (c ∷ cs) =
    let key = case_key o job ordinal in
    put_object o key c.input >> upload_candidates o job (suc ordinal) cs >>= λ refs.
    pure (record { ordinal = ordinal; input_s3_key = key } ∷ refs)

-- `_build_diff_job`
abbrev pub build_diff_job : TestCaseGenerationJob → GenerationJob → List DiffInputRef → Step DiffJob
build_diff_job job source refs = asserted source.reference_solution >>= λ reference.
    asserted source.brute_force_solution >>= λ brute_force. pure (record {
      job_id = job.id;
      org_id = job.org_id;
      attempt = 1;
      language = Language.python;
      reference_source = reference;
      brute_force_source = brute_force;
      limits = diff_limits;
      compare_mode = CompareMode.whitespace;
      inputs = refs;
      capture_agreement_outputs = true;
      request_id = none;
    })

abbrev pub generating : TestCaseGenerationJob → TestCaseGenerationJob
generating j = record j { status = TestCaseGenerationStatus.generating }

abbrev pub checking : TestCaseGenerationJob → TestCaseGenerationJob
checking j = record j { status = TestCaseGenerationStatus.validating }

abbrev pub kept_none : TestCaseGenerationJob → TestCaseGenerationJob
kept_none j = record j { status = TestCaseGenerationStatus.succeeded; kept_case_count = 0 }

abbrev pub fail_factory : JobError → TestCaseGenerationJob → TestCaseGenerationJob
fail_factory e j = record j { status = TestCaseGenerationStatus.failed; error = some e }

abbrev pub submit_candidates :
    Outside → TestCaseGenerationJob → GenerationJob → List GeneratedTestCase → Step Unit
submit_candidates o job source cs = upload_candidates o job 1 cs >>= λ refs.
    save_test_case_job job checking >>= λ (job : TestCaseGenerationJob).
    build_diff_job job source refs >>= λ diff. send o diff

abbrev pub submit_or_finish :
    Outside → TestCaseGenerationJob → GenerationJob → List GeneratedTestCase → Step Unit
submit_or_finish o job source cs =
    if is_empty cs
    then (save_test_case_job job kept_none >> pure tt)
    else submit_candidates o job source cs

-- `_run_async_factory`, between `try` and `except`
abbrev pub run_steps : Outside → Settings → TestCaseGenerationJob → Step Unit
run_steps o settings job s =
    (asserted (find_job job.org_id job.generation_job_id s) >>= λ (source : GenerationJob).
    asserted source.draft >>= λ draft.
    save_test_case_job job generating >>= λ (job : TestCaseGenerationJob).
    candidates_for o draft settings.testcase_factory_edge_count
      settings.testcase_factory_adversarial_count settings.testcase_factory_stress_count
    >>= λ cs. submit_or_finish o job source cs)
      s

abbrev pub caught_factory : TestCaseGenerationJob → Result Failure Unit × State → State
caught_factory job (ok u, s) = s
caught_factory job (err e, s) = set_test_case_job job (fail_factory (JobError.raised e)) s

abbrev pub run_found : Outside → Settings → Option TestCaseGenerationJob → State → State
run_found o settings none s = s
run_found o settings (some job) s = caught_factory job (run_steps o settings job s)

unfoldable pub run_async_factory : Outside → Settings → ℕ → ℕ → State → State
run_async_factory o settings job_id org_id s =
    run_found o settings (find_test_case_job org_id job_id s) s

-- the job whose solutions and input format are used
abbrev pub source_job : ℕ → ℕ → Option ℕ → State → Option GenerationJob
source_job org_id version_id none s = succeeded_by_version org_id version_id s
source_job org_id version_id (some question_id) s = succeeded_by_question org_id question_id s

abbrev pub found_source : Option GenerationJob → Step GenerationJob
found_source none = raise Failure.not_found
found_source (some source) = pure source

abbrev pub add_factory_job : TestCaseGenerationJob → State → State
add_factory_job job s = record s { test_case_jobs = s.test_case_jobs ++ (job ∷ []) }

abbrev pub create_factory_job :
    Outside → ℕ → ℕ → Option ℕ → Bool → Step (TestCaseGenerationJob × GenerationJob)
create_factory_job o org_id version_id source_question_id synchronous s =
    (found_source (source_job org_id version_id source_question_id s)
        >>= λ (source : GenerationJob). asserted source.question_id >>= λ question_id.
            let job =
              new_factory_job (o.new_test_case_job s) org_id question_id version_id source.id
                synchronous in
            modify_state (add_factory_job job) >> pure (job, source))
      s

-- One case on which the solutions agree: its input and the reference's output are put where the
-- question service tells. The output stands for its base64 form.
abbrev pub keep_case : Outside → TestCaseGenerationJob → DiffCaseResult → Step Unit
keep_case o job case = asserted case.reference_output >>= λ output.
    call (o.get_object (case_key o job case.ordinal)) >>= λ input.
    call (o.create_test_case_upload job.org_id job.question_id) >>= λ (upload : TestCaseUpload).
    put o (o.in_network_url upload.upload_input_url) input
    >> put o (o.in_network_url upload.upload_output_url) output

abbrev pub tally : DiffCaseResult → ℕ × List DiffCaseResult → ℕ × List DiffCaseResult
tally case (kept, gone) = if case.agree then (suc kept, gone) else (kept, case ∷ gone)

-- the number of cases kept, and the discarded ones
unfoldable pub keep_cases :
    Outside → TestCaseGenerationJob → List DiffCaseResult → Step (ℕ × List DiffCaseResult)
keep_cases o job [] = pure (0, [])
keep_cases o job (case ∷ cases) =
    (if case.agree then keep_case o job case else pure tt) >> keep_cases o job cases >>= λ counts.
    pure (tally case counts)

abbrev pub finished : ℕ × List DiffCaseResult → TestCaseGenerationJob → TestCaseGenerationJob
finished (kept, gone) j = record j {
  status = TestCaseGenerationStatus.succeeded;
  kept_case_count = kept;
  discard_log = if is_empty gone then j.discard_log else some gone;
}

abbrev pub is_completed : DiffStatus → Bool
is_completed DiffStatus.completed = true
is_completed DiffStatus.reference_compile_error = false
is_completed DiffStatus.brute_force_compile_error = false

-- `result.compile_error or …`
abbrev pub run_error : DiffResult → Option Text → JobError
run_error result none = JobError.run_failed result.status
run_error result (some log) =
    if is_empty log then JobError.run_failed result.status else JobError.compile_error log

unfoldable pub finalize_factory_result : Outside → TestCaseGenerationJob → DiffResult → Step Unit
finalize_factory_result o job result =
    if not (is_completed result.status)
    then (save_test_case_job job (fail_factory (run_error result result.compile_error)) >> pure tt)
    else (keep_cases o job result.cases >>= λ counts.
        save_test_case_job job (finished counts) >> pure tt)

abbrev pub take_answer : Outside → TestCaseGenerationJob → Option DiffResult → Step Unit
take_answer o job none = save_test_case_job job (fail_factory JobError.no_response) >> pure tt
take_answer o job (some result) = finalize_factory_result o job result

abbrev pub await_answer :
    Outside → TestCaseGenerationJob → GenerationJob → List GeneratedTestCase → Step Unit
await_answer o job source cs =
    if is_empty cs
    then (save_test_case_job job kept_none >> pure tt)
    else (submit_candidates o job source cs >> call (o.poll job) >>= λ answer.
        take_answer o job answer)

-- `_run_sync_factory`, between `try` and `except`; `_poll_for_result` is `poll`
abbrev pub sync_steps : Outside → Settings → TestCaseGenerationJob → GenerationJob → Step Unit
sync_steps o settings job source = asserted source.draft >>= λ draft.
    save_test_case_job job generating >>= λ (job : TestCaseGenerationJob).
    let count = settings.testcase_factory_sync_case_count in
    candidates_for o draft (count / 3) (count / 3) (count - count / 3 - count / 3) >>= λ cs.
    await_answer o job source cs

unfoldable pub run_sync_factory :
    Outside → Settings → TestCaseGenerationJob → GenerationJob → State → State
run_sync_factory o settings job source s = caught_factory job (sync_steps o settings job source s)

-- `start_factory_job`, up to the detached task where it is not synchronous
unfoldable pub start_factory_job :
    Outside → Settings → ℕ → ℕ → Option ℕ → Bool → Step TestCaseGenerationJob
start_factory_job o settings org_id version_id source_question_id synchronous =
    create_factory_job o org_id version_id source_question_id synchronous
    >>= λ (created : TestCaseGenerationJob × GenerationJob).
        (if synchronous
          then modify_state (run_sync_factory o settings (created.0) (created.1))
          else pure tt)
        >> pure (created.0)
