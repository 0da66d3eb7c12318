-- ===== src/Ai/Consumer.antt =====
-- services/ai/app/services/gen_consumer.py. A message that raises is delivered again.
use dsa_platform.Prelude.{
  ℕ, ◌*◌, Bool, Option, none, some, ◌==◌, ◌&&◌, not, ltb, leb, if◌then◌else◌, pure,
}
use dsa_platform.Judge.Contracts.{DiffResult}
use dsa_platform.Ai.Jobs.{
  GenerationJob, TestCaseGenerationJob, Outside, Settings, Step, find_job, find_test_case_job,
}
use dsa_platform.Ai.Generation.{retry_attempt, finalize_success, finalize_failure}
use dsa_platform.Ai.Factory.{is_completed, finalize_factory_result}

-- `a >= b` on quotients
abbrev pub at_least : ℕ × ℕ → ℕ × ℕ → Bool
at_least (a, b) (c, d) = leb (c * b) (a * d)

-- The solutions agree on enough inputs.
abbrev pub passed : Settings → DiffResult → Bool
passed settings result =
    is_completed result.status
    && at_least result.agreement_pct settings.generation_agreement_threshold

-- what a result does to the job that it is about
unfoldable pub settle_attempt : Outside → Settings → GenerationJob → DiffResult → Step Unit
settle_attempt o settings job result =
    if passed settings result
    then finalize_success o job
    else if ltb job.attempt settings.generation_max_attempts
    then retry_attempt o settings job
    else finalize_failure job result

abbrev pub take_result : Outside → Settings → Option GenerationJob → DiffResult → Step Unit
take_result o settings none result = pure tt
take_result o settings (some job) result =
    if not (job.attempt == result.attempt) then pure tt else settle_attempt o settings job result

abbrev pub dispatch : Outside → Settings → Option TestCaseGenerationJob → DiffResult → Step Unit
dispatch o settings (some job) result s = finalize_factory_result o job result s
dispatch o settings none result s =
    take_result o settings (find_job result.org_id result.job_id s) result s

unfoldable pub process_gen_result : Outside → Settings → DiffResult → Step Unit
process_gen_result o settings result s =
    dispatch o settings (find_test_case_job result.org_id result.job_id s) result s
