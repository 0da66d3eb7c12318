-- ===== src/Judge/Contracts.antt =====
-- services/judge/app/contracts.py and app/gen_contracts.py. Texts and byte strings are lists of
-- numbers; the bounds of `Limits` are checked when a message is decoded.
use dsa_platform.Prelude.{ℕ, Bool, Option, List}

pub data Language : Type 0 where
  python java cpp : Language

pub data Verdict : Type 0 where
  ac wa tle mle re ce : Verdict

pub data CompareMode : Type 0 where
  exact whitespace : CompareMode

pub record Limits : Type 0 where
  pub time_ms : ℕ
  pub memory_mb : ℕ
  pub pids : ℕ
  pub output_bytes : ℕ

pub record TestCaseRef : Type 0 where
  pub ordinal : ℕ
  pub input_s3_key : List ℕ
  pub expected_output_s3_key : List ℕ

pub record SubmissionJob : Type 0 where
  pub submission_id : ℕ
  pub org_id : ℕ
  pub language : Language
  pub source : List ℕ
  pub compare_mode : CompareMode
  pub limits : Limits
  pub cases : List TestCaseRef
  pub request_id : Option (List ℕ)

pub record CaseResult : Type 0 where
  pub ordinal : ℕ
  pub verdict : Verdict
  pub runtime_ms : ℕ
  pub memory_kb : ℕ

pub data SubmissionStatus : Type 0 where
  completed compile_error : SubmissionStatus

pub record VerdictMessage : Type 0 where
  pub submission_id : ℕ
  pub org_id : ℕ
  pub status : SubmissionStatus
  pub summary_verdict : Verdict
  pub compile_error : Option (List ℕ)
  pub cases : List CaseResult
  pub request_id : Option (List ℕ)

pub record DiffInputRef : Type 0 where
  pub ordinal : ℕ
  pub input_s3_key : List ℕ

-- `results_queue`, the place of the answer, is read by the worker only.
pub record DiffJob : Type 0 where
  pub job_id : ℕ
  pub org_id : ℕ
  pub attempt : ℕ
  pub language : Language
  pub reference_source : List ℕ
  pub brute_force_source : List ℕ
  pub limits : Limits
  pub compare_mode : CompareMode
  pub inputs : List DiffInputRef
  pub capture_agreement_outputs : Bool
  pub request_id : Option (List ℕ)

-- The outputs stand for their base64 form.
pub record DiffCaseResult : Type 0 where
  pub ordinal : ℕ
  pub agree : Bool
  pub reference_verdict : Verdict
  pub brute_force_verdict : Verdict
  pub reference_output : Option (List ℕ)
  pub brute_force_output : Option (List ℕ)

pub data DiffStatus : Type 0 where
  completed reference_compile_error brute_force_compile_error : DiffStatus

-- `agreement_pct` is the quotient of its two parts.
pub record DiffResult : Type 0 where
  pub job_id : ℕ
  pub org_id : ℕ
  pub attempt : ℕ
  pub status : DiffStatus
  pub agreement_pct : ℕ × ℕ
  pub compile_error : Option (List ℕ)
  pub cases : List DiffCaseResult
  pub request_id : Option (List ℕ)
