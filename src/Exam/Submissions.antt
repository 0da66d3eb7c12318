-- ===== src/Exam/Submissions.antt =====
-- services/exam/app/services/submissions.py and app/repositories/submissions.py
use dsa_platform.Prelude.{
  ℕ, String, Bool, Option, none, some, List, [], ◌∷◌, ◌++◌, map, ◌==◌, ◌&&◌, Result, ok, err, Exec,
  if◌then◌else◌,
}
use dsa_platform.Prelude.Table.{first, select, sort_by}
use dsa_platform.Exam.Db.{
  Exam, Submission, SubmissionMode, SubmissionStatus, CaseRef, CaseVerdict, SubmissionJob, Error,
  World, Db, Payload, submission_job, not_found, commit, is_run,
}
use dsa_platform.Exam.Events.{emit}

pub record CaseKey : Type 0 where
  pub ordinal : ℕ
  pub is_sample : Bool
  pub input_s3_key : String
  pub expected_output_s3_key : String

-- `list_version_test_cases` of the question service: the keys of a version, or a failed call.
abbrev pub CaseClient : Type 0
CaseClient = ℕ → ℕ → Result Error (List CaseKey)

pub record NewSubmission : Type 0 where
  pub org_id : ℕ
  pub exam_id : ℕ
  pub question_version_id : ℕ
  pub language : String
  pub source : String
  pub compare_mode : String
  pub session_id : Option ℕ
  pub ordinal : Option ℕ
  pub mode : SubmissionMode

abbrev pub default_time_ms : ℕ
default_time_ms = 2000

abbrev pub default_memory_mb : ℕ
default_memory_mb = 256

abbrev pub find_exam : ℕ → ℕ → Db → Option Exam
find_exam org_id exam_id db = first (λ e. e.id == exam_id && e.org_id == org_id) db.exams

unfoldable pub create_submission : ℕ → NewSubmission → Submission
create_submission id new = record {
  id = id;
  org_id = new.org_id;
  exam_id = new.exam_id;
  session_id = new.session_id;
  ordinal = new.ordinal;
  question_version_id = new.question_version_id;
  language = new.language;
  source = new.source;
  compare_mode = new.compare_mode;
  mode = new.mode;
  status = SubmissionStatus.queued;
  summary_verdict = none;
  compile_error = none;
}

-- The samples for a trial run, all cases for a submit; no case at all is an error.
unfoldable pub keys_for : SubmissionMode → List CaseKey → Result Error (List CaseKey)
keys_for mode keys =
    let kept = if is_run mode then select (λ (k : CaseKey). k.is_sample) keys else keys in
    elim kept [
      | [] ↦ err (
          if is_run mode
          then not_found "This question has no sample test cases to run"
          else not_found "No test cases for this question version")
      | k ∷ rest ↦ ok (k ∷ rest)
    ]

abbrev pub case_ref : CaseKey → CaseRef
case_ref k = record {
  ordinal = k.ordinal;
  input_s3_key = k.input_s3_key;
  expected_output_s3_key = k.expected_output_s3_key;
}

-- the row, its commit, the job for the judge, and the event if a session is open
enqueue : Submission → List CaseKey → World → World
unfolding emit
enqueue s keys w =
    let stored =
      commit (record w { db = record w.db { submissions = w.db.submissions ++ (s ∷ []) } }) in
    let job : SubmissionJob = record {
      submission_id = s.id;
      org_id = s.org_id;
      language = s.language;
      source = s.source;
      compare_mode = s.compare_mode;
      time_ms = default_time_ms;
      memory_mb = default_memory_mb;
      cases = map case_ref keys;
    } in
    let told = record stored { sent = stored.sent ++ (submission_job job ∷ []) } in
    elim s.session_id [
      | none ↦ told
      | some sid ↦
          emit s.org_id sid (Payload.submission s.id s.language s.mode) (some s.question_version_id)
            told
    ]

-- `id` is the identifier that the database gives the new row.
unfoldable pub create_and_enqueue : CaseClient → ℕ → NewSubmission → Exec Error World Submission
unfolding enqueue create_submission
create_and_enqueue client id new w = elim (find_exam new.org_id new.exam_id w.db) [
  | none ↦ (err (not_found "Exam not found"), w)
  | some exam ↦ elim (client new.org_id new.question_version_id) [
    | err e ↦ (err e, w)
    | ok keys ↦ elim (keys_for new.mode keys) [
      | err e ↦ (err e, w)
      | ok kept ↦ let s = create_submission id new in (ok s, enqueue s kept w)
    ]
  ]
]

abbrev pub find_submission : ℕ → ℕ → Db → Option Submission
find_submission org_id id db = first (λ s. s.id == id && s.org_id == org_id) db.submissions

unfoldable pub get_submission_detail : ℕ → ℕ → Exec Error World (Submission × List CaseVerdict)
get_submission_detail org_id id w = elim (find_submission org_id id w.db) [
  | none ↦ (err (not_found "Submission not found"), w)
  | some s ↦ (
    ok (
      s,
      sort_by (λ (v : CaseVerdict). v.ordinal)
          (select (λ (v : CaseVerdict). v.submission_id == id && v.org_id == org_id) w.db.verdicts),
    ),
    w,
  )
]
