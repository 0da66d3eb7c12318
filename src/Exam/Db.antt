-- ===== src/Exam/Db.antt =====
-- services/exam/app/models and app/messaging: the rows of the exam service's tables, the messages
-- that it sends, and one state that holds them. Identifiers are only compared, so they are numbers;
-- a point in time is a whole number of seconds.
use dsa_platform.Prelude.{ℕ, String, Bool, true, false, Option, List}

pub data SessionStatus : Type 0 where
  in_progress submitted expired : SessionStatus

pub data SubmissionStatus : Type 0 where
  queued running completed compile_error error : SubmissionStatus

pub data SubmissionMode : Type 0 where
  run submit : SubmissionMode

pub data ExamStatus : Type 0 where
  scheduled in_progress submitted expired cancelled pending_generation : ExamStatus
  pending_review generation_failed : ExamStatus

pub record Exam : Type 0 where
  pub id : ℕ
  pub org_id : ℕ
  pub blueprint_version_id : ℕ
  pub candidate_email : String
  pub starts_at : ℕ
  pub ends_at : ℕ
  pub status : ExamStatus
  pub review_deadline_at : Option ℕ

pub record TopicEntry : Type 0 where
  pub topic_id : ℕ
  pub difficulty_min : ℕ
  pub difficulty_max : ℕ
  pub question_count : ℕ

pub record BlueprintVersion : Type 0 where
  pub id : ℕ
  pub org_id : ℕ
  pub total_duration_minutes : ℕ
  pub topic_mix : List TopicEntry

pub data SlotStatus : Type 0 where
  pending ready failed : SlotStatus

pub record ExamSlotQuestion : Type 0 where
  pub org_id : ℕ
  pub exam_id : ℕ
  pub ordinal : ℕ
  pub topic_id : ℕ
  pub difficulty_band : String
  pub generation_job_id : ℕ
  pub question_id : Option ℕ
  pub question_version_id : Option ℕ
  pub status : SlotStatus
  pub error : Option String

-- `current_difficulty` is a float on the wire: it is kept in tenths.
pub record ExamSession : Type 0 where
  pub id : ℕ
  pub org_id : ℕ
  pub exam_id : ℕ
  pub candidate_email : String
  pub status : SessionStatus
  pub started_at : ℕ
  pub deadline_at : ℕ
  pub current_difficulty : Option ℕ
  pub current_difficulty_band : Option String

pub record SessionQuestion : Type 0 where
  pub org_id : ℕ
  pub session_id : ℕ
  pub ordinal : ℕ
  pub question_id : ℕ
  pub question_version_id : ℕ
  pub shown_at : Option ℕ

pub record Submission : Type 0 where
  pub id : ℕ
  pub org_id : ℕ
  pub exam_id : ℕ
  pub session_id : Option ℕ
  pub ordinal : Option ℕ
  pub question_version_id : ℕ
  pub language : String
  pub source : String
  pub compare_mode : String
  pub mode : SubmissionMode
  pub status : SubmissionStatus
  pub summary_verdict : Option String
  pub compile_error : Option String

pub record CaseVerdict : Type 0 where
  pub org_id : ℕ
  pub submission_id : ℕ
  pub ordinal : ℕ
  pub verdict : String
  pub runtime_ms : ℕ
  pub memory_kb : ℕ

-- The `type` and the `payload` of an event.
pub data Payload : Type 0 where
  question_assigned : ℕ → ℕ → Payload
  submission : ℕ → String → SubmissionMode → Payload
  verdict : ℕ → Option String → SubmissionStatus → Payload
  followup_pushed : ℕ → ℕ → String → Payload

pub record SessionEvent : Type 0 where
  pub org_id : ℕ
  pub session_id : ℕ
  pub seq : ℕ
  pub payload : Payload
  pub question_version_id : Option ℕ

pub record Db : Type 0 where
  pub exams : List Exam
  pub versions : List BlueprintVersion
  pub slots : List ExamSlotQuestion
  pub sessions : List ExamSession
  pub questions : List SessionQuestion
  pub submissions : List Submission
  pub verdicts : List CaseVerdict
  pub events : List SessionEvent

pub record CaseRef : Type 0 where
  pub ordinal : ℕ
  pub input_s3_key : String
  pub expected_output_s3_key : String

pub record SubmissionJob : Type 0 where
  pub submission_id : ℕ
  pub org_id : ℕ
  pub language : String
  pub source : String
  pub compare_mode : String
  pub time_ms : ℕ
  pub memory_mb : ℕ
  pub cases : List CaseRef

pub data Message : Type 0 where
  submission_job : SubmissionJob → Message
  session_complete : ℕ → ℕ → ℕ → Message

-- The entry of a session in Redis: its status, its deadline and the key's time to live.
pub record Mirror : Type 0 where
  pub session_id : ℕ
  pub status : SessionStatus
  pub deadline : ℕ
  pub ttl : ℕ

-- `db` is what the open database session sees, `saved` what has been committed; the queue, the
-- pub/sub channel and Redis take effect at once.
pub record World : Type 0 where
  pub db : Db
  pub saved : Db
  pub sent : List Message
  pub published : List SessionEvent
  pub mirrors : List Mirror

-- core/exceptions.py, with the assertion failures of the handlers
pub data Error : Type 0 where
  not_found : String → Error
  exam_window_closed session_locked insufficient_question_pool upstream : Error
  assertion : Error

abbrev pub commit : World → World
commit w = record w { saved = w.db }

-- `get_db`: a request ends by closing its session, which drops what was not committed.
abbrev pub close : World → World
close w = record w { db = w.saved }

abbrev pub is_in_progress : SessionStatus → Bool
is_in_progress SessionStatus.in_progress = true
is_in_progress SessionStatus.submitted = false
is_in_progress SessionStatus.expired = false

abbrev pub is_expired : SessionStatus → Bool
is_expired SessionStatus.expired = true
is_expired SessionStatus.submitted = false
is_expired SessionStatus.in_progress = false

abbrev pub is_run : SubmissionMode → Bool
is_run run = true
is_run submit = false
