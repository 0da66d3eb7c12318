-- ===== src/Exam/Tests.antt =====
-- One exam, its candidate's session and the verdict on a submission, run on concrete data; and the
-- theorems about the exam service at that data.
use mathlib.Core.Option
use dsa_platform.Prelude.{
  ◌+◌, ℕ, zero, suc, ◌+◌, ◌≤◌, ◌<◌, ◌≡◌, refl, Bool, true, false, none, some, List, [], ◌∷◌, arith,
  ok, err, length, take,
}
use dsa_platform.Prelude.Table.{first, update, max_of, select, sort_by}
use dsa_platform.Prelude.Keyed.{has_key}
use dsa_platform.Exam.Db.{
  Exam, ExamStatus, ExamSession, SessionStatus, SessionQuestion, BlueprintVersion, Submission,
  SubmissionMode, SubmissionStatus, Db, World, session_locked,
}
use dsa_platform.Exam.Events.{emit}
use dsa_platform.Exam.Submissions.{CaseKey}
use dsa_platform.Exam.Verdicts.Settle.{
  VerdictStatus, VerdictMessage, AiClient, process_verdict_message, deliver, settle, announce,
  signal_difficulty, upsert_all, upsert_case_verdict, signal_answer,
}
use dsa_platform.Exam.Verdicts.Redelivery.{first_verdict_wins}
use dsa_platform.Exam.Verdicts.Rows.{KeysUnique, process_verdict_message-KeysUnique}
use dsa_platform.Exam.Sessions.Rows.{Services, QuestionRef, find_session}
use dsa_platform.Exam.Sessions.Handlers.{Stop, start_session, submit, expire, list_slots}
use dsa_platform.Exam.Sessions.Assign.{pool_of, choose, draw, number, assign_from, add_questions}
use dsa_platform.Exam.Sessions.Numbering.{IsSampler, ordinals}
use dsa_platform.Exam.Sessions.Starting.{StartOutcome, start_outcome, start_again}
use dsa_platform.Exam.Sessions.Questions.{Numbered, start_numbers}
use dsa_platform.Exam.Sessions.Locking.{IsReady, completions, locks, session_id}
use dsa_platform.Exam.Sessions.Counting.{IsFresh}
use dsa_platform.Exam.Sessions.Requests.{Request, serve_all, lost_in_all, end_announced_once}
use dsa_platform.Exam.Sessions.Submitting.{SubmitOutcome, submit_too_late, submit_in_time}

abbrev sampled : CaseKey
sampled = record {
  ordinal = 1;
  is_sample = true;
  input_s3_key = "a/in";
  expected_output_s3_key = "a/out";
}

abbrev hidden : CaseKey
hidden = record {
  ordinal = 2;
  is_sample = false;
  input_s3_key = "b/in";
  expected_output_s3_key = "b/out";
}

abbrev any_session : ExamSession → Bool
any_session e = true

next_session : Db → ℕ
next_session db = suc (max_of any_session session_id db.sessions)

-- One question for each difficulty, the first of a pool, and identifiers above all in use.
abbrev services : Services
services = record {
  published =
      λ org_id topic_id d. ok (record { question_id = 10 + d; published_version_id = 20 + d } ∷ []);
  content = λ org_id version_id. ok "statement";
  cases = λ org_id version_id. ok (sampled ∷ hidden ∷ []);
  sample = λ version candidate index pool k. take k pool;
  new_session_id = next_session;
  new_submission_id = λ db. suc (length db.submissions);
}

length-take_le : (pool : List QuestionRef) (k : ℕ) → k ≤ length pool → length (take k pool) ≡ k
length-take_le pool zero h = refl
length-take_le [] (suc k) h = elim h [ ]
length-take_le (x ∷ xs) (suc k) h = omega (arith, length-take_le xs k (omega arith))

services-IsSampler : IsSampler services
services-IsSampler = record { size = λ version candidate index pool k h. length-take_le pool k h }

above_all :
    (n : ℕ) (es : List ExamSession)
    → max_of any_session session_id es < n
    → first (has_key session_id n) es ≡ none
unfolding first max_of
above_all n [] h = refl
above_all n (e ∷ es) h = ground (arith, above_all n es)

services-IsFresh : IsFresh services
unfolding next_session
services-IsFresh = record {
  session_id_new =
      λ db. above_all (suc (max_of any_session session_id db.sessions)) db.sessions (omega arith);
}

abbrev exam : Exam
exam = record {
  id = 7;
  org_id = 1;
  blueprint_version_id = 5;
  candidate_email = "c@example.org";
  starts_at = 100;
  ends_at = 9000;
  status = ExamStatus.scheduled;
  review_deadline_at = none;
}

abbrev version : BlueprintVersion
version = record {
  id = 5;
  org_id = 1;
  total_duration_minutes = 60;
  topic_mix =
      record { topic_id = 3; difficulty_min = 1; difficulty_max = 2; question_count = 2 }
      ∷ record { topic_id = 4; difficulty_min = 4; difficulty_max = 4; question_count = 1 }
      ∷ [];
}

abbrev empty : Db
empty = record {
  exams = exam ∷ [];
  versions = version ∷ [];
  slots = [];
  sessions = [];
  questions = [];
  submissions = [];
  verdicts = [];
  events = [];
}

abbrev nothing_yet : World
nothing_yet = record { db = empty; saved = empty; sent = []; published = []; mirrors = [] }

nothing_yet-IsReady : IsReady (λ id. 0) nothing_yet
unfolding first
nothing_yet-IsReady = record {
  closed = refl;
  counts = record { keyed = tt; counted = λ sid. refl };
}

abbrev session : ExamSession
session = record {
  id = 1;
  org_id = 1;
  exam_id = 7;
  candidate_email = "c@example.org";
  status = SessionStatus.in_progress;
  started_at = 200;
  deadline_at = 3800;
  current_difficulty = none;
  current_difficulty_band = none;
}

abbrev started : World
started = (start_session services 200 1 7 "c@example.org" nothing_yet).1

start_opens_session : (start_session services 200 1 7 "c@example.org" nothing_yet).0 ≡ ok session
unfolding start_session first list_slots select sort_by next_session max_of pool_of draw choose
    assign_from add_questions number
start_opens_session = refl

start_assigns_in_order : ordinals started.db.questions ≡ 1 ∷ 2 ∷ 3 ∷ []
unfolding start_session first list_slots select sort_by next_session max_of pool_of draw choose
    assign_from add_questions number
start_assigns_in_order = refl

start_outcome_example :
    StartOutcome 1 200 1 7 exam nothing_yet
      (start_session services 200 1 7 "c@example.org" nothing_yet)
unfolding first next_session max_of
start_outcome_example = start_outcome services 200 1 7 "c@example.org" exam nothing_yet refl refl

start_again_example :
    let again = start_session services 5000 1 7 "other@example.org" started in
    (again.0 ≡ ok (expire session)) × (again.1.db.questions ≡ started.db.questions)
start_again_example =
    start_again services 200 5000 1 7 "c@example.org" "other@example.org" exam nothing_yet
      {e = session} {w' = started} (unfold first in refl) (unfold first in refl)
      (unfold start_session first list_slots select sort_by next_session max_of pool_of draw choose
          assign_from add_questions number in
        refl)

start_numbers_example :
    Numbered 3 nothing_yet (start_session services 200 1 7 "c@example.org" nothing_yet)
unfolding first list_slots select sort_by
start_numbers_example =
    start_numbers services services-IsSampler 200 1 7 "c@example.org" exam version nothing_yet refl
      refl refl refl refl

abbrev question : SessionQuestion
question = record {
  org_id = 1;
  session_id = 1;
  ordinal = 1;
  question_id = 11;
  question_version_id = 21;
  shown_at = some 210;
}

-- The session with one question, a stored submission and nothing sent yet.
abbrev graded : Submission
graded = record {
  id = 1;
  org_id = 1;
  exam_id = 7;
  session_id = some 1;
  ordinal = some 1;
  question_version_id = 21;
  language = "python";
  source = "print(1)";
  compare_mode = "whitespace";
  mode = SubmissionMode.submit;
  status = SubmissionStatus.queued;
  summary_verdict = none;
  compile_error = none;
}

abbrev under_way : Db
under_way = record empty {
  sessions = session ∷ [];
  questions = question ∷ [];
  submissions = graded ∷ [];
}

abbrev running : World
running = record { db = under_way; saved = under_way; sent = []; published = []; mirrors = [] }

submit_too_late_example :
    let (r, w') = submit services 3800 1 7 1 "python" "print(2)" SubmissionMode.submit running in
    (r ≡ err session_locked)
    × (w'.db.submissions ≡ graded ∷ [])
    × (find_session 1 7 w'.saved ≡ some (expire session))
submit_too_late_example =
    submit_too_late services 3800 1 7 1 "python" "print(2)" SubmissionMode.submit running
      {e = session} (unfold first in refl) refl (omega arith)

submit_in_time_example :
    SubmitOutcome services 3799 1 7 1 "java" "class A" SubmissionMode.run running {e = session}
      (unfold first in refl)
      refl
      (submit services 3799 1 7 1 "java" "class A" SubmissionMode.run running)
submit_in_time_example =
    submit_in_time services 3799 1 7 1 "java" "class A" SubmissionMode.run running {e = session}
      (unfold first in refl) refl (omega arith)

abbrev accepted : VerdictMessage
accepted = record {
  submission_id = 1;
  org_id = 1;
  status = VerdictStatus.completed;
  summary_verdict = "AC";
  compile_error = none;
  cases =
      record { ordinal = 1; verdict = "AC"; runtime_ms = 5; memory_kb = 100 }
      ∷ record { ordinal = 2; verdict = "AC"; runtime_ms = 6; memory_kb = 100 }
      ∷ [];
}

abbrev late_failure : VerdictMessage
late_failure = record accepted {
  status = VerdictStatus.compile_error;
  summary_verdict = "CE";
  cases = [];
}

abbrev ai : AiClient
ai signal = some (35, "hard")

first_verdict_wins_example :
    process_verdict_message ai 900 late_failure (process_verdict_message ai 800 accepted running)
    ≡ process_verdict_message ai 800 accepted running
first_verdict_wins_example =
    first_verdict_wins ai ai 800 900 accepted late_failure running refl refl

process_verdict_message-KeysUnique_example :
    KeysUnique (process_verdict_message ai 800 accepted running).db.verdicts
process_verdict_message-KeysUnique_example =
    process_verdict_message-KeysUnique ai 800 accepted running tt

-- The second verdict for one submission is dropped, and the first stands in the session's log.
verdict_signals :
    Option.map
      (λ (e : ExamSession). e.current_difficulty)
      (find_session 1 7 (process_verdict_message ai 800 accepted running).db)
    ≡ some (some 35)
unfolding process_verdict_message deliver announce settle emit signal_difficulty signal_answer first
    select update upsert_all upsert_case_verdict max_of
verdict_signals = refl

abbrev stopped_day : List Request
stopped_day =
    Request.start 200 1 7 "c@example.org"
    ∷ Request.send 300 1 7 1 "python" "print(1)" SubmissionMode.submit
    ∷ Request.verdict 310 accepted
    ∷ Request.stopped Stop.at_queue 4000 1 7
    ∷ Request.view 4001 1 7
    ∷ Request.verdict 4002 accepted
    ∷ []

end_announced_once_example :
    let w' = serve_all services ai stopped_day nothing_yet in
    completions 1 w'.sent + lost_in_all services ai stopped_day nothing_yet 1
    ≡ locks (first (has_key session_id 1) w'.db.sessions)
end_announced_once_example =
    end_announced_once services services-IsFresh ai stopped_day nothing_yet 1 nothing_yet-IsReady
