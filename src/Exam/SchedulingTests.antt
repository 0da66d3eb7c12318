-- ===== src/Exam/SchedulingTests.antt =====
-- An AI-proposed exam with one slot, and the theorem about exams in review at it.
use dsa_platform.Prelude.{◌+◌, refl, true, none, some, List, [], ◌∷◌, arith, ok}
use dsa_platform.Prelude.Table.{max_of}
use dsa_platform.Prelude.Keyed.{first_above}
use dsa_platform.Exam.Db.{Exam, ExamStatus, ExamSlotQuestion, SlotStatus}
use dsa_platform.Exam.Scheduling.{Board, JobStatus, Services, Request, serve_all}
use dsa_platform.Exam.Scheduling.Ready.{IsReviewed}
use dsa_platform.Exam.Scheduling.Reachable.{IsFresh, serve_all-IsReviewed}

abbrev pub services : Services
services = record {
  propose_blueprint = λ s. ok (record { topic_mix = []; total_duration_minutes = 60 });
  generate_question = λ topic band s. ok 3;
  get_generation_status = λ job s. ok (record {
    status = JobStatus.succeeded;
    question_id = some 11;
    question_version_id = some 12;
    error = none;
  });
  send_email = λ e jti s. ok tt;
  new_exam = λ s. max_of (λ e. true) (λ (e : Exam). e.id) s.exams + 1;
  new_version = λ s. 4;
  new_invite = λ s. 6;
  new_jti = λ s. 7;
  ai_exam_review_timeout_seconds = 60;
}

services-IsFresh : IsFresh services
services-IsFresh s = first_above (λ (e : Exam). e.id) _ s.exams (omega arith)

abbrev pub proposal : Exam
proposal = record {
  id = 1;
  org_id = 5;
  blueprint_version_id = 2;
  candidate_email = "ada@example.org";
  starts_at = 500;
  ends_at = 900;
  status = ExamStatus.pending_generation;
  review_deadline_at = none;
}

abbrev slot : ExamSlotQuestion
slot = record {
  org_id = 5;
  exam_id = 1;
  ordinal = 1;
  topic_id = 8;
  difficulty_band = "easy";
  generation_job_id = 3;
  question_id = none;
  question_version_id = none;
  status = SlotStatus.pending;
  error = none;
}

abbrev board : Board
board = record {
  versions = [];
  exams = proposal ∷ [];
  slots = slot ∷ [];
  invites = [];
  keys = [];
  emails = [];
}

abbrev requests : List Request
requests = Request.view 100 5 1 ∷ Request.confirm 110 5 1 ∷ Request.regenerate 120 5 1 1 ∷ []

serve_all-IsReviewed_example : IsReviewed (serve_all services requests board)
serve_all-IsReviewed_example =
    serve_all-IsReviewed services services-IsFresh requests board (refl, tt)
