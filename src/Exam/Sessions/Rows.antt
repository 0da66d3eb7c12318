-- ===== src/Exam/Sessions/Rows.antt =====
-- services/exam/app/repositories/sessions.py, and what a session takes from other services.
use dsa_platform.Prelude.{
  ℕ, String, Bool, Option, some, List, [], ◌∷◌, ◌++◌, ◌==◌, ◌&&◌, Result, is_none, if◌then◌else◌,
}
use dsa_platform.Prelude.Table.{first, select, update, sort_by}
use dsa_platform.Exam.Db.{ExamSession, SessionQuestion, Error, Db, World}
use dsa_platform.Exam.Submissions.{CaseClient}

-- `PublishedQuestionRef`
pub record QuestionRef : Type 0 where
  pub question_id : ℕ
  pub published_version_id : ℕ

-- The other services, Python's `random.sample` under a seed made of the blueprint version, the
-- candidate and the entry's index, and the identifiers of new rows.
pub record Services : Type 0 where
  pub published : ℕ → ℕ → ℕ → Result Error (List QuestionRef)
  pub content : ℕ → ℕ → Result Error String
  pub cases : CaseClient
  pub sample : ℕ → String → ℕ → List QuestionRef → ℕ → List QuestionRef
  pub new_session_id : Db → ℕ
  pub new_submission_id : Db → ℕ

-- `get_by_exam`
abbrev pub find_session : ℕ → ℕ → Db → Option ExamSession
find_session org_id exam_id db = first (λ e. e.exam_id == exam_id && e.org_id == org_id) db.sessions

abbrev pub is_question : ℕ → ℕ → ℕ → SessionQuestion → Bool
is_question org_id sid ordinal q = q.session_id == sid && q.org_id == org_id && q.ordinal == ordinal

-- `get_question`
abbrev pub find_question : ℕ → ℕ → ℕ → Db → Option SessionQuestion
find_question org_id sid ordinal db = first (is_question org_id sid ordinal) db.questions

unfoldable pub list_questions : ℕ → ℕ → Db → List SessionQuestion
list_questions org_id sid db =
    sort_by (λ q. q.ordinal) (select (λ q. q.session_id == sid && q.org_id == org_id) db.questions)

abbrev pub add_question : SessionQuestion → World → World
add_question q w = record w { db = record w.db { questions = w.db.questions ++ (q ∷ []) } }

-- The time of the first view; a later view leaves it.
unfoldable pub mark_shown : ℕ → ℕ → ℕ → ℕ → Db → Db
mark_shown now org_id sid ordinal db = record db {
  questions =
      update (is_question org_id sid ordinal)
        (λ q. if is_none q.shown_at then record q { shown_at = some now } else q) db.questions;
}
