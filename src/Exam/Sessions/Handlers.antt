-- ===== src/Exam/Sessions/Handlers.antt =====
-- The handlers of services/exam/app/services/sessions.py. A request reads the clock once here: `now`.
use dsa_platform.Prelude.{
  ℕ, ◌+◌, ◌-◌, ◌*◌, min, max, String, Option, none, some, List, [], ◌∷◌, ◌++◌, ◌==◌, ◌&&◌, ◌||◌,
  not, ltb, leb, Result, ok, err, Exec, if◌then◌else◌,
}
use dsa_platform.Prelude.Table.{first, select, update, remove, sort_by}
use dsa_platform.Exam.Db.{
  Exam, BlueprintVersion, ExamSlotQuestion, ExamSession, SessionStatus, SessionQuestion, Submission,
  SubmissionMode, Payload, Mirror, Error, not_found, exam_window_closed, session_locked,
  session_complete, Db, World, commit, is_in_progress,
}
use dsa_platform.Exam.Events.{emit}
use dsa_platform.Exam.Submissions.{find_exam, create_and_enqueue}
use dsa_platform.Exam.Sessions.Rows.{
  Services, find_session, find_question, list_questions, mark_shown,
}
use dsa_platform.Exam.Sessions.Assign.{assign_from, assign_slots}

abbrev pub redis_grace_seconds : ℕ
redis_grace_seconds = 60

-- `ttl` is at least 1, also when the deadline has long passed.
unfoldable pub mirror_to_redis : ℕ → ExamSession → World → World
mirror_to_redis now e w =
    let entry : Mirror = record {
      session_id = e.id;
      status = e.status;
      deadline = e.deadline_at;
      ttl = max 1 (e.deadline_at + redis_grace_seconds - now);
    } in
    record w { mirrors = remove (λ (r : Mirror). r.session_id == e.id) w.mirrors ++ (entry ∷ []) }

abbrev pub expire : ExamSession → ExamSession
expire e = record e { status = SessionStatus.expired }

-- the expired status, committed
abbrev pub commit_expired : ExamSession → World → World
commit_expired e w = commit (record w {
  db = record w.db { sessions = update (λ (r : ExamSession). r.id == e.id) expire w.db.sessions };
})

-- Where the calls after the commit may raise.
pub data Stop : Type 0 where
  at_redis at_queue : Stop

abbrev pub stopped_at : Stop → ℕ → ExamSession → World → World
stopped_at Stop.at_redis now e w = w
stopped_at Stop.at_queue now e w = mirror_to_redis now (expire e) w

-- What `_lock_if_expired` leaves when Redis or the queue raises in it.
unfoldable pub lock_stopped : Stop → ℕ → ExamSession → World → World
unfolding mirror_to_redis
lock_stopped stop now e w =
    if is_in_progress e.status && leb e.deadline_at now
    then stopped_at stop now e (commit_expired e w)
    else w

unfoldable pub lock_if_expired : ℕ → ExamSession → World → ExamSession × World
unfolding mirror_to_redis
lock_if_expired now e w =
    if is_in_progress e.status && leb e.deadline_at now
    then (let locked = commit_expired e w in
        let mirrored = mirror_to_redis now (expire e) locked in
        (
          expire e,
          record mirrored {
            sent = mirrored.sent ++ (session_complete e.org_id e.id e.exam_id ∷ []);
          },
        ))
    else (e, w)

abbrev pub find_version : ℕ → ℕ → Db → Option BlueprintVersion
find_version org_id id db = first (λ v. v.id == id && v.org_id == org_id) db.versions

-- `exam_slot_questions_repo.list_by_exam`
unfoldable pub list_slots : ℕ → ℕ → Db → List ExamSlotQuestion
list_slots org_id exam_id db =
    sort_by (λ s. s.ordinal) (select (λ s. s.org_id == org_id && s.exam_id == exam_id) db.slots)

abbrev pub deadline_of : ℕ → BlueprintVersion → Exam → ℕ
deadline_of now v exam = min (now + 60 * v.total_duration_minutes) exam.ends_at

abbrev pub new_session : ℕ → ℕ → ℕ → String → ℕ → ℕ → ExamSession
new_session id org_id exam_id email started deadline = record {
  id = id;
  org_id = org_id;
  exam_id = exam_id;
  candidate_email = email;
  status = SessionStatus.in_progress;
  started_at = started;
  deadline_at = deadline;
  current_difficulty = none;
  current_difficulty_band = none;
}

unfoldable pub emit_assigned : List SessionQuestion → World → World
unfolding emit
emit_assigned [] w = w
emit_assigned (q ∷ qs) w = emit_assigned qs (
    emit q.org_id q.session_id (Payload.question_assigned q.ordinal q.question_id)
      (some q.question_version_id) w)

-- pinned slots if there are any, else the topic mix
unfoldable pub assign :
    Services
    → ExamSession
    → BlueprintVersion
    → List ExamSlotQuestion
    → Exec Error World (List SessionQuestion)
assign services e v [] = assign_from services e.org_id v.id e.candidate_email e.id 1 0 v.topic_mix
assign services e v (slot ∷ slots) = assign_slots e.org_id e.id (slot ∷ slots)

-- the commit, the mirror and the events after the questions are written
unfoldable pub open_session :
    ℕ → ExamSession → Result Error (List SessionQuestion) × World → Result Error ExamSession × World
unfolding mirror_to_redis emit_assigned
open_session now e (err x, w) = (err x, w)
open_session now e (ok questions, w) =
    (ok e, emit_assigned questions (mirror_to_redis now e (commit w)))

abbrev pub add_session : ExamSession → World → World
add_session e w = record w { db = record w.db { sessions = w.db.sessions ++ (e ∷ []) } }

unfoldable pub begin_session :
    Services → ℕ → ℕ → ℕ → String → Exam → BlueprintVersion → Exec Error World ExamSession
unfolding assign open_session
begin_session services now org_id exam_id email exam v w =
    let e =
      new_session (services.new_session_id w.db) org_id exam_id email now
        (deadline_of now v exam) in
    let w' = add_session e w in
    open_session now e (assign services e v (list_slots org_id exam_id w'.db) w')

unfoldable pub start_session : Services → ℕ → ℕ → ℕ → String → Exec Error World ExamSession
unfolding lock_if_expired begin_session
start_session services now org_id exam_id email w = elim (find_exam org_id exam_id w.db) [
  | none ↦ (err (not_found "Exam not found"), w)
  | some exam ↦ elim (find_session org_id exam_id w.db) [
    | some existing ↦ let (e, w') = lock_if_expired now existing w in (ok e, w')
    | none ↦
        if ltb now exam.starts_at || leb exam.ends_at now
        then (err exam_window_closed, w)
        else elim (find_version org_id exam.blueprint_version_id w.db) [
          | none ↦ (err (not_found "Blueprint version not found"), w)
          | some v ↦ begin_session services now org_id exam_id email exam v w
        ]
  ]
]

unfoldable pub get_session : ℕ → ℕ → ℕ → Exec Error World (ExamSession × List SessionQuestion)
unfolding lock_if_expired
get_session now org_id exam_id w = elim (find_session org_id exam_id w.db) [
  | none ↦ (err (not_found "Session not started"), w)
  | some found ↦
      let (e, w') = lock_if_expired now found w in (ok (e, list_questions org_id e.id w'.db), w')
]

unfoldable pub get_question_content :
    Services → ℕ → ℕ → ℕ → ℕ → Exec Error World (SessionQuestion × String)
get_question_content services now org_id exam_id ordinal w =
    elim (find_session org_id exam_id w.db) [
      | none ↦ (err (not_found "Session not started"), w)
      | some e ↦ elim (find_question org_id e.id ordinal w.db) [
        | none ↦ (err (not_found "Question not found in this session"), w)
        | some q ↦ elim (services.content org_id q.question_version_id) [
          | err x ↦ (err x, w)
          | ok content ↦
              (ok (q, content), commit (record w { db = mark_shown now org_id e.id ordinal w.db }))
        ]
      ]
    ]

unfoldable pub submit :
    Services → ℕ → ℕ → ℕ → ℕ → String → String → SubmissionMode → Exec Error World Submission
submit services now org_id exam_id ordinal language source mode w =
    elim (find_session org_id exam_id w.db) [
      | none ↦ (err (not_found "Session not started"), w)
      | some found ↦
          let (e, w') = lock_if_expired now found w in
          if not (is_in_progress e.status)
          then (err session_locked, w')
          else elim (find_question org_id e.id ordinal w'.db) [
            | none ↦ (err (not_found "Question not found in this session"), w')
            | some q ↦
                create_and_enqueue services.cases (services.new_submission_id w'.db)
                  (record {
                    org_id = org_id;
                    exam_id = exam_id;
                    question_version_id = q.question_version_id;
                    language = language;
                    source = source;
                    compare_mode = "whitespace";
                    session_id = some e.id;
                    ordinal = some ordinal;
                    mode = mode;
                  })
                  w'
          ]
    ]
