-- ===== src/Exam/Verdicts/Settle.antt =====
-- `process_verdict_message` and `_signal_difficulty` of services/exam/app/services/verdicts.py,
-- with `upsert_case_verdict` of app/repositories/submissions.py.
use dsa_platform.Prelude.{
  ℕ, String, Bool, true, false, Option, none, some, List, [], ◌∷◌, ◌++◌, ◌==◌, ◌&&◌, not,
  if◌then◌else◌, is_some, length,
}
use dsa_platform.Prelude.Int.{ℤ, sub_ℕ, is_zero}
use dsa_platform.Prelude.Table.{first, select, update}
use dsa_platform.Exam.Db.{
  Submission, SubmissionStatus, CaseVerdict, ExamSession, SessionQuestion, Payload, World, commit,
  is_run,
}
use dsa_platform.Exam.Events.{emit}

pub data VerdictStatus : Type 0 where
  completed compile_error : VerdictStatus

pub record CaseResult : Type 0 where
  pub ordinal : ℕ
  pub verdict : String
  pub runtime_ms : ℕ
  pub memory_kb : ℕ

-- messaging/contracts.py, as decoded from the queue
pub record VerdictMessage : Type 0 where
  pub submission_id : ℕ
  pub org_id : ℕ
  pub status : VerdictStatus
  pub summary_verdict : String
  pub compile_error : Option String
  pub cases : List CaseResult

-- The request to the ai service. `time_elapsed_pct` is `elapsed * questions / allotted`.
pub record Signal : Type 0 where
  pub session_id : ℕ
  pub question_version_id : ℕ
  pub elapsed : ℤ
  pub questions : ℕ
  pub allotted : ℤ
  pub verdict : String

-- The ai service's answer, a difficulty and its band, or a failed call.
abbrev pub AiClient : Type 0
AiClient = Signal → Option (ℕ × String)

-- `_TERMINAL`
abbrev pub is_terminal : SubmissionStatus → Bool
is_terminal SubmissionStatus.completed = true
is_terminal SubmissionStatus.compile_error = true
is_terminal SubmissionStatus.error = true
is_terminal SubmissionStatus.queued = false
is_terminal SubmissionStatus.running = false

abbrev pub is_case : ℕ → ℕ → CaseVerdict → Bool
is_case submission_id ordinal v = v.submission_id == submission_id && v.ordinal == ordinal

abbrev pub case_row : ℕ → ℕ → CaseResult → CaseVerdict
case_row org_id submission_id c = record {
  org_id = org_id;
  submission_id = submission_id;
  ordinal = c.ordinal;
  verdict = c.verdict;
  runtime_ms = c.runtime_ms;
  memory_kb = c.memory_kb;
}

-- `on conflict do nothing` on the key of submission and ordinal
unfoldable pub upsert_case_verdict : ℕ → ℕ → CaseResult → List CaseVerdict → List CaseVerdict
upsert_case_verdict org_id submission_id c rows =
    if is_some (first (is_case submission_id c.ordinal) rows)
    then rows
    else rows ++ (case_row org_id submission_id c ∷ [])

unfoldable pub upsert_all : ℕ → ℕ → List CaseResult → List CaseVerdict → List CaseVerdict
upsert_all org_id submission_id [] rows = rows
upsert_all org_id submission_id (c ∷ cs) rows =
    upsert_all org_id submission_id cs (upsert_case_verdict org_id submission_id c rows)

abbrev pub verdict_status : VerdictStatus → SubmissionStatus
verdict_status VerdictStatus.compile_error = SubmissionStatus.compile_error
verdict_status VerdictStatus.completed = SubmissionStatus.completed

-- `compile_error` is written only for a compile error.
abbrev pub settle_row : VerdictMessage → Submission → Submission
settle_row m s = record s {
  status = verdict_status m.status;
  compile_error = elim m.status [
    | VerdictStatus.compile_error ↦ m.compile_error
    | VerdictStatus.completed ↦ s.compile_error
  ];
  summary_verdict = some m.summary_verdict;
}

unfoldable pub set_difficulty : ℕ → ℕ × String → World → World
set_difficulty session_id (difficulty, band) w = commit (record w {
  db = record w.db {
    sessions =
        update (λ (e : ExamSession). e.id == session_id)
          (λ e. record e {
            current_difficulty = some difficulty;
            current_difficulty_band = some band;
          })
          w.db.sessions;
  };
})

-- The answer of the ai service, where one is asked for: not for an unknown session, an unassigned
-- question or one that was never shown. An exception on the way is logged and dropped: a second row
-- for the version (`scalar_one_or_none`), a division by a zero allotment, a failed call.
unfoldable pub signal_answer :
    AiClient → ℕ → ℕ → Submission → VerdictMessage → World → Option (ℕ × String)
signal_answer ai now sid s m w =
    elim (first (λ (e : ExamSession). e.id == sid && e.org_id == s.org_id) w.db.sessions) [
      | none ↦ none
      | some e ↦
          elim (select
            (λ (q : SessionQuestion).
              q.session_id == sid
              && q.org_id == s.org_id
              && q.question_version_id == s.question_version_id)
            w.db.questions) [
              | [] ↦ none
              | q ∷ others ↦ elim others [
                | _ ∷ _ ↦ none
                | [] ↦ elim q.shown_at [
                  | none ↦ none
                  | some shown ↦
                      let mine =
                        select
                          (λ (r : SessionQuestion). r.session_id == sid && r.org_id == s.org_id)
                          w.db.questions in
                      let allotted = sub_ℕ e.deadline_at e.started_at in
                      if is_zero allotted
                      then none
                      else ai (record {
                        session_id = sid;
                        question_version_id = s.question_version_id;
                        elapsed = sub_ℕ now shown;
                        questions = length mine;
                        allotted = allotted;
                        verdict = m.summary_verdict;
                      })
                ]
              ]
            ]
    ]

unfoldable pub signal_difficulty : AiClient → ℕ → ℕ → Submission → VerdictMessage → World → World
unfolding set_difficulty
signal_difficulty ai now sid s m w = elim (signal_answer ai now sid s m w) [
  | none ↦ w
  | some answer ↦ set_difficulty sid answer w
]

-- the case rows and the submission's final state, in one commit
unfoldable pub settle : VerdictMessage → Submission → World → World
settle m s w = commit (record w {
  db = record w.db {
    verdicts = upsert_all s.org_id s.id m.cases w.db.verdicts;
    submissions = update (λ (r : Submission). r.id == s.id) (settle_row m) w.db.submissions;
  };
})

-- the event and the difficulty signal, for a submission of a session
unfoldable pub announce : AiClient → ℕ → VerdictMessage → Submission → World → World
announce ai now m s w = elim s.session_id [
  | none ↦ w
  | some sid ↦
      let told =
        emit s.org_id sid (Payload.verdict s.id (some m.summary_verdict) (verdict_status m.status))
          (some s.question_version_id) w in
      if is_run s.mode then told else signal_difficulty ai now sid s m told
]

unfoldable pub deliver : AiClient → ℕ → VerdictMessage → Submission → World → World
deliver ai now m s w =
    if not (s.org_id == m.org_id)
    then w
    else if is_terminal s.status
    then w
    else announce ai now m s (settle m s w)

unfoldable pub process_verdict_message : AiClient → ℕ → VerdictMessage → World → World
process_verdict_message ai now m w =
    elim (first (λ (s : Submission). s.id == m.submission_id) w.db.submissions) [
      | none ↦ w
      | some s ↦ deliver ai now m s w
    ]
