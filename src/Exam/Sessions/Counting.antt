-- ===== src/Exam/Sessions/Counting.antt =====
-- Each handler of a candidate's request keeps the count of announced session ends.
use mathlib.Core.Path.{subst}
use dsa_platform.Prelude.{
  ℕ, ◌+◌, String, ◌≡◌, refl, sym, ap, ◌∙◌, Option, none, some, List, [], ◌∷◌, ◌++◌, arith, inl, inr,
  Option-cases, Bool-cases, Result, ok, err, ◌==◌, ◌&&◌,
}
use dsa_platform.Prelude.Table.{first, first-append, or_else}
use dsa_platform.Prelude.Keyed.{has_key, first-has_key, IsKeyed-append}
use dsa_platform.Exam.Db.{
  Exam, ExamSession, SessionStatus, SubmissionMode, Message, submission_job, SubmissionJob, World,
  Error, is_in_progress,
}
use dsa_platform.Exam.Events.{emit}
use dsa_platform.Exam.Submissions.{CaseClient, NewSubmission, find_exam, create_and_enqueue}
use dsa_platform.Exam.Sessions.Rows.{Services, find_session, find_question, mark_shown}
use dsa_platform.Exam.Sessions.Handlers.{
  lock_if_expired, start_session, get_session, get_question_content, submit,
}
use dsa_platform.Exam.Sessions.Starting.{StartOutcome, start_outcome, start-resumes}
use dsa_platform.Exam.Sessions.Locking.{
  IsReady, IsCounted, session_id, completions, completions-append, locks, lock-IsReady,
}

-- A new session gets an identifier that no session has.
pub record IsFresh (services : Services) : Type 0 where
  pub session_id_new :
      (db : _) → first (has_key session_id (services.new_session_id db)) db.sessions ≡ none

-- What a handler must leave for `close` to give a ready state.
abbrev pub Counts : (ℕ → ℕ) → World → Type 0
Counts lost w = IsCounted lost w.saved.sessions w.sent

pub ready-Counts : {lost : ℕ → ℕ} (w : World) → IsReady lost w → Counts lost w
ready-Counts w h = rw h.closed h.counts

pub found-by_id :
    {lost : ℕ → ℕ} (org_id exam_id : ℕ) (w : World) {e : ExamSession}
    → IsReady lost w
    → find_session org_id exam_id w.db ≡ some e
    → first (has_key session_id e.id) w.db.sessions ≡ some e
found-by_id org_id exam_id w h found =
    first-has_key session_id (λ (s : ExamSession). s.exam_id == exam_id && s.org_id == org_id)
      w.db.sessions h.counts.keyed found

-- The same sessions, and no announcement more.
pub same-Counts :
    {lost : ℕ → ℕ} {ss ss' : List ExamSession} {ms ms' : List Message}
    → IsCounted lost ss ms
    → ss' ≡ ss
    → ((sid : ℕ) → completions sid ms' ≡ completions sid ms)
    → IsCounted lost ss' ms'
same-Counts {lost} h sessions announced = record {
  keyed = rw sessions h.keyed;
  counted = λ sid. rw sessions (ap (λ n. n + lost sid) (announced sid) ∙ h.counted sid);
}

locks-append :
    (found : Option ExamSession) (e : ExamSession) (sid : ℕ)
    → e.status ≡ SessionStatus.in_progress
    → locks found ≡ locks (or_else found (first (has_key session_id sid) (e ∷ [])))
unfolding first
locks-append (some a) e sid live = refl
locks-append none e sid live = ground arith

append-Counts :
    {lost : ℕ → ℕ} {ss : List ExamSession} {ms : List Message} (e : ExamSession)
    → IsCounted lost ss ms
    → first (has_key session_id e.id) ss ≡ none
    → e.status ≡ SessionStatus.in_progress
    → IsCounted lost (ss ++ e ∷ []) ms
append-Counts {lost} {ss} {ms} e h new live = record {
  keyed = IsKeyed-append session_id ss e h.keyed new;
  counted = λ sid.
      h.counted sid
      ∙ rw (first-append (has_key session_id sid) ss (e ∷ []))
          (locks-append (first (has_key session_id sid) ss) e sid live);
}

outcome-Counts :
    {lost : ℕ → ℕ} (id now org_id exam_id : ℕ) (exam : Exam) (w : World)
    (r : Result Error ExamSession × World)
    → IsReady lost w
    → first (has_key session_id id) w.db.sessions ≡ none
    → StartOutcome id now org_id exam_id exam w r
    → Counts lost r.1
outcome-Counts id now org_id exam_id exam w (err x, w') h new (saved, sent) =
    same-Counts (ready-Counts w h) (ap (λ d. d.sessions) saved) (λ sid. ap (completions sid) sent)
outcome-Counts id now org_id exam_id exam w (ok e, w') h new o =
    same-Counts
      (append-Counts e h.counts
        (subst (λ k. first (has_key session_id k) w.db.sessions ≡ none) (sym o.identified) new)
        o.live)
      (ap (λ d. d.sessions) o.committed ∙ o.appended) (λ sid. ap (completions sid) o.sent)

pub start-Counts :
    {lost : ℕ → ℕ} (services : Services) (fresh : IsFresh services) (now org_id exam_id : ℕ)
    (email : String) (w : World)
    → IsReady lost w
    → Counts lost (start_session services now org_id exam_id email w).1
start-Counts services fresh now org_id exam_id email w h =
    elim (Option-cases (find_exam org_id exam_id w.db)) [
      | inl unknown ↦ unfold start_session in rw (unknown, start_session) (ready-Counts w h)
      | inr (exam, known) ↦ elim (Option-cases (find_session org_id exam_id w.db)) [
        | inr (e, there) ↦ rw (start-resumes services now org_id exam_id email exam w known there) (
            ready-Counts (lock_if_expired now e w).1
              (lock-IsReady now e w h (found-by_id org_id exam_id w h there)))
        | inl absent ↦
            outcome-Counts (services.new_session_id w.db) now org_id exam_id exam w
              (start_session services now org_id exam_id email w) h (fresh.session_id_new w.db)
              (start_outcome services now org_id exam_id email exam w known absent)
      ]
    ]

pub view-Counts :
    {lost : ℕ → ℕ} (now org_id exam_id : ℕ) (w : World)
    → IsReady lost w
    → Counts lost (get_session now org_id exam_id w).1
unfolding get_session
view-Counts now org_id exam_id w h = elim (Option-cases (find_session org_id exam_id w.db)) [
  | inl absent ↦ rw (absent, get_session) (ready-Counts w h)
  | inr (e, there) ↦
      rw (there, get_session)
        (ready-Counts (lock_if_expired now e w).1
          (lock-IsReady now e w h (found-by_id org_id exam_id w h there)))
]

pub content-Counts :
    {lost : ℕ → ℕ} (services : Services) (now org_id exam_id ordinal : ℕ) (w : World)
    → IsReady lost w
    → Counts lost (get_question_content services now org_id exam_id ordinal w).1
unfolding get_question_content mark_shown
content-Counts services now org_id exam_id ordinal w h =
    same-Counts (ready-Counts w h) (ground (arith, ap (λ d. d.sessions) h.closed))
      (λ sid. ground arith)

completions-job :
    (sid : ℕ) (ms : List Message) (job : SubmissionJob)
    → completions sid (ms ++ submission_job job ∷ []) ≡ completions sid ms
completions-job sid ms job = completions-append sid ms (submission_job job ∷ []) ∙ omega arith

enqueue-Counts :
    {lost : ℕ → ℕ} (client : CaseClient) (id : ℕ) (new : NewSubmission) (w : World)
    → IsReady lost w
    → Counts lost (create_and_enqueue client id new w).1
unfolding create_and_enqueue emit
enqueue-Counts client id new w h =
    same-Counts (ready-Counts w h) (ground (arith, ap (λ d. d.sessions) h.closed))
      (λ sid. grind (arith, completions-job))

pub submit-Counts :
    {lost : ℕ → ℕ} (services : Services) (now org_id exam_id ordinal : ℕ) (language source : String)
    (mode : SubmissionMode) (w : World)
    → IsReady lost w
    → Counts lost (submit services now org_id exam_id ordinal language source mode w).1
unfolding submit
submit-Counts services now org_id exam_id ordinal language source mode w h =
    elim (Option-cases (find_session org_id exam_id w.db)) [
      | inl absent ↦ rw (absent, submit) (ready-Counts w h)
      | inr (e, there) ↦
          let e' = (lock_if_expired now e w).0 in
          let w' = (lock_if_expired now e w).1 in
          let h' = lock-IsReady now e w h (found-by_id org_id exam_id w h there) in
          elim (Bool-cases (is_in_progress e'.status)) [
            | inr over ↦ rw (there, over, submit) (ready-Counts w' h')
            | inl live ↦ elim (Option-cases (find_question org_id e'.id ordinal w'.db)) [
              | inl missing ↦ rw (there, live, missing, submit) (ready-Counts w' h')
              | inr (q, asked) ↦
                  rw (there, live, asked, submit)
                    (enqueue-Counts services.cases (services.new_submission_id w'.db)
                      (record {
                        org_id = org_id;
                        exam_id = exam_id;
                        question_version_id = q.question_version_id;
                        language = language;
                        source = source;
                        compare_mode = "whitespace";
                        session_id = some e'.id;
                        ordinal = some ordinal;
                        mode = mode;
                      })
                      w' h')
            ]
          ]
    ]
