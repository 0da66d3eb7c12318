-- ===== src/Exam/Sessions/Requests.antt =====
-- Any sequence of requests to the exam service: candidates start, look at and submit to their
-- sessions, and the consumer receives verdicts.
use dsa_platform.Prelude.{
  ℕ, ◌+◌, String, ◌≡◌, refl, none, some, List, [], ◌∷◌, ◌==◌, ◌&&◌, leb, inl, inr, arith,
  Option-cases, Bool-cases, if◌then◌else◌,
}
use dsa_platform.Prelude.Table.{first}
use dsa_platform.Prelude.Keyed.{has_key}
use dsa_platform.Exam.Db.{ExamSession, is_in_progress, SubmissionMode, World, close}
use dsa_platform.Exam.Verdicts.Settle.{VerdictMessage, AiClient, process_verdict_message}
use dsa_platform.Exam.Sessions.Rows.{Services, find_session}
use dsa_platform.Exam.Sessions.Handlers.{
  Stop, lock_stopped, start_session, get_session, get_question_content, submit,
}
use dsa_platform.Exam.Sessions.Locking.{
  IsReady, lock_stopped-IsReady, session_id, completions, locks,
}
use dsa_platform.Exam.Sessions.Counting.{
  IsFresh, Counts, ready-Counts, found-by_id, start-Counts, view-Counts, content-Counts,
  submit-Counts,
}
use dsa_platform.Exam.Sessions.Grading.{verdict-Counts}

pub data Request : Type 0 where
  start : ℕ → ℕ → ℕ → String → Request
  view : ℕ → ℕ → ℕ → Request
  content : ℕ → ℕ → ℕ → ℕ → Request
  send : ℕ → ℕ → ℕ → ℕ → String → String → SubmissionMode → Request
  verdict : ℕ → VerdictMessage → Request
  -- a start, view or submission that Redis or the queue stops while it locks its session
  stopped : Stop → ℕ → ℕ → ℕ → Request

-- A request ends by closing its database session.
pub serve : Services → AiClient → Request → World → World
serve services ai (start now org_id exam_id email) w =
    close (start_session services now org_id exam_id email w).1
serve services ai (view now org_id exam_id) w = close (get_session now org_id exam_id w).1
serve services ai (content now org_id exam_id ordinal) w =
    close (get_question_content services now org_id exam_id ordinal w).1
serve services ai (send now org_id exam_id ordinal language source mode) w =
    close (submit services now org_id exam_id ordinal language source mode w).1
serve services ai (verdict now m) w = close (process_verdict_message ai now m w)
serve services ai (stopped stop now org_id exam_id) w = elim (find_session org_id exam_id w.db) [
  | none ↦ close w
  | some e ↦ close (lock_stopped stop now e w)
]

pub serve_all : Services → AiClient → List Request → World → World
serve_all services ai [] w = w
serve_all services ai (r ∷ rs) w = serve_all services ai rs (serve services ai r w)

-- How many end-of-session messages of session `sid` a request loses: one if it is stopped after it has
-- committed that the session is expired.
abbrev pub lost_by : ℕ → ExamSession → ℕ → ℕ
lost_by now e sid =
    if is_in_progress e.status && leb e.deadline_at now then (if e.id == sid then 1 else 0) else 0

abbrev pub lost_in : Request → World → ℕ → ℕ
lost_in (stopped stop now org_id exam_id) w sid = elim (find_session org_id exam_id w.db) [
  | none ↦ 0
  | some e ↦ lost_by now e sid
]
lost_in _ w sid = 0

pub lost_in_all : Services → AiClient → List Request → World → ℕ → ℕ
lost_in_all services ai [] w sid = 0
lost_in_all services ai (r ∷ rs) w sid =
    lost_in r w sid + lost_in_all services ai rs (serve services ai r w) sid

close-IsReady : {lost : ℕ → ℕ} (w : World) → Counts lost w → IsReady lost (close w)
close-IsReady w h = record { closed = refl; counts = h }

IsReady-same :
    {lost lost' : ℕ → ℕ} (w : World)
    → ((sid : ℕ) → lost' sid ≡ lost sid)
    → IsReady lost w
    → IsReady lost' w
IsReady-same w same h = record {
  closed = h.closed;
  counts = record {
    keyed = h.counts.keyed;
    counted = λ sid. omega (arith, h.counts.counted sid, same sid);
  };
}

stopped-IsReady :
    {lost : ℕ → ℕ} (stop : Stop) (now org_id exam_id : ℕ) (e : ExamSession) (w : World)
    → IsReady lost w
    → find_session org_id exam_id w.db ≡ some e
    → IsReady (λ sid. lost_by now e sid + lost sid) (close (lock_stopped stop now e w))
unfolding lock_stopped
stopped-IsReady stop now org_id exam_id e w h there =
    let by_id = found-by_id org_id exam_id w h there in
    elim (Bool-cases (is_in_progress e.status && leb e.deadline_at now)) [
      | inl over ↦
          let lost_one = lock_stopped-IsReady stop now e w h by_id over in
          IsReady-same (close (lock_stopped stop now e w)) (λ sid. rw over refl)
            (close-IsReady (lock_stopped stop now e w)
              (ready-Counts (lock_stopped stop now e w) lost_one))
      | inr not_yet ↦
          rw not_yet
            (IsReady-same (close w) (λ sid. omega arith) (close-IsReady w (ready-Counts w h)))
    ]

module _ (services : Services) (fresh : IsFresh services) (ai : AiClient) where
  -- A request that is not stopped.
  served : {lost : ℕ → ℕ} (w : World) → Counts lost w → IsReady (λ sid. 0 + lost sid) (close w)
  served w h = IsReady-same (close w) (λ sid. omega arith) (close-IsReady w h)

  pub serve-IsReady :
      {lost : ℕ → ℕ} (r : Request) (w : World)
      → IsReady lost w
      → IsReady (λ sid. lost_in r w sid + lost sid) (serve services ai r w)
  unfolding serve
  serve-IsReady (start now org_id exam_id email) w h =
      served (start_session services now org_id exam_id email w).1
        (start-Counts services fresh now org_id exam_id email w h)
  serve-IsReady (view now org_id exam_id) w h =
      served (get_session now org_id exam_id w).1 (view-Counts now org_id exam_id w h)
  serve-IsReady (content now org_id exam_id ordinal) w h =
      served (get_question_content services now org_id exam_id ordinal w).1
        (content-Counts services now org_id exam_id ordinal w h)
  serve-IsReady (send now org_id exam_id ordinal language source mode) w h =
      served (submit services now org_id exam_id ordinal language source mode w).1
        (submit-Counts services now org_id exam_id ordinal language source mode w h)
  serve-IsReady (verdict now m) w h =
      served (process_verdict_message ai now m w) (verdict-Counts ai now m w h)
  serve-IsReady (stopped stop now org_id exam_id) w h =
      elim (Option-cases (find_session org_id exam_id w.db)) [
        | inl absent ↦
            rw (absent, serve)
              (IsReady-same (close w) (λ sid. rw (absent, lost_in) refl)
                (served w (ready-Counts w h)))
        | inr (e, there) ↦
            rw (there, serve)
              (IsReady-same (close (lock_stopped stop now e w)) (λ sid. rw (there, lost_in) refl)
                (stopped-IsReady stop now org_id exam_id e w h there))
      ]

  pub serve_all-IsReady :
      (rs : List Request) (lost : ℕ → ℕ) (w : World)
      → IsReady lost w
      → IsReady (λ sid. lost_in_all services ai rs w sid + lost sid) (serve_all services ai rs w)
  unfolding serve_all lost_in_all
  serve_all-IsReady [] lost w h = IsReady-same w (λ sid. omega arith) h
  serve_all-IsReady (r ∷ rs) lost w h =
      IsReady-same (serve_all services ai (r ∷ rs) w) (λ sid. omega arith)
        (serve_all-IsReady rs (λ sid. lost_in r w sid + lost sid) (serve services ai r w)
          (serve-IsReady r w h))

  -- From a state in which, for every session, the end-of-session messages sent are one if the session
  -- is expired and none else, after any sequence of requests and verdicts the messages sent for a
  -- session and those lost to requests that Redis or the queue stopped between the commit of the
  -- expired status and the message are together exactly one if the session is expired, and none if
  -- it is not or does not exist. So without a stopped request each end is announced exactly once,
  -- and with one never twice.
  pub end_announced_once :
      (rs : List Request) (w : World) (sid : ℕ)
      → IsReady (λ id. 0) w
      → let w' = serve_all services ai rs w in
        completions sid w'.sent + lost_in_all services ai rs w sid
        ≡ locks (first (has_key session_id sid) w'.db.sessions)
  end_announced_once rs w sid h =
      omega (arith, (serve_all-IsReady rs (λ id. 0) w h).counts.counted sid)
