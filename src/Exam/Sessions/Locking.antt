-- ===== src/Exam/Sessions/Locking.antt =====
-- The end of a session: the message that starts its evaluation is sent when, and only when, the
-- session is locked, so never twice.
use mathlib.Core.Option
use mathlib.Core.Path.{subst}
use dsa_platform.Prelude.{
  ℕ, ◌+◌, ◌≡◌, refl, true, Option, none, some, List, [], ◌∷◌, ◌++◌, arith, inl, inr, Option-cases,
  Bool-cases, leb, ◌==◌, ◌&&◌, ==_iff, if◌then◌else◌,
}
use dsa_platform.Prelude.Keyed.{IsKeyed, has_key, IsKeyed-update}
use dsa_platform.Prelude.Table.{first, first-update, first_sound}
use dsa_platform.Exam.Db.{
  ExamSession, Message, session_complete, submission_job, World, is_expired, is_in_progress,
}
use dsa_platform.Exam.Sessions.Handlers.{
  lock_if_expired, expire, commit_expired, Stop, stopped_at, lock_stopped, mirror_to_redis,
}

-- How often the end of session `sid` was announced.
abbrev pub completions : ℕ → List Message → ℕ
completions sid [] = 0
completions sid (session_complete _ s _ ∷ ms) = (if s == sid then 1 else 0) + completions sid ms
completions sid (submission_job _ ∷ ms) = completions sid ms

pub completions-append :
    (sid : ℕ) (ms ns : List Message)
    → completions sid (ms ++ ns) ≡ completions sid ms + completions sid ns
completions-append sid [] ns = omega arith
completions-append sid (session_complete o s e ∷ ms) ns =
    omega (arith, completions-append sid ms ns)
completions-append sid (submission_job j ∷ ms) ns = completions-append sid ms ns

abbrev pub session_id : ExamSession → ℕ
session_id e = e.id

abbrev pub locks : Option ExamSession → ℕ
locks none = 0
locks (some e) = if is_expired e.status then 1 else 0

-- For every identifier, the messages sent and those that were lost are as many as the locked
-- sessions: one or none.
pub record IsCounted (lost : ℕ → ℕ) (sessions : List ExamSession) (sent : List Message)
    : Type 0 where
  pub keyed : IsKeyed session_id sessions
  pub counted :
      (sid : ℕ) → completions sid sent + lost sid ≡ locks (first (has_key session_id sid) sessions)

-- Between two requests nothing is uncommitted.
pub record IsReady (lost : ℕ → ℕ) (w : World) : Type 0 where
  pub closed : w.saved ≡ w.db
  pub counts : IsCounted lost w.db.sessions w.sent

abbrev locked : ExamSession → ExamSession → ExamSession
locked e a = if a.id == e.id then expire a else a

locks-locked :
    (e : ExamSession) (sid : ℕ) (sessions : List ExamSession)
    → first (has_key session_id e.id) sessions ≡ some e
    → is_in_progress e.status ≡ true
    → locks (Option.map (locked e) (first (has_key session_id sid) sessions))
      ≡ locks (first (has_key session_id sid) sessions) + (if e.id == sid then 1 else 0)
locks-locked e sid sessions found live = elim (Bool-cases (e.id == sid)) [
  | inl same ↦
      subst
        (λ k.
          locks (Option.map (locked e) (first (has_key session_id k) sessions))
          ≡ locks (first (has_key session_id k) sessions) + (if e.id == k then 1 else 0))
        ((==_iff e.id sid).0 same) (rw found (ground arith))
  | inr other ↦ elim (Option-cases (first (has_key session_id sid) sessions)) [
    | inl nothing ↦ rw (nothing, other) (omega arith)
    | inr (a, there) ↦
        rw there (ground (arith, first_sound (has_key session_id sid) sessions there))
  ]
]

-- A session that is looked at after its deadline is locked and announced, once.
pub lock-IsReady :
    {lost : ℕ → ℕ} (now : ℕ) (e : ExamSession) (w : World)
    → IsReady lost w
    → first (has_key session_id e.id) w.db.sessions ≡ some e
    → IsReady lost (lock_if_expired now e w).1
unfolding lock_if_expired
lock-IsReady now e w ready found =
    elim (Bool-cases (is_in_progress e.status && leb e.deadline_at now)) [
      | inr not_yet ↦ rw not_yet ready
      | inl over ↦ rw over (record {
        closed = refl;
        counts = record {
          keyed =
              IsKeyed-update session_id (has_key session_id e.id) expire w.db.sessions (λ a. refl)
                ready.counts.keyed;
          counted = λ sid.
              rw
                (
                  completions-append sid w.sent (session_complete e.org_id e.id e.exam_id ∷ []),
                  first-update (has_key session_id sid) (has_key session_id e.id) expire
                      w.db.sessions (λ a. refl),
                  locks-locked e sid w.db.sessions found (ground arith),
                )
                (omega (arith, ready.counts.counted sid));
        };
      })
    ]

-- One message more is lost, of this session.
abbrev pub lose : ℕ → (ℕ → ℕ) → ℕ → ℕ
lose id lost sid = (if id == sid then 1 else 0) + lost sid

commit_expired-IsReady :
    {lost : ℕ → ℕ} (e : ExamSession) (w : World)
    → IsReady lost w
    → first (has_key session_id e.id) w.db.sessions ≡ some e
    → is_in_progress e.status ≡ true
    → IsReady (lose e.id lost) (commit_expired e w)
commit_expired-IsReady {lost} e w ready found live = record {
  closed = refl;
  counts = record {
    keyed =
        IsKeyed-update session_id (has_key session_id e.id) expire w.db.sessions (λ a. refl)
          ready.counts.keyed;
    counted = λ sid.
        rw
          (
            first-update (has_key session_id sid) (has_key session_id e.id) expire w.db.sessions
                (λ a. refl),
            locks-locked e sid w.db.sessions found live,
          )
          (omega (arith, ready.counts.counted sid));
  };
}

-- A session whose locking is stopped before its message loses it.
pub lock_stopped-IsReady :
    {lost : ℕ → ℕ} (stop : Stop) (now : ℕ) (e : ExamSession) (w : World)
    → IsReady lost w
    → first (has_key session_id e.id) w.db.sessions ≡ some e
    → (is_in_progress e.status && leb e.deadline_at now) ≡ true
    → IsReady (lose e.id lost) (lock_stopped stop now e w)
unfolding lock_stopped mirror_to_redis
lock_stopped-IsReady {lost} stop now e w ready found over =
    let locked = commit_expired-IsReady e w ready found (ground arith) in
    rw over
      (elim stop as (λ s. IsReady (lose e.id lost) (stopped_at s now e (commit_expired e w))) [
        | Stop.at_redis ↦ locked
        | Stop.at_queue ↦ record { closed = refl; counts = locked.counts }
      ])
