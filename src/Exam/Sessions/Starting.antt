-- ===== src/Exam/Sessions/Starting.antt =====
-- The first call of `start_session` opens a session inside the exam's window; a later call resumes
-- it.
use mathlib.Core.Path.{subst}
use dsa_platform.Prelude.{
  ℕ, ◌≤◌, ◌<◌, String, ◌≡◌, refl, sym, ◌∙◌, true, false, none, some, List, [], ◌∷◌, ◌++◌, arith,
  Result, ok, err, inl, inr, Option-cases, Bool-cases, ltb, leb, ◌||◌, ◌==◌, ◌&&◌, ==_refl,
  if◌then◌else◌,
}
use dsa_platform.Prelude.Table.{first, first-append}
use dsa_platform.Exam.Db.{
  Exam, ExamSession, SessionStatus, SessionQuestion, BlueprintVersion, Error, World, commit,
  exam_window_closed, not_found,
}
use dsa_platform.Exam.Submissions.{find_exam}
use dsa_platform.Exam.Sessions.Rows.{Services, find_session}
use dsa_platform.Exam.Sessions.Handlers.{
  new_session, deadline_of, find_version, list_slots, assign, open_session, begin_session,
  start_session, expire, lock_if_expired, mirror_to_redis, add_session, emit_assigned,
}
use dsa_platform.Exam.Sessions.Frame.{Flushed, Flushed-assign, Told-emit_assigned}

-- A new session `e` of `exam`, opened at `now` by the step from `w` to `w'`.
pub record IsOpened (id now org_id exam_id : ℕ) (exam : Exam) (w : World) (e : ExamSession)
    (w' : World) : Type 0 where
  pub identified : e.id ≡ id
  pub begun : exam.starts_at ≤ now
  pub not_over : now < exam.ends_at
  pub started : e.started_at ≡ now
  pub deadline_ahead : now ≤ e.deadline_at
  pub deadline_in_window : e.deadline_at ≤ exam.ends_at
  pub live : e.status ≡ SessionStatus.in_progress
  pub stored : find_session org_id exam_id w'.db ≡ some e
  pub appended : w'.db.sessions ≡ w.db.sessions ++ (e ∷ [])
  pub exams : w'.db.exams ≡ w.db.exams
  pub sent : w'.sent ≡ w.sent
  pub committed : w'.saved ≡ w'.db

-- A refused start has committed and sent nothing.
abbrev pub StartOutcome : ℕ → ℕ → ℕ → ℕ → Exam → World → Result Error ExamSession × World → Type 0
StartOutcome id now org_id exam_id exam w (ok e, w') = IsOpened id now org_id exam_id exam w e w'
StartOutcome id now org_id exam_id exam w (err x, w') = (w'.saved ≡ w.saved) × (w'.sent ≡ w.sent)

module _ (now org_id exam_id : ℕ) (exam : Exam) (w : World) (e : ExamSession)
    (begun : exam.starts_at ≤ now) (not_over : now < exam.ends_at) (started : e.started_at ≡ now)
    (ahead : now ≤ e.deadline_at) (inside : e.deadline_at ≤ exam.ends_at)
    (live : e.status ≡ SessionStatus.in_progress)
    (mine : (e.exam_id == exam_id && e.org_id == org_id) ≡ true)
    (absent : find_session org_id exam_id w.db ≡ none) where
  open_session-outcome :
      (r : Result Error (List SessionQuestion) × World)
      → Flushed (add_session e w) r.1
      → StartOutcome e.id now org_id exam_id exam w (open_session now e r)
  unfolding open_session
  open_session-outcome (err x, w') h = (h.saved, h.sent)
  open_session-outcome (ok qs, w') h =
      let opened = mirror_to_redis now e (commit w') in
      let t = Told-emit_assigned qs opened (unfold mirror_to_redis in refl) in
      let rows : (emit_assigned qs opened).db.sessions ≡ w.db.sessions ++ (e ∷ []) =
        t.sessions ∙ (unfold mirror_to_redis in h.sessions) in
      record {
        identified = refl;
        begun = begun;
        not_over = not_over;
        started = started;
        deadline_ahead = ahead;
        deadline_in_window = inside;
        live = live;
        stored = rw rows (
            rw
              (
                first-append (λ (s : ExamSession). s.exam_id == exam_id && s.org_id == org_id)
                    w.db.sessions (e ∷ []),
                absent,
              )
              (unfold first in rw mine refl));
        appended = rows;
        exams = t.exams ∙ (unfold mirror_to_redis in h.exams);
        sent = t.sent ∙ (unfold mirror_to_redis in h.sent);
        committed = t.saved;
      }

begin-outcome :
    (services : Services) (now org_id exam_id : ℕ) (email : String) (exam : Exam)
    (v : BlueprintVersion) (w : World)
    → find_session org_id exam_id w.db ≡ none
    → exam.starts_at ≤ now
    → now < exam.ends_at
    → StartOutcome
        (services.new_session_id w.db)
        now
        org_id
        exam_id
        exam
        w
        (begin_session services now org_id exam_id email exam v w)
unfolding begin_session
begin-outcome services now org_id exam_id email exam v w absent begun not_over =
    let e =
      new_session (services.new_session_id w.db) org_id exam_id email now
        (deadline_of now v exam) in
    let w' = add_session e w in
    open_session-outcome now org_id exam_id exam w e begun not_over refl (omega arith) (omega arith)
      refl (rw (==_refl exam_id, ==_refl org_id) refl) absent
      (assign services e v (list_slots org_id exam_id w'.db) w')
      (Flushed-assign services e v (list_slots org_id exam_id w'.db) w')

module _ (services : Services) (now org_id exam_id : ℕ) (email : String) (exam : Exam) (w : World)
    (known : find_exam org_id exam_id w.db ≡ some exam) where
  start-shut :
      find_session org_id exam_id w.db ≡ none
      → (ltb now exam.starts_at || leb exam.ends_at now) ≡ true
      → start_session services now org_id exam_id email w ≡ (err exam_window_closed, w)
  unfolding start_session
  start-shut absent shut = rw (known, absent, shut, start_session)

  start-unversioned :
      find_session org_id exam_id w.db ≡ none
      → (ltb now exam.starts_at || leb exam.ends_at now) ≡ false
      → find_version org_id exam.blueprint_version_id w.db ≡ none
      → start_session services now org_id exam_id email w
        ≡ (err (not_found "Blueprint version not found"), w)
  unfolding start_session
  start-unversioned absent open_now missing = rw (known, absent, open_now, missing, start_session)

  pub start-begins :
      {v : BlueprintVersion}
      → find_session org_id exam_id w.db ≡ none
      → (ltb now exam.starts_at || leb exam.ends_at now) ≡ false
      → find_version org_id exam.blueprint_version_id w.db ≡ some v
      → start_session services now org_id exam_id email w
        ≡ begin_session services now org_id exam_id email exam v w
  unfolding start_session
  start-begins absent open_now found = rw (known, absent, open_now, found, start_session)

  pub start-resumes :
      {e : ExamSession}
      → find_session org_id exam_id w.db ≡ some e
      → start_session services now org_id exam_id email w
        ≡ (ok (lock_if_expired now e w).0, (lock_if_expired now e w).1)
  unfolding start_session
  start-resumes there = rw (known, there, start_session)

-- Where the candidate has no session for the exam yet, a successful start stores, commits and
-- returns a session in progress under the new identifier that begins now, inside the exam's window, and whose deadline is
-- not before now and not after the window's end, and sends no message; a refused start has
-- committed and sent nothing.
pub start_outcome :
    (services : Services) (now org_id exam_id : ℕ) (email : String) (exam : Exam) (w : World)
    → find_exam org_id exam_id w.db ≡ some exam
    → find_session org_id exam_id w.db ≡ none
    → StartOutcome
        (services.new_session_id w.db)
        now
        org_id
        exam_id
        exam
        w
        (start_session services now org_id exam_id email w)
start_outcome services now org_id exam_id email exam w known absent =
    let start = start_session services now org_id exam_id email w in
    let P = StartOutcome (services.new_session_id w.db) now org_id exam_id exam w in
    elim (Bool-cases (ltb now exam.starts_at || leb exam.ends_at now)) [
      | inl shut ↦
          subst P (sym (start-shut services now org_id exam_id email exam w known absent shut))
            (refl, refl)
      | inr open_now ↦ elim (Option-cases (find_version org_id exam.blueprint_version_id w.db)) [
        | inl missing ↦
            subst P
              (sym (
                start-unversioned services now org_id exam_id email exam w known absent open_now
                  missing))
              (refl, refl)
        | inr (v, found) ↦
            subst P
              (sym
                (start-begins services now org_id exam_id email exam w known absent open_now found))
              (begin-outcome services now org_id exam_id email exam v w absent (ground arith)
                (ground arith))
      ]
    ]

-- A start that opened a session is idempotent: called again at any time with any address, it
-- returns the same session, in progress before the deadline and expired from the deadline on, and
-- assigns no further question.
pub start_again :
    (services : Services) (now later org_id exam_id : ℕ) (email email' : String) (exam : Exam)
    (w : World) {e : ExamSession} {w' : World}
    → find_exam org_id exam_id w.db ≡ some exam
    → find_session org_id exam_id w.db ≡ none
    → start_session services now org_id exam_id email w ≡ (ok e, w')
    → let again = start_session services later org_id exam_id email' w' in
      (again.0 ≡ ok (if leb e.deadline_at later then expire e else e))
      × (again.1.db.questions ≡ w'.db.questions)
start_again services now later org_id exam_id email email' exam w {e} {w'} known absent started =
    let opened =
      subst (StartOutcome (services.new_session_id w.db) now org_id exam_id exam w) started
        (start_outcome services now org_id exam_id email exam w known absent) in
    let known' =
      subst (λ es. first (λ (x : Exam). x.id == exam_id && x.org_id == org_id) es ≡ some exam)
        (sym opened.exams) known in
    rw (start-resumes services later org_id exam_id email' exam w' known' opened.stored)
      (unfold lock_if_expired in ground arith)
