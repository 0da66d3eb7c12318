-- ===== src/Exam/Scheduling/Reviewed.antt =====
-- Every request for an AI-proposed exam keeps the exams in review and scheduled complete.
use dsa_platform.Prelude.{
  ℕ, Bool, true, false, Option, none, some, List, [], ◌∷◌, ◌++◌, ◌≡◌, refl, ap, ◌∙◌, ◌==◌, ==_iff,
  ◌&&◌, ◌||◌, not, and_both, arith, inl, inr, Bool-cases, if◌then◌else◌, Result, ok, err, after,
  pure, raise_if, ◌>>◌,
}
use dsa_platform.Prelude.Table.{first, update}
use dsa_platform.Prelude.Removal.{All-update_where}
use dsa_platform.Exam.Db.{Exam, ExamSlotQuestion}
use dsa_platform.Exam.Scheduling.{
  Board, ScheduleError, Services, Handler, is_exam, save, poll_slots, any_failed, only_ready,
  recomputed, own_slots, polled, poll_exam, is_generating, is_in_review, is_due,
  is_generation_failed, add_invite, mailed, scheduled, confirm_exam, refresh_ai_exam, regenerating,
  reset_slot, is_slot, restarted, regenerate_found, regenerate_slot,
}
use dsa_platform.Exam.Scheduling.Ready.{
  all_ready, is_open, is_complete, IsReviewed, StillAll, poll_slots-StillAll, own_slots-ready,
  all_ready-reset,
}

-- An open exam with its slots.
pub complete_if :
    (slots : List ExamSlotQuestion) (e : Exam)
    → (is_open e.status ≡ true → all_ready e.org_id e.id slots ≡ true)
    → is_complete slots e ≡ true
complete_if slots e h = elim (Bool-cases (is_open e.status)) [
  | inl opened ↦ rw (opened, h opened) refl
  | inr shut ↦ rw shut refl
]

ready_of :
    (slots : List ExamSlotQuestion) (e : Exam)
    → is_complete slots e ≡ true
    → is_open e.status ≡ true
    → all_ready e.org_id e.id slots ≡ true
ready_of slots e h opened = ground (arith, h, opened)

-- A row with the keys of an exam has its slots.
same_slots :
    (exam a : Exam) (slots : List ExamSlotQuestion)
    → is_exam exam.org_id exam.id a ≡ true
    → all_ready exam.org_id exam.id slots ≡ true
    → all_ready a.org_id a.id slots ≡ true
same_slots exam a slots keys h =
    let both = and_both (a.id == exam.id) (a.org_id == exam.org_id) keys in
    ap (λ k. all_ready k a.id slots) ((==_iff a.org_id exam.org_id).0 both.1)
    ∙ ap (λ k. all_ready exam.org_id k slots) ((==_iff a.id exam.id).0 both.0)
    ∙ h

-- A result keeps the exams complete, and an exam that it returns is complete.
abbrev pub Fine : Result ScheduleError Exam × Board → Type 0
Fine (ok e, s) = IsReviewed s × (is_complete s.slots e ≡ true)
Fine (err e, s) = IsReviewed s

pub after-Fine :
    (r : Result ScheduleError Exam × Board) (k : Exam → Handler Exam)
    → Fine r
    → ((e : Exam) (s : Board) → IsReviewed s → is_complete s.slots e ≡ true → Fine (k e s))
    → Fine (after r k)
after-Fine (ok e, s) k h rest = rest e s h.0 h.1
after-Fine (err e, s) k h rest = h

pub board_of : (r : Result ScheduleError Exam × Board) → Fine r → IsReviewed (r.1)
board_of (ok e, s) h = h.0
board_of (err e, s) h = h

pub still_complete :
    (ts ts' : List ExamSlotQuestion) (a : Exam)
    → (all_ready a.org_id a.id ts ≡ true → all_ready a.org_id a.id ts' ≡ true)
    → is_complete ts a ≡ true
    → is_complete ts' a ≡ true
still_complete ts ts' a keeps h = complete_if ts' a (λ opened. keeps (ready_of ts a h opened))

module _ (o : Services) (now : ℕ) where
  recomputed_complete :
      (exam a : Exam) (ts : List ExamSlotQuestion)
      → is_exam exam.org_id exam.id a ≡ true
      → is_complete ts a ≡ true
      → is_complete ts (recomputed o now (own_slots exam ts) a) ≡ true
  recomputed_complete exam a ts keys h = elim (Bool-cases (any_failed (own_slots exam ts))) [
    | inl lost ↦ rw lost refl
    | inr unlost ↦ rw unlost (elim (Bool-cases (only_ready (own_slots exam ts))) [
      | inl done ↦ rw done (
          same_slots exam a ts keys (own_slots-ready exam.org_id exam.id ts (ground (arith, done))))
      | inr open_it ↦ rw open_it h
    ])
  ]

  own_key : (exam : Exam) → is_exam exam.org_id exam.id exam ≡ true
  own_key exam = ground arith

  polled-Fine :
      (exam : Exam) (s : Board) (r : Result ScheduleError (List ExamSlotQuestion))
      → IsReviewed s
      → is_complete s.slots exam ≡ true
      → ((org_id exam_id : ℕ) → StillAll org_id exam_id s.slots r)
      → Fine (polled o now exam r s)
  polled-Fine exam s (err e) h mine_ok keeps = h
  polled-Fine exam s (ok ts) h mine_ok keeps =
      let kept : (a : Exam) → is_complete s.slots a ≡ true → is_complete ts a ≡ true =
        λ a. still_complete s.slots ts a (keeps a.org_id a.id) in
      (
        All-update_where (λ a. is_complete s.slots a ≡ true) (λ a. is_complete ts a ≡ true) _
            (recomputed o now (own_slots exam ts)) s.exams
            (λ a whole keys. recomputed_complete exam a ts keys (kept a whole))
            (λ a whole _. kept a whole) h,
        recomputed_complete exam exam ts (own_key exam) (kept exam mine_ok),
      )

  poll_exam-Fine :
      (exam : Exam) (s : Board)
      → IsReviewed s
      → is_complete s.slots exam ≡ true
      → Fine (poll_exam o now exam s)
  poll_exam-Fine exam s h mine_ok =
      polled-Fine exam s (poll_slots o s exam.org_id exam.id s.slots) h mine_ok
        (λ org_id exam_id. poll_slots-StillAll org_id exam_id o s exam.org_id exam.id s.slots)

  scheduled-Fine :
      (exam : Exam) (s : Board)
      → IsReviewed s
      → all_ready exam.org_id exam.id s.slots ≡ true
      → Fine (save exam scheduled s)
  scheduled-Fine exam s h all = (
    All-update_where (λ a. is_complete s.slots a ≡ true) (λ a. is_complete s.slots a ≡ true) _
        scheduled s.exams (λ a _ keys. same_slots exam a s.slots keys all) (λ a whole _. whole) h,
    all,
  )

  mailed-Fine :
      (exam : Exam) (t : Board) (r : Result ScheduleError Unit)
      → IsReviewed t
      → all_ready exam.org_id exam.id t.slots ≡ true
      → Fine ((mailed exam r >> save exam scheduled) t)
  mailed-Fine exam t (ok u) h all =
      scheduled-Fine exam (record t { emails = t.emails ++ ((exam.candidate_email, exam.id) ∷ []) })
        h all
  mailed-Fine exam t (err e) h all = h

  pub confirm_exam-Fine :
      (exam : Exam) (s : Board)
      → IsReviewed s
      → is_complete s.slots exam ≡ true
      → Fine (confirm_exam o now exam s)
  unfolding confirm_exam
  confirm_exam-Fine exam s h mine_ok = elim (Bool-cases (is_in_review exam.status)) [
    | inr other ↦ rw other h
    | inl review ↦
        let t = add_invite o now exam s in
        rw review (
          mailed-Fine exam t (o.send_email exam (o.new_jti s) t) h
            (ready_of s.slots exam mine_ok (ground (arith, review))))
  ]

  pub refresh_ai_exam-Fine :
      (exam : Exam) (s : Board)
      → IsReviewed s
      → is_complete s.slots exam ≡ true
      → Fine (refresh_ai_exam o now exam s)
  unfolding refresh_ai_exam
  refresh_ai_exam-Fine exam s h mine_ok =
      after-Fine ((if is_generating exam.status then poll_exam o now exam else pure exam) s) _
        (elim (Bool-cases (is_generating exam.status)) [
          | inl generating ↦ rw generating (poll_exam-Fine exam s h mine_ok)
          | inr other ↦ rw other (h, mine_ok)
        ])
        (λ e t h' whole.
          elim (Bool-cases (is_in_review e.status && is_due now e.review_deadline_at)) [
            | inl due ↦ rw due (confirm_exam-Fine e t h' whole)
            | inr early ↦ rw early (h', whole)
          ])

  restarted-Fine :
      (exam : Exam) (ordinal : ℕ) (r : Result ScheduleError ℕ) (s : Board)
      → IsReviewed s
      → Fine (restarted exam ordinal r s)
  restarted-Fine exam ordinal (err e) s h = h
  restarted-Fine exam ordinal (ok job_id) s h =
      let ts = update (is_slot exam ordinal) (reset_slot job_id) s.slots in
      (
        All-update_where (λ a. is_complete s.slots a ≡ true) (λ a. is_complete ts a ≡ true) _
            regenerating s.exams (λ a _ _. refl)
            (λ a whole other.
              still_complete s.slots ts a
                (λ all. all_ready-reset a.org_id a.id exam ordinal job_id s.slots other ∙ all)
                whole)
            h,
        refl,
      )

  pub regenerate_slot-Fine :
      (exam : Exam) (ordinal : ℕ) (s : Board)
      → IsReviewed s
      → Fine (regenerate_slot o exam ordinal s)
  unfolding regenerate_slot
  regenerate_slot-Fine exam ordinal s h =
      guarded-Fine
        (not (
          is_generating exam.status
          || is_in_review exam.status
          || is_generation_failed exam.status))
        (first (is_slot exam ordinal) s.slots)
    where
      found-Fine : (t : Option ExamSlotQuestion) → Fine (regenerate_found o exam ordinal t s)
      found-Fine none = h
      found-Fine (some t) =
          restarted-Fine exam ordinal (o.generate_question t.topic_id t.difficulty_band s) s h

      guarded-Fine :
          (test : Bool) (t : Option ExamSlotQuestion)
          → Fine (
              (raise_if test ScheduleError.invalid_exam_status >> regenerate_found o exam ordinal t)
                s)
      guarded-Fine true t = h
      guarded-Fine false t = found-Fine t
