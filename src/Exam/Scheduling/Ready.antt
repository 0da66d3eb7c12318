-- ===== src/Exam/Scheduling/Ready.antt =====
-- An exam is in review or scheduled only with all of its questions: the invariant, and the changes
-- of the tables that keep it.
use dsa_platform.Prelude.{
  ℕ, Bool, true, false, List, [], ◌∷◌, ◌++◌, ◌≡◌, refl, ap, ◌==◌, ◌&&◌, ◌||◌, not, any, and_both,
  All, arith, inl, inr, Bool-cases, if◌then◌else◌, Result, ok, err,
}
use dsa_platform.Prelude.Table.{select, update}
use dsa_platform.Exam.Db.{Exam, ExamStatus, ExamSlotQuestion, SlotStatus}
use dsa_platform.Exam.Scheduling.{
  Board, ScheduleError, JobStatus, GenerationStatus, Services, mine, is_pending, is_ready,
  settled_as, answered, poll_slot, cons_result, poll_slots, is_in_review, is_scheduled, reset_slot,
  is_slot,
}

abbrev pub all_ready : ℕ → ℕ → List ExamSlotQuestion → Bool
all_ready org_id exam_id [] = true
all_ready org_id exam_id (t ∷ ts) =
    (not (mine org_id exam_id t) || is_ready t.status) && all_ready org_id exam_id ts

abbrev pub is_open : ExamStatus → Bool
is_open status = is_in_review status || is_scheduled status

-- An exam in review or scheduled has only slots that are ready.
abbrev pub is_complete : List ExamSlotQuestion → Exam → Bool
is_complete slots e = not (is_open e.status) || all_ready e.org_id e.id slots

abbrev pub IsReviewed : Board → Type 0
IsReviewed s = All (λ e. is_complete s.slots e ≡ true) s.exams

pub All-imp :
    {A : Type 0} (P Q : A → Type 0) (xs : List A) → ((a : A) → P a → Q a) → All P xs → All Q xs
All-imp P Q [] imp h = tt
All-imp P Q (x ∷ xs) imp h = (imp x h.0, All-imp P Q xs imp h.1)

pending-ne_ready : (status : SlotStatus) → is_pending status ≡ true → is_ready status ≡ false
pending-ne_ready SlotStatus.pending h = refl
pending-ne_ready SlotStatus.ready h = absurd (ground arith)
pending-ne_ready SlotStatus.failed h = absurd (ground arith)

abbrev pub unready_slot : List ExamSlotQuestion → Bool
unready_slot ts = any (λ (t : ExamSlotQuestion). not (is_ready t.status)) ts

module _ (org_id exam_id : ℕ) where
  abbrev ready_if_mine : ExamSlotQuestion → Bool
  ready_if_mine t = not (mine org_id exam_id t) || is_ready t.status

  -- A poll makes no slot unready, and keeps whose it is.
  settled_as-ready :
      (status : JobStatus) (g : GenerationStatus) (t : ExamSlotQuestion)
      → is_pending t.status ≡ true
      → ready_if_mine t ≡ true
      → ready_if_mine (settled_as status g t) ≡ true
  settled_as-ready JobStatus.succeeded g t pending h = ground arith
  settled_as-ready JobStatus.failed g t pending h =
      let unready = pending-ne_ready t.status pending in
      let other : mine org_id exam_id t ≡ false = ground (arith, unready, h) in rw other refl
  settled_as-ready JobStatus.other g t pending h = h

  abbrev StillReady : ExamSlotQuestion → Result ScheduleError ExamSlotQuestion → Type 0
  StillReady t (ok t') = ready_if_mine t ≡ true → ready_if_mine t' ≡ true
  StillReady t (err e) = Unit

  abbrev pub StillAll :
      List ExamSlotQuestion → Result ScheduleError (List ExamSlotQuestion) → Type 0
  StillAll ts (ok ts') = all_ready org_id exam_id ts ≡ true → all_ready org_id exam_id ts' ≡ true
  StillAll ts (err e) = Unit

  answered-StillReady :
      (r : Result ScheduleError GenerationStatus) (t : ExamSlotQuestion)
      → is_pending t.status ≡ true
      → StillReady t (answered r t)
  answered-StillReady (ok g) t pending = settled_as-ready g.status g t pending
  answered-StillReady (err e) t pending = tt

  poll_slot-StillReady :
      (o : Services) (s : Board) (org exam : ℕ) (t : ExamSlotQuestion)
      → StillReady t (poll_slot o s org exam t)
  poll_slot-StillReady o s org exam t = elim (Bool-cases (mine org exam t && is_pending t.status)) [
    | inl asked ↦ rw asked (
        answered-StillReady (o.get_generation_status t.generation_job_id s) t
          (and_both (mine org exam t) (is_pending t.status) asked).1)
    | inr left ↦ rw left (λ h. h)
  ]

  cons_result-StillAll :
      (t : ExamSlotQuestion) (ts : List ExamSlotQuestion)
      (r : Result ScheduleError ExamSlotQuestion)
      (rs : Result ScheduleError (List ExamSlotQuestion))
      → StillReady t r
      → StillAll ts rs
      → StillAll (t ∷ ts) (cons_result r rs)
  cons_result-StillAll t ts (ok t') (ok ts') h h' = λ all.
      let both = and_both (ready_if_mine t) (all_ready org_id exam_id ts) all in
      rw (h both.0, h' both.1) refl
  cons_result-StillAll t ts (ok t') (err e) h h' = tt
  cons_result-StillAll t ts (err e) rs h h' = tt

  pub poll_slots-StillAll :
      (o : Services) (s : Board) (org exam : ℕ) (ts : List ExamSlotQuestion)
      → StillAll ts (poll_slots o s org exam ts)
  unfolding poll_slots
  poll_slots-StillAll o s org exam [] = λ h. h
  poll_slots-StillAll o s org exam (t ∷ ts) =
      cons_result-StillAll t ts (poll_slot o s org exam t) (poll_slots o s org exam ts)
        (poll_slot-StillReady o s org exam t) (poll_slots-StillAll o s org exam ts)

  -- Where the exam's slots are all ready, all of its rows are.
  pub own_slots-ready :
      (ts : List ExamSlotQuestion)
      → unready_slot (select (mine org_id exam_id) ts) ≡ false
      → all_ready org_id exam_id ts ≡ true
  unfolding select
  own_slots-ready [] h = refl
  own_slots-ready (t ∷ ts) h = elim (Bool-cases (mine org_id exam_id t)) [
    | inl own ↦
        let both : (is_ready t.status ≡ true)
            × (unready_slot (select (mine org_id exam_id) ts) ≡ false) =
          own_first own h in
        rw (own, both.0, own_slots-ready ts both.1) refl
    | inr foreign ↦
        let rest : unready_slot (select (mine org_id exam_id) ts) ≡ false =
          foreign_first foreign h in
        rw (foreign, own_slots-ready ts rest) refl
  ]
    where
      own_first :
          {b : Bool}
          → b ≡ true
          → unready_slot
              (if b then t ∷ select (mine org_id exam_id) ts else select (mine org_id exam_id) ts)
            ≡ false
          → (is_ready t.status ≡ true) × (unready_slot (select (mine org_id exam_id) ts) ≡ false)
      own_first own h = ground arith

      foreign_first :
          {b : Bool}
          → b ≡ false
          → unready_slot
              (if b then t ∷ select (mine org_id exam_id) ts else select (mine org_id exam_id) ts)
            ≡ false
          → unready_slot (select (mine org_id exam_id) ts) ≡ false
      foreign_first foreign h = ground arith

  -- Slots of another exam do not matter.
  pub all_ready-reset :
      (exam : Exam) (ordinal job_id : ℕ) (ts : List ExamSlotQuestion)
      → (exam_id == exam.id && org_id == exam.org_id) ≡ false
      → all_ready org_id exam_id (update (is_slot exam ordinal) (reset_slot job_id) ts)
        ≡ all_ready org_id exam_id ts
  unfolding update
  all_ready-reset exam ordinal job_id [] other = refl
  all_ready-reset exam ordinal job_id (t ∷ ts) other = elim (Bool-cases (is_slot exam ordinal t)) [
    | inl hit ↦
        let foreign : mine org_id exam_id t ≡ false =
          apart (and_both (mine exam.org_id exam.id t) (t.ordinal == ordinal) hit).0 other in
        rw hit (rw foreign (all_ready-reset exam ordinal job_id ts other))
    | inr missed ↦
        rw missed (ap (λ b. ready_if_mine t && b) (all_ready-reset exam ordinal job_id ts other))
  ]
    where
      apart :
          mine exam.org_id exam.id t ≡ true
          → (exam_id == exam.id && org_id == exam.org_id) ≡ false
          → mine org_id exam_id t ≡ false
      apart hit other = ground arith

  pub all_ready-append :
      (ts : List ExamSlotQuestion) (t : ExamSlotQuestion)
      → mine org_id exam_id t ≡ false
      → all_ready org_id exam_id (ts ++ (t ∷ [])) ≡ all_ready org_id exam_id ts
  all_ready-append [] t other = rw other refl
  all_ready-append (u ∷ us) t other = ap (λ b. ready_if_mine u && b) (all_ready-append us t other)
