-- ===== src/Exam/Scheduling/Reachable.antt =====
-- The proposal of an exam, and all requests: an invariant of every board that can be reached.
use dsa_platform.Prelude.{
  ℕ, zero, suc, ◌+◌, String, true, false, none, List, [], ◌∷◌, ◌++◌, ◌≡◌, refl, ap, ◌∙◌, ◌==◌, ◌||◌,
  not, leb, All, All-append, arith, inl, inr, Bool-cases, Option-cases, Result, ok, err, after,
  pure, modify_state, ◌>>=◌, ◌>>◌,
}
use dsa_platform.Prelude.Table.{first}
use dsa_platform.Prelude.Removal.{first-All}
use dsa_platform.Prelude.Keyed.{has_key}
use dsa_platform.Exam.Db.{Exam, ExamStatus, ExamSlotQuestion}
use dsa_platform.Exam.Scheduling.{
  Board, ScheduleError, Services, BlueprintSlotSpec, BlueprintSpec, Handler, is_exam, mine,
  is_scheduled, new_slot, add_slot, generate, make_slots, fill_slots, new_exam, new_version,
  add_exam, create_blueprint, settled, fill_exam, schedule_ai_exam, refresh_ai_exam,
  regenerate_slot, require_exam, confirm_unless_scheduled, Request, serve, serve_all,
}
use dsa_platform.Exam.Scheduling.Ready.{is_open, is_complete, IsReviewed, all_ready-append}
use dsa_platform.Exam.Scheduling.Reviewed.{
  Fine, after-Fine, board_of, still_complete, confirm_exam-Fine, refresh_ai_exam-Fine,
  regenerate_slot-Fine,
}

-- No exam has the new identifier.
abbrev pub IsFresh : Services → Type 0
IsFresh o = (s : Board) → first (has_key (λ (e : Exam). e.id) (o.new_exam s)) s.exams ≡ none

module _ (o : Services) (id : ℕ) where
  -- While its slots are made, the exam of this identifier is not open yet.
  abbrev IsShut : Board → Type 0
  IsShut s = All (λ (e : Exam). (not (e.id == id) || not (is_open e.status)) ≡ true) s.exams

  -- A step that makes slots succeeds with the exams complete, or raises.
  abbrev Making : {A : Type 0} → Result ScheduleError A × Board → Type 0
  Making (ok a, s) = IsReviewed s × IsShut s
  Making (err e, s) = Unit

  after-Making :
      {A B : Type 0} (r : Result ScheduleError A × Board) (k : A → Handler B)
      → Making r
      → ((a : A) (s : Board) → IsReviewed s → IsShut s → Making (k a s))
      → Making (after r k)
  after-Making (ok a, s) k h rest = rest a s h.0 h.1
  after-Making (err e, s) k h rest = tt

  asked-Making : (r : Result ScheduleError ℕ) (s : Board) → IsReviewed s → IsShut s → Making (r, s)
  asked-Making (ok a) s h shut = (h, shut)
  asked-Making (err e) s h shut = tt

  one_complete :
      (t : ExamSlotQuestion) (ts : List ExamSlotQuestion) (e : Exam)
      → t.exam_id ≡ id
      → is_complete ts e ≡ true
      → (not (e.id == id) || not (is_open e.status)) ≡ true
      → is_complete (ts ++ (t ∷ [])) e ≡ true
  one_complete t ts e owner whole shut = elim (Bool-cases (is_open e.status)) [
    | inr closed ↦ rw closed refl
    | inl opened ↦
        let foreign : mine e.org_id e.id t ≡ false = ground (arith, owner, shut, opened) in
        still_complete ts (ts ++ (t ∷ [])) e
          (λ all. all_ready-append e.org_id e.id ts t foreign ∙ all) whole
  ]

  add_slot-IsReviewed :
      (t : ExamSlotQuestion) (s : Board)
      → t.exam_id ≡ id
      → IsReviewed s
      → IsShut s
      → IsReviewed (add_slot t s)
  add_slot-IsReviewed t s owner h shut = both s.exams h shut
    where
      both :
          (es : List Exam)
          → All (λ e. is_complete s.slots e ≡ true) es
          → All (λ (e : Exam). (not (e.id == id) || not (is_open e.status)) ≡ true) es
          → All (λ e. is_complete (s.slots ++ (t ∷ [])) e ≡ true) es
      both [] h' shut' = tt
      both (e ∷ es) h' shut' = (one_complete t s.slots e owner h'.0 shut'.0, both es h'.1 shut'.1)

  make_slots-Making :
      (org_id : ℕ) (spec : BlueprintSlotSpec) (ordinal n : ℕ) (s : Board)
      → IsReviewed s
      → IsShut s
      → Making (make_slots o org_id id spec ordinal n s)
  unfolding make_slots
  make_slots-Making org_id spec ordinal zero s h shut = (h, shut)
  make_slots-Making org_id spec ordinal (suc n) s h shut =
      after-Making (generate o spec s) _
        (asked-Making (o.generate_question spec.topic_id spec.difficulty_band s) s h shut)
        (λ job_id t h' shut'.
          let slot = new_slot org_id id ordinal spec job_id in
          make_slots-Making org_id spec (ordinal + 1) n (add_slot slot t)
            (add_slot-IsReviewed slot t refl h' shut') shut')

  fill_slots-Making :
      (org_id ordinal : ℕ) (specs : List BlueprintSlotSpec) (s : Board)
      → IsReviewed s
      → IsShut s
      → Making (fill_slots o org_id id ordinal specs s)
  unfolding fill_slots
  fill_slots-Making org_id ordinal [] s h shut = (h, shut)
  fill_slots-Making org_id ordinal (spec ∷ specs) s h shut =
      after-Making (make_slots o org_id id spec ordinal spec.question_count s) _
        (make_slots-Making org_id spec ordinal spec.question_count s h shut)
        (λ next t h' shut'. fill_slots-Making org_id next specs t h' shut')

  -- The exam with its slots, or the board as it was.
  filled-Fine :
      (org_id : ℕ) (e : Exam) (specs : List BlueprintSlotSpec) (s : Board)
      → e.id ≡ id
      → e.status ≡ ExamStatus.pending_generation
      → IsReviewed s
      → IsShut s
      → Fine (settled s ((modify_state (add_exam e) >> fill_slots o org_id id 1 specs >> pure e) s))
  filled-Fine org_id e specs s named generating h shut =
      let calm : is_open e.status ≡ false = ap is_open generating in
      let t = add_exam e s in
      ended (fill_slots o org_id id 1 specs t) (
        fill_slots-Making org_id 1 specs t
          (All-append (λ e. is_complete s.slots e ≡ true) s.exams (e ∷ []) h (rw calm refl, tt))
          (All-append (λ (e : Exam). (not (e.id == id) || not (is_open e.status)) ≡ true) s.exams
            (e ∷ []) shut (ground (arith, calm), tt)))
    where
      ended :
          (r : Result ScheduleError ℕ × Board) → Making r → Fine (settled s (after r (λ _. pure e)))
      ended (ok n, t) h' = (h'.0, rw generating refl)
      ended (err e', t) h' = h

fresh-IsShut :
    (id : ℕ) (es : List Exam)
    → first (has_key (λ (e : Exam). e.id) id) es ≡ none
    → All (λ (e : Exam). (not (e.id == id) || not (is_open e.status)) ≡ true) es
unfolding first
fresh-IsShut id [] absent = tt
fresh-IsShut id (e ∷ es) absent = elim (Bool-cases (e.id == id)) [
  | inl same ↦ absurd (ground (arith, absent, same))
  | inr other ↦ (rw other refl, fresh-IsShut id es (ground (arith, absent, other)))
]

module _ (o : Services) (fresh : IsFresh o) where
  schedule_ai_exam-Fine :
      (now org_id : ℕ) (email : String) (starts_at ends_at : ℕ) (s : Board)
      → IsReviewed s
      → Fine (schedule_ai_exam o now org_id email starts_at ends_at s)
  unfolding schedule_ai_exam
  schedule_ai_exam-Fine now org_id email starts_at ends_at s h =
      elim (Bool-cases (leb ends_at now)) [
        | inl over ↦ rw over h
        | inr ahead ↦ rw ahead (proposed (o.propose_blueprint s))
      ]
    where
      proposed :
          (r : Result ScheduleError BlueprintSpec)
          → Fine (
              after
                (r, s)
                (λ (spec : BlueprintSpec). create_blueprint o org_id spec >>= λ version_id.
                  fill_exam o org_id email starts_at ends_at spec version_id))
      proposed (err e) = h
      proposed (ok spec) =
          let t = record s {
            versions = s.versions ++ (new_version (o.new_version s) org_id spec ∷ []);
          } in
          let id = o.new_exam t in
          filled-Fine o id org_id (new_exam id org_id (o.new_version s) email starts_at ends_at)
            spec.topic_mix t refl refl h (fresh-IsShut id s.exams (fresh t))

  require_exam-Fine :
      (org_id exam_id : ℕ) (s : Board) → IsReviewed s → Fine (require_exam org_id exam_id s)
  require_exam-Fine org_id exam_id s h =
      elim (Option-cases (first (is_exam org_id exam_id) s.exams)) [
        | inl absent ↦ rw absent h
        | inr (e, found) ↦ rw found (
          h,
          first-All (λ e. is_complete s.slots e ≡ true) (is_exam org_id exam_id) s.exams h found,
        )
      ]

  -- A route finds the exam and refreshes it first.
  routed-Fine :
      (now org_id exam_id : ℕ) (k : Exam → Handler Exam) (s : Board)
      → IsReviewed s
      → ((e : Exam) (t : Board) → IsReviewed t → is_complete t.slots e ≡ true → Fine (k e t))
      → Fine ((require_exam org_id exam_id >>= λ e. refresh_ai_exam o now e >>= λ e. k e) s)
  routed-Fine now org_id exam_id k s h rest =
      after-Fine (require_exam org_id exam_id s) _ (require_exam-Fine org_id exam_id s h)
        (λ e t h' whole.
          after-Fine (refresh_ai_exam o now e t) k (refresh_ai_exam-Fine o now e t h' whole) rest)

  viewed-Fine :
      (now org_id exam_id : ℕ) (s : Board)
      → IsReviewed s
      → Fine ((require_exam org_id exam_id >>= λ e. refresh_ai_exam o now e) s)
  viewed-Fine now org_id exam_id s h =
      after-Fine (require_exam org_id exam_id s) (λ e. refresh_ai_exam o now e)
        (require_exam-Fine org_id exam_id s h) (refresh_ai_exam-Fine o now)

  serve-IsReviewed : (r : Request) (s : Board) → IsReviewed s → IsReviewed (serve o r s)
  unfolding serve
  serve-IsReviewed (Request.schedule_ai now org_id email starts_at ends_at) s h =
      board_of _ (schedule_ai_exam-Fine now org_id email starts_at ends_at s h)
  serve-IsReviewed (Request.view now org_id exam_id) s h =
      board_of _ (viewed-Fine now org_id exam_id s h)
  serve-IsReviewed (Request.confirm now org_id exam_id) s h = board_of _ (
      routed-Fine now org_id exam_id (confirm_unless_scheduled o now) s h (λ e t h' whole.
        elim (Bool-cases (is_scheduled e.status)) [
          | inl done ↦ rw done (h', whole)
          | inr open_it ↦ rw open_it (confirm_exam-Fine o now e t h' whole)
        ]))
  serve-IsReviewed (Request.regenerate now org_id exam_id ordinal) s h = board_of _ (
      routed-Fine now org_id exam_id (λ e. regenerate_slot o e ordinal) s h
        (λ e t h' whole. regenerate_slot-Fine o now e ordinal t h'))

  -- Take new identifiers for exams, and a board whose exams in review or scheduled have only slots
  -- that are ready, such as an empty one. After any sequence of proposals, views, confirmations and
  -- regenerations, whether the ai service and the mail answer or fail, an exam that is in review or
  -- scheduled still has only slots that are ready.
  pub serve_all-IsReviewed :
      (rs : List Request) (s : Board) → IsReviewed s → IsReviewed (serve_all o rs s)
  unfolding serve_all
  serve_all-IsReviewed [] s h = h
  serve_all-IsReviewed (r ∷ rs) s h = serve_all-IsReviewed rs (serve o r s) (serve-IsReviewed r s h)
