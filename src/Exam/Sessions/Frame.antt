-- ===== src/Exam/Sessions/Frame.antt =====
-- What the parts of `start_session` leave alone.
use dsa_platform.Prelude.{
  ℕ, suc, ◌+◌, String, ◌≡◌, refl, ◌∙◌, Option, some, List, [], ◌∷◌, Result, ok, err, inl, inr,
  Result-cases, Option-cases, length,
}
use dsa_platform.Exam.Db.{
  TopicEntry, ExamSlotQuestion, ExamSession, SessionQuestion, BlueprintVersion, Error, World,
  Payload,
}
use dsa_platform.Exam.Events.{emit}
use dsa_platform.Exam.Sessions.Rows.{Services, add_question}
use dsa_platform.Exam.Sessions.Assign.{
  question_row, draw, number, prepend, add_questions, assign_from, assign_slots,
}
use dsa_platform.Exam.Sessions.Handlers.{assign, emit_assigned}

-- Only questions were flushed.
pub record Flushed (w w' : World) : Type 0 where
  pub sessions : w'.db.sessions ≡ w.db.sessions
  pub exams : w'.db.exams ≡ w.db.exams
  pub saved : w'.saved ≡ w.saved
  pub sent : w'.sent ≡ w.sent

pub Flushed-refl : (w : World) → Flushed w w
Flushed-refl w = record { sessions = refl; exams = refl; saved = refl; sent = refl }

Flushed-trans : (u v w : World) → Flushed u v → Flushed v w → Flushed u w
Flushed-trans u v w a b = record {
  sessions = b.sessions ∙ a.sessions;
  exams = b.exams ∙ a.exams;
  saved = b.saved ∙ a.saved;
  sent = b.sent ∙ a.sent;
}

Flushed-add_questions : (qs : List SessionQuestion) (w : World) → Flushed w (add_questions qs w)
unfolding add_questions
Flushed-add_questions [] w = Flushed-refl w
Flushed-add_questions (q ∷ qs) w =
    let rest = Flushed-add_questions qs (add_question q w) in
    record { sessions = rest.sessions; exams = rest.exams; saved = rest.saved; sent = rest.sent }

Flushed-prepend :
    (w : World) (qs : List SessionQuestion) (r : Result Error (List SessionQuestion) × World)
    → Flushed w r.1
    → Flushed w (prepend qs r).1
Flushed-prepend w qs (ok more, w') h = h
Flushed-prepend w qs (err e, w') h = h

Flushed-assign_from :
    (services : Services) (org_id version : ℕ) (candidate : String) (sid n index : ℕ)
    (entries : List TopicEntry) (w : World)
    → Flushed w (assign_from services org_id version candidate sid n index entries w).1
unfolding assign_from
Flushed-assign_from services org_id version candidate sid n index [] w = Flushed-refl w
Flushed-assign_from services org_id version candidate sid n index (entry ∷ rest) w =
    elim (Result-cases (draw services org_id version candidate index entry)) [
      | inl (x, failed) ↦ rw (failed, assign_from) (Flushed-refl w)
      | inr (chosen, drawn) ↦
          let mine = number org_id sid n chosen in
          let w' = add_questions mine w in
          let later =
            assign_from services org_id version candidate sid (n + length chosen) (suc index) rest
              w' in
          rw (drawn, assign_from)
            (Flushed-prepend w mine later (
              Flushed-trans w w' later.1 (Flushed-add_questions mine w) (
                Flushed-assign_from services org_id version candidate sid (n + length chosen)
                  (suc index) rest w')))
    ]

Flushed-assign_slots :
    (org_id sid : ℕ) (slots : List ExamSlotQuestion) (w : World)
    → Flushed w (assign_slots org_id sid slots w).1
unfolding assign_slots
Flushed-assign_slots org_id sid [] w = Flushed-refl w
Flushed-assign_slots org_id sid (slot ∷ rest) w = elim (Option-cases slot.question_id) [
  | inl missing ↦ simp (missing) (Flushed-refl w)
  | inr (question_id, asked) ↦ elim (Option-cases slot.question_version_id) [
    | inl missing ↦ simp (asked, missing) (Flushed-refl w)
    | inr (version_id, pinned) ↦
        let q = question_row org_id sid slot.ordinal question_id version_id in
        let later = assign_slots org_id sid rest (add_question q w) in
        let h = Flushed-assign_slots org_id sid rest (add_question q w) in
        simp (asked, pinned)
          (Flushed-prepend w (q ∷ []) later
            (record { sessions = h.sessions; exams = h.exams; saved = h.saved; sent = h.sent }))
  ]
]

pub Flushed-assign :
    (services : Services) (e : ExamSession) (v : BlueprintVersion) (slots : List ExamSlotQuestion)
    (w : World)
    → Flushed w (assign services e v slots w).1
unfolding assign
Flushed-assign services e v [] w =
    Flushed-assign_from services e.org_id v.id e.candidate_email e.id 1 0 v.topic_mix w
Flushed-assign services e v (slot ∷ slots) w = Flushed-assign_slots e.org_id e.id (slot ∷ slots) w

-- The events add rows to the log and commit it; nothing else changes.
pub record Told (w w' : World) : Type 0 where
  pub sessions : w'.db.sessions ≡ w.db.sessions
  pub exams : w'.db.exams ≡ w.db.exams
  pub questions : w'.db.questions ≡ w.db.questions
  pub sent : w'.sent ≡ w.sent
  pub saved : w'.saved ≡ w'.db

pub Told-emit :
    (org_id sid : ℕ) (p : Payload) (version : Option ℕ) (w : World)
    → Told w (emit org_id sid p version w)
unfolding emit
Told-emit org_id sid p version w = record {
  sessions = refl;
  exams = refl;
  questions = refl;
  sent = refl;
  saved = refl;
}

Told-trans : (u v w : World) → Told u v → Told v w → Told u w
Told-trans u v w a b = record {
  sessions = b.sessions ∙ a.sessions;
  exams = b.exams ∙ a.exams;
  questions = b.questions ∙ a.questions;
  sent = b.sent ∙ a.sent;
  saved = b.saved;
}

pub Told-emit_assigned :
    (qs : List SessionQuestion) (w : World) → w.saved ≡ w.db → Told w (emit_assigned qs w)
unfolding emit_assigned
Told-emit_assigned [] w h = record {
  sessions = refl;
  exams = refl;
  questions = refl;
  sent = refl;
  saved = h;
}
Told-emit_assigned (q ∷ qs) w h =
    let first =
      emit q.org_id q.session_id (Payload.question_assigned q.ordinal q.question_id)
        (some q.question_version_id) w in
    Told-trans w first (emit_assigned (q ∷ qs) w)
      (Told-emit q.org_id q.session_id (Payload.question_assigned q.ordinal q.question_id)
        (some q.question_version_id) w)
      (Told-emit_assigned qs first refl)
