-- ===== src/Exam/Sessions/Assign.antt =====
-- The choice of a session's questions: `choose` of services/exam/app/services/sampling.py, and the
-- two branches of `start_session` that write the session's questions.
use dsa_platform.Prelude.{
  ℕ, suc, ◌+◌, ◌-◌, String, none, some, List, [], ◌∷◌, ◌++◌, ◌==◌, ltb, Result, ok, err, Exec,
  if◌then◌else◌, length, range_from,
}
use dsa_platform.Prelude.Table.{sort_by}
use dsa_platform.Exam.Db.{
  TopicEntry, ExamSlotQuestion, SessionQuestion, Error, insufficient_question_pool, assertion,
  World,
}
use dsa_platform.Exam.Sessions.Rows.{Services, QuestionRef, add_question}

-- `pool[ref.question_id] = ref`
unfoldable pub put_ref : QuestionRef → List QuestionRef → List QuestionRef
put_ref r [] = r ∷ []
put_ref r (x ∷ xs) = if r.question_id == x.question_id then r ∷ xs else x ∷ put_ref r xs

unfoldable pub put_refs : List QuestionRef → List QuestionRef → List QuestionRef
unfolding put_ref
put_refs [] pool = pool
put_refs (r ∷ rs) pool = put_refs rs (put_ref r pool)

-- one call of the question service for each difficulty
unfoldable pub pool_of :
    Services → ℕ → ℕ → List ℕ → List QuestionRef → Result Error (List QuestionRef)
unfolding put_refs
pool_of services org_id topic_id [] pool = ok pool
pool_of services org_id topic_id (d ∷ ds) pool = elim (services.published org_id topic_id d) [
  | err e ↦ err e
  | ok refs ↦ pool_of services org_id topic_id ds (put_refs refs pool)
]

unfoldable pub choose :
    Services → ℕ → String → ℕ → List QuestionRef → ℕ → Result Error (List QuestionRef)
choose services version_id candidate index pool count =
    if ltb (length pool) count
    then err insufficient_question_pool
    else ok (services.sample version_id candidate index pool count)

-- one entry of the topic mix
unfoldable pub draw : Services → ℕ → ℕ → String → ℕ → TopicEntry → Result Error (List QuestionRef)
unfolding pool_of choose
draw services org_id version_id candidate index entry =
    elim (pool_of services org_id entry.topic_id
      (range_from entry.difficulty_min (entry.difficulty_max + 1 - entry.difficulty_min)) []) [
        | err e ↦ err e
        | ok pool ↦
            choose services version_id candidate index (sort_by (λ r. r.question_id) pool)
              entry.question_count
      ]

abbrev pub question_row : ℕ → ℕ → ℕ → ℕ → ℕ → SessionQuestion
question_row org_id sid ordinal question_id version_id = record {
  org_id = org_id;
  session_id = sid;
  ordinal = ordinal;
  question_id = question_id;
  question_version_id = version_id;
  shown_at = none;
}

-- the chosen questions under ordinals that go on from `ordinal`
unfoldable pub number : ℕ → ℕ → ℕ → List QuestionRef → List SessionQuestion
number org_id sid ordinal [] = []
number org_id sid ordinal (r ∷ rs) =
    question_row org_id sid ordinal r.question_id r.published_version_id
    ∷ number org_id sid (ordinal + 1) rs

unfoldable pub add_questions : List SessionQuestion → World → World
add_questions [] w = w
add_questions (q ∷ qs) w = add_questions qs (add_question q w)

-- `assigned.append`
abbrev pub prepend :
    List SessionQuestion
    → Result Error (List SessionQuestion) × World
    → Result Error (List SessionQuestion) × World
prepend qs (err e, w) = (err e, w)
prepend qs (ok more, w) = (ok (qs ++ more), w)

-- the loop over the topic mix; an error leaves the rows that were flushed before it
unfoldable pub assign_from :
    Services
    → ℕ
    → ℕ
    → String
    → ℕ
    → ℕ
    → ℕ
    → List TopicEntry
    → Exec Error World (List SessionQuestion)
assign_from services org_id version_id candidate sid ordinal index [] w = (ok [], w)
assign_from services org_id version_id candidate sid ordinal index (entry ∷ rest) w =
    elim (draw services org_id version_id candidate index entry) [
      | err e ↦ (err e, w)
      | ok chosen ↦
          let mine = number org_id sid ordinal chosen in
          prepend mine (
            assign_from services org_id version_id candidate sid (ordinal + length chosen)
              (suc index) rest (add_questions mine w))
    ]

-- the loop over the pinned slots of a profile-driven exam
unfoldable pub assign_slots :
    ℕ → ℕ → List ExamSlotQuestion → Exec Error World (List SessionQuestion)
assign_slots org_id sid [] w = (ok [], w)
assign_slots org_id sid (slot ∷ rest) w = elim slot.question_id [
  | none ↦ (err assertion, w)
  | some question_id ↦ elim slot.question_version_id [
    | none ↦ (err assertion, w)
    | some version_id ↦
        let q = question_row org_id sid slot.ordinal question_id version_id in
        prepend (q ∷ []) (assign_slots org_id sid rest (add_question q w))
  ]
]
