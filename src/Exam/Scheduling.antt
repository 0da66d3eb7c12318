-- ===== src/Exam/Scheduling.antt =====
-- services/exam/app/services/ai_scheduling.py, with `send_invite` of scheduling.py, the repositories
-- of slots and invites, and the routes that call them. An exam is found by its organisation and its
-- identifier; the rows of its slots stand in the order of their numbers.
use dsa_platform.Prelude.{
  ℕ, zero, suc, ◌+◌, ◌-◌, max, String, Bool, true, false, Option, none, some, List, [], ◌∷◌, ◌++◌,
  ◌==◌, ◌&&◌, ◌||◌, not, any, is_empty, leb, map, if◌then◌else◌, Exec, Result, ok, err, pure, raise,
  raise_if, modify_state, ◌>>=◌, ◌>>◌,
}
use dsa_platform.Prelude.Table.{first, select, update}
use dsa_platform.Exam.Db.{
  Exam, ExamStatus, ExamSlotQuestion, SlotStatus, TopicEntry, BlueprintVersion,
}
pub mod Ready
pub mod Reviewed
pub mod Reachable

pub data InviteStatus : Type 0 where
  pending consumed revoked : InviteStatus

pub record Invite : Type 0 where
  pub id : ℕ
  pub org_id : ℕ
  pub exam_id : ℕ
  pub jti : ℕ
  pub candidate_email : String
  pub status : InviteStatus
  pub consumed_at : Option ℕ

-- The entry of an invitation in Redis, with its time to live.
pub record InviteKey : Type 0 where
  pub jti : ℕ
  pub invite_id : ℕ
  pub exam_id : ℕ
  pub set_at : ℕ
  pub ttl : ℕ

-- `invites` are rows; `keys` and `emails` take effect at once.
pub record Board : Type 0 where
  pub versions : List BlueprintVersion
  pub exams : List Exam
  pub slots : List ExamSlotQuestion
  pub invites : List Invite
  pub keys : List InviteKey
  pub emails : List (String × ℕ)

pub data ScheduleError : Type 0 where
  not_found invalid_window invalid_exam_status upstream : ScheduleError

-- What a client returns for the `status` of a job: `succeeded`, `failed`, or another one.
pub data JobStatus : Type 0 where
  succeeded failed other : JobStatus

pub record GenerationStatus : Type 0 where
  pub status : JobStatus
  pub question_id : Option ℕ
  pub question_version_id : Option ℕ
  pub error : Option String

pub record BlueprintSlotSpec : Type 0 where
  pub topic_id : ℕ
  pub difficulty_band : String
  pub difficulty_min : ℕ
  pub difficulty_max : ℕ
  pub question_count : ℕ

pub record BlueprintSpec : Type 0 where
  pub topic_mix : List BlueprintSlotSpec
  pub total_duration_minutes : ℕ

-- The ai service, the mail, and fresh identifiers.
pub record Services : Type 0 where
  pub propose_blueprint : Board → Result ScheduleError BlueprintSpec
  pub generate_question : ℕ → String → Board → Result ScheduleError ℕ
  pub get_generation_status : ℕ → Board → Result ScheduleError GenerationStatus
  pub send_email : Exam → ℕ → Board → Result ScheduleError Unit
  pub new_exam : Board → ℕ
  pub new_version : Board → ℕ
  pub new_invite : Board → ℕ
  pub new_jti : Board → ℕ
  pub ai_exam_review_timeout_seconds : ℕ

abbrev pub Handler : Type 0 → Type 0
Handler A = Exec ScheduleError Board A

abbrev pub is_exam : ℕ → ℕ → Exam → Bool
is_exam org_id exam_id e = e.id == exam_id && e.org_id == org_id

abbrev pub set_exam : Exam → (Exam → Exam) → Board → Board
set_exam exam change s = record s { exams = update (is_exam exam.org_id exam.id) change s.exams }

abbrev pub save : Exam → (Exam → Exam) → Handler Exam
save exam change = modify_state (set_exam exam change) >> pure (change exam)

-- The slot is one of the exam's.
abbrev pub mine : ℕ → ℕ → ExamSlotQuestion → Bool
mine org_id exam_id t = t.org_id == org_id && t.exam_id == exam_id

abbrev pub is_pending : SlotStatus → Bool
is_pending SlotStatus.pending = true
is_pending SlotStatus.ready = false
is_pending SlotStatus.failed = false

abbrev pub is_ready : SlotStatus → Bool
is_ready SlotStatus.ready = true
is_ready SlotStatus.pending = false
is_ready SlotStatus.failed = false

abbrev pub is_failed : SlotStatus → Bool
is_failed SlotStatus.failed = true
is_failed SlotStatus.pending = false
is_failed SlotStatus.ready = false

abbrev pub settled_as : JobStatus → GenerationStatus → ExamSlotQuestion → ExamSlotQuestion
settled_as JobStatus.succeeded g t = record t {
  question_id = g.question_id;
  question_version_id = g.question_version_id;
  status = SlotStatus.ready;
}
settled_as JobStatus.failed g t = record t { status = SlotStatus.failed; error = g.error }
settled_as JobStatus.other g t = t

abbrev pub answered :
    Result ScheduleError GenerationStatus → ExamSlotQuestion → Result ScheduleError ExamSlotQuestion
answered (ok g) t = ok (settled_as g.status g t)
answered (err e) t = err e

-- one round of `for slot in slots`
abbrev pub poll_slot :
    Services → Board → ℕ → ℕ → ExamSlotQuestion → Result ScheduleError ExamSlotQuestion
poll_slot o s org_id exam_id t =
    if mine org_id exam_id t && is_pending t.status
    then answered (o.get_generation_status t.generation_job_id s) t
    else ok t

abbrev pub cons_result :
    {A : Type 0}
    → Result ScheduleError A
    → Result ScheduleError (List A)
    → Result ScheduleError (List A)
cons_result (ok x) (ok xs) = ok (x ∷ xs)
cons_result (ok x) (err e) = err e
cons_result (err e) rest = err e

unfoldable pub poll_slots :
    Services → Board → ℕ → ℕ → List ExamSlotQuestion → Result ScheduleError (List ExamSlotQuestion)
poll_slots o s org_id exam_id [] = ok []
poll_slots o s org_id exam_id (t ∷ ts) =
    cons_result (poll_slot o s org_id exam_id t) (poll_slots o s org_id exam_id ts)

abbrev pub any_failed : List ExamSlotQuestion → Bool
any_failed ts = any (λ (t : ExamSlotQuestion). is_failed t.status) ts

abbrev pub only_ready : List ExamSlotQuestion → Bool
only_ready ts =
    not (is_empty ts) && not (any (λ (t : ExamSlotQuestion). not (is_ready t.status)) ts)

-- `_recompute_exam_status`
abbrev pub recomputed : Services → ℕ → List ExamSlotQuestion → Exam → Exam
recomputed o now slots e =
    if any_failed slots
    then record e { status = ExamStatus.generation_failed }
    else if only_ready slots
    then record e {
      status = ExamStatus.pending_review;
      review_deadline_at = some (now + o.ai_exam_review_timeout_seconds);
    }
    else e

abbrev pub own_slots : Exam → List ExamSlotQuestion → List ExamSlotQuestion
own_slots exam ts = select (mine exam.org_id exam.id) ts

abbrev pub polled :
    Services → ℕ → Exam → Result ScheduleError (List ExamSlotQuestion) → Handler Exam
polled o now exam (err e) = raise e
polled o now exam (ok ts) =
    modify_state (λ s. record s { slots = ts }) >> save exam (recomputed o now (own_slots exam ts))

abbrev pub poll_exam : Services → ℕ → Exam → Handler Exam
poll_exam o now exam s = polled o now exam (poll_slots o s exam.org_id exam.id s.slots) s

abbrev pub is_generating : ExamStatus → Bool
is_generating ExamStatus.pending_generation = true
is_generating _ = false

abbrev pub is_in_review : ExamStatus → Bool
is_in_review ExamStatus.pending_review = true
is_in_review _ = false

abbrev pub is_generation_failed : ExamStatus → Bool
is_generation_failed ExamStatus.generation_failed = true
is_generation_failed _ = false

abbrev pub is_scheduled : ExamStatus → Bool
is_scheduled ExamStatus.scheduled = true
is_scheduled _ = false

abbrev pub is_due : ℕ → Option ℕ → Bool
is_due now none = false
is_due now (some deadline) = leb deadline now

abbrev pub add_invite : Services → ℕ → Exam → Board → Board
add_invite o now exam s =
    let i = o.new_invite s in
    let jti = o.new_jti s in
    record s {
      invites =
          s.invites
          ++ (record {
            id = i;
            org_id = exam.org_id;
            exam_id = exam.id;
            jti = jti;
            candidate_email = exam.candidate_email;
            status = InviteStatus.pending;
            consumed_at = none;
          }
              ∷ []);
      keys =
          s.keys
          ++ (record {
            jti = jti;
            invite_id = i;
            exam_id = exam.id;
            set_at = now;
            ttl = max 1 (exam.ends_at - now);
          }
              ∷ []);
    }

abbrev pub mailed : Exam → Result ScheduleError Unit → Handler Unit
mailed exam (ok u) =
    modify_state (λ s. record s { emails = s.emails ++ ((exam.candidate_email, exam.id) ∷ []) })
mailed exam (err e) = raise e

-- The row and the key are there before the mail is sent.
abbrev pub send_invite : Services → ℕ → Exam → Handler Unit
send_invite o now exam s =
    (modify_state (add_invite o now exam) >> λ t. mailed exam (o.send_email exam (o.new_jti s) t) t)
      s

abbrev pub scheduled : Exam → Exam
scheduled e = record e { status = ExamStatus.scheduled }

unfoldable pub confirm_exam : Services → ℕ → Exam → Handler Exam
confirm_exam o now exam =
    raise_if (not (is_in_review exam.status)) ScheduleError.invalid_exam_status
    >> send_invite o now exam
    >> save exam scheduled

unfoldable pub refresh_ai_exam : Services → ℕ → Exam → Handler Exam
refresh_ai_exam o now exam =
    (if is_generating exam.status then poll_exam o now exam else pure exam) >>= λ (exam : Exam).
    if is_in_review exam.status && is_due now exam.review_deadline_at
    then confirm_exam o now exam
    else pure exam

abbrev pub regenerating : Exam → Exam
regenerating e = record e { status = ExamStatus.pending_generation; review_deadline_at = none }

abbrev pub reset_slot : ℕ → ExamSlotQuestion → ExamSlotQuestion
reset_slot job_id t = record t {
  generation_job_id = job_id;
  question_id = none;
  question_version_id = none;
  status = SlotStatus.pending;
  error = none;
}

abbrev pub is_slot : Exam → ℕ → ExamSlotQuestion → Bool
is_slot exam ordinal t = mine exam.org_id exam.id t && t.ordinal == ordinal

abbrev pub restarted : Exam → ℕ → Result ScheduleError ℕ → Handler Exam
restarted exam ordinal (err e) = raise e
restarted exam ordinal (ok job_id) =
    modify_state
      (λ s. record s { slots = update (is_slot exam ordinal) (reset_slot job_id) s.slots })
    >> save exam regenerating

abbrev pub regenerate_found : Services → Exam → ℕ → Option ExamSlotQuestion → Handler Exam
regenerate_found o exam ordinal none s = (err ScheduleError.not_found, s)
regenerate_found o exam ordinal (some t) s =
    restarted exam ordinal (o.generate_question t.topic_id t.difficulty_band s) s

unfoldable pub regenerate_slot : Services → Exam → ℕ → Handler Exam
regenerate_slot o exam ordinal s =
    (raise_if
          (not (
            is_generating exam.status
            || is_in_review exam.status
            || is_generation_failed exam.status))
          ScheduleError.invalid_exam_status
        >> regenerate_found o exam ordinal (first (is_slot exam ordinal) s.slots))
      s

abbrev pub new_slot : ℕ → ℕ → ℕ → BlueprintSlotSpec → ℕ → ExamSlotQuestion
new_slot org_id exam_id ordinal spec job_id = record {
  org_id = org_id;
  exam_id = exam_id;
  ordinal = ordinal;
  topic_id = spec.topic_id;
  difficulty_band = spec.difficulty_band;
  generation_job_id = job_id;
  question_id = none;
  question_version_id = none;
  status = SlotStatus.pending;
  error = none;
}

abbrev pub add_slot : ExamSlotQuestion → Board → Board
add_slot t s = record s { slots = s.slots ++ (t ∷ []) }

abbrev pub generate : Services → BlueprintSlotSpec → Handler ℕ
generate o spec s = (o.generate_question spec.topic_id spec.difficulty_band s, s)

-- `for _ in range(slot.question_count)`; the next number
unfoldable pub make_slots : Services → ℕ → ℕ → BlueprintSlotSpec → ℕ → ℕ → Handler ℕ
make_slots o org_id exam_id spec ordinal zero = pure ordinal
make_slots o org_id exam_id spec ordinal (suc n) = generate o spec >>= λ job_id.
    modify_state (add_slot (new_slot org_id exam_id ordinal spec job_id))
    >> make_slots o org_id exam_id spec (ordinal + 1) n

unfoldable pub fill_slots : Services → ℕ → ℕ → ℕ → List BlueprintSlotSpec → Handler ℕ
fill_slots o org_id exam_id ordinal [] = pure ordinal
fill_slots o org_id exam_id ordinal (spec ∷ specs) =
    make_slots o org_id exam_id spec ordinal spec.question_count >>= λ next.
    fill_slots o org_id exam_id next specs

abbrev pub topic_entry : BlueprintSlotSpec → TopicEntry
topic_entry spec = record {
  topic_id = spec.topic_id;
  difficulty_min = spec.difficulty_min;
  difficulty_max = spec.difficulty_max;
  question_count = spec.question_count;
}

abbrev pub new_version : ℕ → ℕ → BlueprintSpec → BlueprintVersion
new_version id org_id spec = record {
  id = id;
  org_id = org_id;
  total_duration_minutes = spec.total_duration_minutes;
  topic_mix = map topic_entry spec.topic_mix;
}

abbrev pub new_exam : ℕ → ℕ → ℕ → String → ℕ → ℕ → Exam
new_exam id org_id version_id email starts_at ends_at = record {
  id = id;
  org_id = org_id;
  blueprint_version_id = version_id;
  candidate_email = email;
  starts_at = starts_at;
  ends_at = ends_at;
  status = ExamStatus.pending_generation;
  review_deadline_at = none;
}

abbrev pub add_exam : Exam → Board → Board
add_exam e s = record s { exams = s.exams ++ (e ∷ []) }

abbrev pub create_blueprint : Services → ℕ → BlueprintSpec → Handler ℕ
create_blueprint o org_id spec s = (
  ok (o.new_version s),
  record s { versions = s.versions ++ (new_version (o.new_version s) org_id spec ∷ []) },
)

abbrev pub settled :
    {A : Type 0} → Board → Result ScheduleError A × Board → Result ScheduleError A × Board
settled s (ok a, s') = (ok a, s')
settled s (err e, s') = (err e, s)

-- the exam and its slots, which are committed together
abbrev pub fill_exam : Services → ℕ → String → ℕ → ℕ → BlueprintSpec → ℕ → Handler Exam
fill_exam o org_id email starts_at ends_at spec version_id s =
    let e = new_exam (o.new_exam s) org_id version_id email starts_at ends_at in
    settled s ((modify_state (add_exam e) >> fill_slots o org_id e.id 1 spec.topic_mix >> pure e) s)

-- The blueprint is committed before the exam is made.
unfoldable pub schedule_ai_exam : Services → ℕ → ℕ → String → ℕ → ℕ → Handler Exam
schedule_ai_exam o now org_id email starts_at ends_at =
    raise_if (leb ends_at now) ScheduleError.invalid_window
    >> (λ s. (o.propose_blueprint s, s))
    >>= λ (spec : BlueprintSpec). create_blueprint o org_id spec >>= λ version_id.
        fill_exam o org_id email starts_at ends_at spec version_id

abbrev pub required : Option Exam → Handler Exam
required none = raise ScheduleError.not_found
required (some e) = pure e

abbrev pub require_exam : ℕ → ℕ → Handler Exam
require_exam org_id exam_id s = required (first (is_exam org_id exam_id) s.exams) s

abbrev pub confirm_unless_scheduled : Services → ℕ → Exam → Handler Exam
confirm_unless_scheduled o now e = if is_scheduled e.status then pure e else confirm_exam o now e

-- What an examiner asks for, at a point in time, for an exam of the own organisation.
pub data Request : Type 0 where
  schedule_ai : ℕ → ℕ → String → ℕ → ℕ → Request
  view confirm : ℕ → ℕ → ℕ → Request
  regenerate : ℕ → ℕ → ℕ → ℕ → Request

unfoldable pub serve : Services → Request → Board → Board
serve o (Request.schedule_ai now org_id email starts_at ends_at) s =
    (schedule_ai_exam o now org_id email starts_at ends_at s).1
serve o (Request.view now org_id exam_id) s =
    ((require_exam org_id exam_id >>= λ e. refresh_ai_exam o now e) s).1
serve o (Request.confirm now org_id exam_id) s =
    ((require_exam org_id exam_id >>= λ e.
    refresh_ai_exam o now e >>= λ e. confirm_unless_scheduled o now e)
      s).1
serve o (Request.regenerate now org_id exam_id ordinal) s =
    ((require_exam org_id exam_id >>= λ e.
    refresh_ai_exam o now e >>= λ e. regenerate_slot o e ordinal)
      s).1

unfoldable pub serve_all : Services → List Request → Board → Board
serve_all o [] s = s
serve_all o (r ∷ rs) s = serve_all o rs (serve o r s)
