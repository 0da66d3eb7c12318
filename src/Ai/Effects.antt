-- ===== src/Ai/Effects.antt =====
-- Steps that succeed and what they leave as it was, while the services outside answer.
use dsa_platform.Prelude.{
  ℕ, suc, Bool, true, false, Option, none, some, List, [], ◌∷◌, ◌++◌, ◌≡◌, refl, ◌∙◌, All, arith,
  Result, ok, err, after, ◌>>◌, if◌then◌else◌,
}
use dsa_platform.Judge.Contracts.{DiffJob}
use dsa_platform.Ai.Drafts.{Text, InputVar, GeneratedQuestionDraft}
use dsa_platform.Ai.Inputs.{RandomError, generate_inputs}
use dsa_platform.Ai.Draws.{IsRandom, IsDrawable, Gives, Valid}
use dsa_platform.Ai.RoundTrip.{generate_inputs-Valid}
use dsa_platform.Ai.Jobs.{
  Failure, GenerationJob, NewQuestion, QuestionCreated, State, Role, Outside, Step, call, asserted,
  put_object, send,
}
use dsa_platform.Ai.Generation.{from_draw, draw_inputs, input_key, put_inputs}

-- Every call that a generation job makes is answered.
pub record IsUp (o : Outside) : Type 0 where
  pub solves :
      (draft : GeneratedQuestionDraft) (role : Role) (s : State)
      → (t : Text) × (o.generate_solution draft role s ≡ ok t)
  pub stores : (key body : Text) (s : State) → o.put_object key body s ≡ ok tt
  pub sends : (job : DiffJob) (s : State) → o.send job s ≡ ok tt
  pub creates :
      (q : NewQuestion) (s : State) → (c : QuestionCreated) × (o.create_question q s ≡ ok c)
  pub random : IsRandom o.random

-- A step succeeds, and its result and state are as told.
abbrev pub Does : {A : Type 0} → (A → State → Type 0) → Result Failure A × State → Type 0
Does P (ok a, s) = P a s
Does P (err e, s) = ⊥

pub after-Does :
    {A B : Type 0} (P : A → State → Type 0) (Q : B → State → Type 0) (r : Result Failure A × State)
    (k : A → Step B)
    → Does P r
    → ((a : A) (s : State) → P a s → Does Q (k a s))
    → Does Q (after r k)
after-Does P Q (ok a, s) k h rest = rest a s h
after-Does P Q (err e, s) k h rest = absurd h

pub implied-Does :
    {A : Type 0} (P Q : A → State → Type 0) (r : Result Failure A × State)
    → Does P r
    → ((a : A) (s : State) → P a s → Q a s)
    → Does Q r
implied-Does P Q (ok a, s) h imp = imp a s h
implied-Does P Q (err e, s) h imp = h

pub if-Does :
    {A : Type 0} (P : A → State → Type 0) (test : Bool) (m n : Step A) (s : State)
    → (test ≡ true → Does P (m s))
    → (test ≡ false → Does P (n s))
    → Does P ((if test then m else n) s)
if-Does P true m n s yes_it no_it = yes_it refl
if-Does P false m n s yes_it no_it = no_it refl

-- The tables and the messages are as they were.
pub record IsFramed (s s' : State) : Type 0 where
  pub jobs : s'.generation_jobs ≡ s.generation_jobs
  pub test_case_jobs : s'.test_case_jobs ≡ s.test_case_jobs
  pub sent : s'.sent ≡ s.sent

abbrev pub Framed : {A : Type 0} → State → A → State → Type 0
Framed s a s' = IsFramed s s'

pub IsFramed-refl : (s : State) → IsFramed s s
IsFramed-refl s = record { jobs = refl; test_case_jobs = refl; sent = refl }

pub IsFramed-trans : (s s' s'' : State) → IsFramed s s' → IsFramed s' s'' → IsFramed s s''
IsFramed-trans s s' s'' h h' = record {
  jobs = h'.jobs ∙ h.jobs;
  test_case_jobs = h'.test_case_jobs ∙ h.test_case_jobs;
  sent = h'.sent ∙ h.sent;
}

pub asserted-Does :
    {A : Type 0} (o : Option A) (a : A) (s : State)
    → o ≡ some a
    → Does (λ b s'. (b ≡ a) × IsFramed s s') (asserted o s)
asserted-Does none a s h = absurd (ground arith)
asserted-Does (some b) a s h = (ground (arith, h), IsFramed-refl s)

pub from_draw-Framed :
    {A : Type 0} (P : A → Type 0) (s : State) (r : Result RandomError A × ℕ)
    → Gives P r
    → Does (Framed s) (from_draw s r)
from_draw-Framed P s (ok a, n) h = record { jobs = refl; test_case_jobs = refl; sent = refl }
from_draw-Framed P s (err e, n) h = h

-- There is something to draw, and it can be drawn.
abbrev pub IsReady : List InputVar → Type 0
IsReady [] = ⊥
IsReady (var ∷ spec) = All IsDrawable (var ∷ spec)

module _ (o : Outside) (up : IsUp o) where
  pub draw_inputs-Framed :
      (spec : List InputVar) (count : ℕ) (s : State)
      → IsReady spec
      → Does (Framed s) (draw_inputs o spec count s)
  draw_inputs-Framed [] count s h = elim h [ ]
  draw_inputs-Framed (var ∷ spec) count s h =
      from_draw-Framed (Valid (var ∷ spec) count) s
        (generate_inputs o.random (var ∷ spec) count s.draws)
        (generate_inputs-Valid o.random up.random var spec count s.draws h)

  pub solve-Framed :
      (draft : GeneratedQuestionDraft) (role : Role) (s : State)
      → Does (Framed s) (call (o.generate_solution draft role) s)
  solve-Framed draft role s = rw ((up.solves draft role s).1) (IsFramed-refl s)

  put_object-Framed : (key body : Text) (s : State) → Does (Framed s) (put_object o key body s)
  put_object-Framed key body s =
      rw (up.stores key body s) (record { jobs = refl; test_case_jobs = refl; sent = refl })

  pub put_inputs-Framed :
      (job : GenerationJob) (ordinal : ℕ) (texts : List Text) (s : State)
      → Does (Framed s) (put_inputs o job ordinal texts s)
  unfolding put_inputs
  put_inputs-Framed job ordinal [] s = IsFramed-refl s
  put_inputs-Framed job ordinal (text ∷ texts) s =
      after-Does (Framed s) (Framed s)
        ((put_object o (input_key o job ordinal) text >> put_inputs o job (suc ordinal) texts) s) _
        (after-Does (Framed s) (Framed s) (put_object o (input_key o job ordinal) text s) _
          (put_object-Framed (input_key o job ordinal) text s)
          (λ a s' h.
            implied-Does (Framed s') (Framed s) (put_inputs o job (suc ordinal) texts s')
              (put_inputs-Framed job (suc ordinal) texts s')
              (λ refs s'' h'. IsFramed-trans s s' s'' h h')))
        (λ refs s' h. h)

  pub send-Does :
      (job : DiffJob) (s : State)
      → Does (λ a s'. s' ≡ record s { sent = s.sent ++ (job ∷ []) }) (send o job s)
  send-Does job s = rw (up.sends job s) refl
