-- ===== src/Ai/Rounds.antt =====
-- The rounds of a generation job: the judge answers its last message, and the consumer takes the
-- answer.
use dsa_platform.Prelude.{
  ℕ, zero, suc, ◌<◌, Bool, true, false, Option, none, some, List, [], ◌∷◌, ◌++◌, ◌≡◌, refl, sym, ap,
  ◌∙◌, ◌==◌, ==_iff, ltb, ltb→lt, arith, inl, inr, ◌⊎◌, if◌then◌else◌, Result, ok, err,
}
use dsa_platform.Judge.Contracts.{DiffJob, DiffResult}
use dsa_platform.Ai.Drafts.{GeneratedQuestionDraft}
use dsa_platform.Ai.Jobs.{
  GenerationStatus, Failure, GenerationJob, NewQuestion, State, Outside, Settings, asserted,
  find_job, find_test_case_job, set_job, create_question,
}
use dsa_platform.Ai.Generation.{
  solved, diff_job, submit_attempt, next_attempt, retry_attempt, question_of, published,
  finalize_success, discarded, finalize_failure,
}
use dsa_platform.Ai.Consumer.{passed, settle_attempt, process_gen_result}
use dsa_platform.Ai.Effects.{
  IsUp, Does, after-Does, implied-Does, IsFramed, Framed, IsFramed-refl, IsFramed-trans,
  asserted-Does, if-Does, IsReady,
}
use dsa_platform.Ai.Attempts.{
  Row, KeepsKey, framed-Row, set_job-Row, IsSubmitted, submit_attempt-IsSubmitted,
}

abbrev pub is_terminal : GenerationStatus → Bool
is_terminal GenerationStatus.succeeded = true
is_terminal GenerationStatus.failed = true
is_terminal _ = false

abbrev pub has_ended : Option GenerationJob → Bool
has_ended none = false
has_ended (some j) = is_terminal j.status

-- The job succeeded or failed.
abbrev pub is_settled : ℕ → ℕ → State → Bool
is_settled org_id job_id s = has_ended (find_job org_id job_id s)

abbrev pub last : List DiffJob → Option DiffJob
last [] = none
last (m ∷ []) = some m
last (m ∷ n ∷ ms) = last (n ∷ ms)

module _ (o : Outside) (settings : Settings) (judge : DiffJob → DiffResult) where
  abbrev pub answer : Option DiffJob → State → State
  answer none s = s
  answer (some m) s = (process_gen_result o settings (judge m) s).1

  -- Rounds until the job has ended, so many at most.
  unfoldable pub drive : ℕ → ℕ → ℕ → State → State
  drive org_id job_id zero s = s
  drive org_id job_id (suc k) s =
      let rest = drive org_id job_id k (answer (last s.sent) s) in
      if is_settled org_id job_id s then s else rest

-- What a judge returns is about the message.
abbrev pub IsAnswer : DiffJob → DiffResult → Type 0
IsAnswer m r = (r.job_id ≡ m.job_id) × (r.org_id ≡ m.org_id) × (r.attempt ≡ m.attempt)

-- The job has made so many attempts, and the last message is about it.
pub record IsInFlight (org_id job_id attempt : ℕ) (s : State) : Type 0 where
  pub job : GenerationJob
  pub row : Row job s
  pub keys : (job.org_id ≡ org_id) × (job.id ≡ job_id)
  pub count : job.attempt ≡ attempt
  pub draft : GeneratedQuestionDraft
  pub drafted : job.draft ≡ some draft
  pub ready : IsReady draft.input_spec
  pub message : DiffJob
  pub is_last : last s.sent ≡ some message
  pub about :
      (message.job_id ≡ job.id) × (message.org_id ≡ job.org_id) × (message.attempt ≡ job.attempt)

last-append : (ms : List DiffJob) (m : DiffJob) → last (ms ++ (m ∷ [])) ≡ some m
last-append [] m = refl
last-append (n ∷ []) m = refl
last-append (n ∷ n' ∷ ms) m = last-append (n' ∷ ms) m

-- A result about the current attempt of a job reaches the job.
pub process_gen_result-settle_attempt :
    (o : Outside) (settings : Settings) (j : GenerationJob) (r : DiffResult) (s : State)
    → Row j s
    → (r.job_id ≡ j.id) × (r.org_id ≡ j.org_id) × (r.attempt ≡ j.attempt)
    → process_gen_result o settings r s ≡ settle_attempt o settings j r s
unfolding process_gen_result
process_gen_result-settle_attempt o settings j r s row about =
    let absent : find_test_case_job r.org_id r.job_id s ≡ none =
      ap (λ k. find_test_case_job r.org_id k s) about.0
      ∙ ap (λ k. find_test_case_job k j.id s) about.1
      ∙ row.1 in
    let there : find_job r.org_id r.job_id s ≡ some j =
      ap (λ k. find_job r.org_id k s) about.0 ∙ ap (λ k. find_job k j.id s) about.1 ∙ row.0 in
    let current : (j.attempt == r.attempt) ≡ true = (==_iff j.attempt r.attempt).1 (sym about.2) in
    rw (absent, there, current) refl

-- The job has ended, or one more attempt, which is allowed, is in flight.
abbrev pub Advanced : ℕ → ℕ → ℕ → ℕ → State → Type 0
Advanced limit org_id job_id attempt s =
    (is_settled org_id job_id s ≡ true)
    ⊎ ((attempt < limit) × IsInFlight org_id job_id (suc attempt) s)

abbrev pub Progress : ℕ → GenerationJob → State → Type 0
Progress limit j s = Advanced limit j.org_id j.id j.attempt s

pub end_of :
    {A : Type 0} (P : State → Type 0) (r : Result Failure A × State) → Does (λ a s. P s) r → P (r.1)
end_of P (ok a, s) h = h
end_of P (err e, s) h = absurd h

create_question-Framed :
    (o : Outside) → IsUp o → (q : NewQuestion) (s : State) → Does (Framed s) (create_question o q s)
create_question-Framed o up q s =
    rw ((up.creates q s).1) (record { jobs = refl; test_case_jobs = refl; sent = refl })

module _ (o : Outside) (up : IsUp o) (settings : Settings) (j : GenerationJob) (s : State)
    (row : Row j s) where
  abbrev limit : ℕ
  limit = settings.generation_max_attempts

  ended :
      (change : GenerationJob → GenerationJob) (s' : State)
      → KeepsKey change
      → is_terminal ((change j).status) ≡ true
      → IsFramed s s'
      → is_settled j.org_id j.id (set_job j change s') ≡ true
  ended change s' keeps terminal h =
      let there = set_job-Row j change s' keeps (framed-Row j s s' h row) in
      let after_it = set_job j change s' in
      ap (λ k. is_settled k j.id after_it) (sym (keeps j).1)
      ∙ ap (λ k. is_settled (change j).org_id k after_it) (sym (keeps j).0)
      ∙ ap has_ended there.0
      ∙ terminal

  module _ (draft : GeneratedQuestionDraft) (drafted : j.draft ≡ some draft)
      (ready : IsReady draft.input_spec) where
    finalize_success-Progress : Does (λ a s'. Progress limit j s') (finalize_success o j s)
    unfolding finalize_success
    finalize_success-Progress =
        let Goal : Unit → State → Type 0 = λ a s'. Progress limit j s' in
        after-Does (λ b s'. (b ≡ draft) × IsFramed s s') Goal (asserted j.draft s) _
          (asserted-Does j.draft draft s drafted)
          (λ b s₁ h.
            after-Does (Framed s₁) Goal (create_question o (question_of j b) s₁) _
              (create_question-Framed o up (question_of j b) s₁)
              (λ created s₂ h₂. inl (
                ended (published created) s₂ (λ a. (refl, refl)) refl
                  (IsFramed-trans s s₁ s₂ h.1 h₂))))

    retry_attempt-Progress :
        j.attempt < limit → Does (λ a s'. Progress limit j s') (retry_attempt o settings j s)
    unfolding retry_attempt
    retry_attempt-Progress left =
        let j' = next_attempt j in
        let s' = set_job j next_attempt s in
        implied-Does (λ a s''. IsSubmitted j' s' s'') (λ a s''. Progress limit j s'')
          (submit_attempt o settings j' s')
          (submit_attempt-IsSubmitted o up settings j' draft s'
            (set_job-Row j next_attempt s (λ a. (refl, refl)) row) drafted ready)
          (λ a s'' h. inr (
            left,
            record {
              job = solved h.reference h.brute_force j';
              row = h.row;
              keys = (refl, refl);
              count = omega arith;
              draft = draft;
              drafted = drafted;
              ready = ready;
              message =
                  diff_job (solved h.reference h.brute_force j') h.reference h.brute_force h.inputs;
              is_last = ap last h.sent ∙ last-append s'.sent _;
              about = (refl, refl, refl);
            },
          ))

    finalize_failure-Progress :
        (r : DiffResult) → Does (λ a s'. Progress limit j s') (finalize_failure j r s)
    unfolding finalize_failure
    finalize_failure-Progress r =
        inl (ended (discarded r) s (λ a. (refl, refl)) refl (IsFramed-refl s))

    -- An answer about the attempt ends the job, or starts the next one where there is one left.
    pub settle_attempt-Progress :
        (r : DiffResult) → Does (λ a s'. Progress limit j s') (settle_attempt o settings j r s)
    unfolding settle_attempt
    settle_attempt-Progress r =
        let Goal : Unit → State → Type 0 = λ a s'. Progress limit j s' in
        let more = ltb j.attempt limit in
        if-Does Goal (passed settings r) (finalize_success o j)
          (if more then retry_attempt o settings j else finalize_failure j r) s
          (λ _. finalize_success-Progress)
          (λ _.
            if-Does Goal more (retry_attempt o settings j) (finalize_failure j r) s
              (λ left. retry_attempt-Progress (ltb→lt j.attempt limit left))
              (λ _. finalize_failure-Progress r))
