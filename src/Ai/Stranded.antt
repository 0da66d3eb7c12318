-- ===== src/Ai/Stranded.antt =====
-- A retry that raises: the attempt it counted is never made.
use dsa_platform.Prelude.{
  ◌<◌, true, false, Option, none, some, ◌≡◌, refl, ap, ◌∙◌, ◌==◌, ltb, arith, Result, ok, err,
  ◌>>=◌,
}
use dsa_platform.Judge.Contracts.{DiffResult}
use dsa_platform.Ai.Drafts.{GeneratedQuestionDraft}
use dsa_platform.Ai.Jobs.{
  Role, Failure, GenerationJob, State, Outside, Settings, Step, asserted, call, find_job,
  find_test_case_job, set_job,
}
use dsa_platform.Ai.Generation.{submit_attempt, next_attempt, retry_attempt}
use dsa_platform.Ai.Consumer.{passed, settle_attempt, process_gen_result}
use dsa_platform.Ai.Attempts.{Row, set_job-Row}
use dsa_platform.Ai.Rounds.{process_gen_result-settle_attempt}

-- A result about another attempt than the job's current one changes nothing.
process_gen_result-stale :
    (o : Outside) (settings : Settings) (j : GenerationJob) (r : DiffResult) (s : State)
    → Row j s
    → (r.job_id ≡ j.id) × (r.org_id ≡ j.org_id)
    → (j.attempt == r.attempt) ≡ false
    → process_gen_result o settings r s ≡ (ok tt, s)
unfolding process_gen_result
process_gen_result-stale o settings j r s row about other =
    let absent : find_test_case_job r.org_id r.job_id s ≡ none =
      ap (λ k. find_test_case_job r.org_id k s) about.0
      ∙ ap (λ k. find_test_case_job k j.id s) about.1
      ∙ row.1 in
    let there : find_job r.org_id r.job_id s ≡ some j =
      ap (λ k. find_job r.org_id k s) about.0 ∙ ap (λ k. find_job k j.id s) about.1 ∙ row.0 in
    rw (absent, there, other) refl

raises_first :
    {A B C : Type 0} (given : Option A) (a : A) (ask : A → State → Result Failure B)
    (rest : A → B → Step C) (s : State) (e : Failure)
    → given ≡ some a
    → ask a s ≡ err e
    → (asserted given >>= λ x. call (ask x) >>= λ b. rest x b) s ≡ (err e, s)
raises_first none a ask rest s e there fails = absurd (ground arith)
raises_first (some x) a ask rest s e there fails =
    let same : x ≡ a = ground (arith, there) in
    let refused : ask x s ≡ err e = ap (λ y. ask y s) same ∙ fails in rw refused refl

module _ (o : Outside) (settings : Settings) (j : GenerationJob) (draft : GeneratedQuestionDraft)
    (s : State) where
  -- the state in which the next attempt was counted and committed
  abbrev pub counted : State
  counted = set_job j next_attempt s

  submit_attempt_fails :
      (e : Failure) (j' : GenerationJob) (s' : State)
      → j'.draft ≡ some draft
      → o.generate_solution draft Role.reference s' ≡ err e
      → submit_attempt o settings j' s' ≡ (err e, s')
  unfolding submit_attempt
  submit_attempt_fails e j' s' drafted fails =
      raises_first j'.draft draft (λ d. o.generate_solution d Role.reference) _ s' e drafted fails

  -- Take a result about the current attempt of a job, below the threshold and with attempts left,
  -- and a language model that fails to write the reference solution of the next attempt. The message
  -- raises after the next attempt was counted, so it is delivered again; then it is about an attempt
  -- that is over, and is dropped. No message is sent for the attempt that was counted.
  pub process_gen_result_strands :
      (e : Failure) (r : DiffResult)
      → Row j s
      → j.draft ≡ some draft
      → (r.job_id ≡ j.id) × (r.org_id ≡ j.org_id) × (r.attempt ≡ j.attempt)
      → passed settings r ≡ false
      → j.attempt < settings.generation_max_attempts
      → o.generate_solution draft Role.reference counted ≡ err e
      → (process_gen_result o settings r s ≡ (err e, counted))
        × (process_gen_result o settings r counted ≡ (ok tt, counted))
        × (counted.sent ≡ s.sent)
  unfolding settle_attempt retry_attempt
  process_gen_result_strands e r row drafted about below left fails =
      let j' = next_attempt j in
      let more : ltb j.attempt settings.generation_max_attempts ≡ true = ground (arith, left) in
      let later : (j'.attempt == r.attempt) ≡ false = ground (arith, about.2) in
      (
        process_gen_result-settle_attempt o settings j r s row about
            ∙ rw (below, more) (submit_attempt_fails e j' counted drafted fails),
        process_gen_result-stale o settings j' r counted
            (set_job-Row j next_attempt s (λ a. (refl, refl)) row) (about.0, about.1) later,
        refl,
      )
