-- ===== src/Ai/Settles.antt =====
-- A generation job that is in flight ends.
use mathlib.Core.Path.{subst}
use dsa_platform.Prelude.{
  ℕ, zero, suc, ◌+◌, ◌<◌, ◌≤◌, true, ◌≡◌, refl, sym, ap, ◌∙◌, arith, inl, inr, Bool-cases, Result,
}
use dsa_platform.Judge.Contracts.{DiffJob, DiffResult}
use dsa_platform.Ai.Jobs.{Failure, State, Outside, Settings}
use dsa_platform.Ai.Consumer.{settle_attempt}
use dsa_platform.Ai.Effects.{IsUp}
use dsa_platform.Ai.Rounds.{
  is_settled, last, answer, drive, IsAnswer, IsInFlight, Advanced, Progress, end_of,
  process_gen_result-settle_attempt, settle_attempt-Progress,
}

-- The answers are about their messages, and the services outside are up.
module _ (o : Outside) (up : IsUp o) (settings : Settings) (judge : DiffJob → DiffResult)
    (answers : (m : DiffJob) → IsAnswer m (judge m)) where
  round_of : State → State
  round_of s = answer o settings judge (last s.sent) s

  -- After one round the job has ended, or its next attempt is in flight.
  round-Advanced :
      (org_id job_id attempt : ℕ) (s : State)
      → IsInFlight org_id job_id attempt s
      → Advanced settings.generation_max_attempts org_id job_id attempt (round_of s)
  unfolding round_of
  round-Advanced org_id job_id attempt s h =
      let j = h.job in
      let r = judge h.message in
      let told = answers h.message in
      let limit = settings.generation_max_attempts in
      let about : (r.job_id ≡ j.id) × (r.org_id ≡ j.org_id) × (r.attempt ≡ j.attempt) =
        (told.0 ∙ h.about.0, told.1 ∙ h.about.1, told.2 ∙ h.about.2) in
      let reached = process_gen_result-settle_attempt o settings j r s h.row about in
      let settled : Progress limit j (settle_attempt o settings j r s).1 =
        end_of (Progress limit j) (settle_attempt o settings j r s)
          (settle_attempt-Progress o up settings j s h.row h.draft h.drafted h.ready r) in
      let advanced : Progress limit j (round_of s) =
        subst (Progress limit j)
          (sym (
            ap (λ m. answer o settings judge m s) h.is_last
            ∙ ap (λ (x : Result Failure Unit × State). x.1) reached))
          settled in
      subst (λ k. Advanced limit k job_id attempt (round_of s)) h.keys.0
        (subst (λ k. Advanced limit j.org_id k attempt (round_of s)) h.keys.1
          (subst (λ k. Advanced limit j.org_id j.id k (round_of s)) h.count advanced))

  drive_stays :
      (org_id job_id k : ℕ) (s : State)
      → is_settled org_id job_id s ≡ true
      → drive o settings judge org_id job_id k s ≡ s
  unfolding drive
  drive_stays org_id job_id zero s h = refl
  drive_stays org_id job_id (suc k) s h = rw h refl

  -- While every call to the language model, the object store, the queue and the question service is
  -- answered, and the judge answers each message about that message: a job whose draft has inputs
  -- that can be drawn, and whose current attempt was sent last, has succeeded or failed after at most
  -- as many rounds as attempts are left, the current one included.
  pub drive-is_settled :
      (org_id job_id attempt k : ℕ) (s : State)
      → IsInFlight org_id job_id attempt s
      → attempt ≤ settings.generation_max_attempts
      → settings.generation_max_attempts < attempt + k
      → is_settled org_id job_id (drive o settings judge org_id job_id k s) ≡ true
  unfolding drive round_of
  drive-is_settled org_id job_id attempt zero s h within enough = absurd (omega arith)
  drive-is_settled org_id job_id attempt (suc k) s h within enough =
      elim (Bool-cases (is_settled org_id job_id s)) [
        | inl ended_already ↦ rw ended_already ended_already
        | inr running ↦ rw running (elim (round-Advanced org_id job_id attempt s h) [
          | inl ends ↦
              ap (is_settled org_id job_id) (drive_stays org_id job_id k (round_of s) ends) ∙ ends
          | inr (left, next) ↦
              drive-is_settled org_id job_id (suc attempt) k (round_of s) next left (omega arith)
        ])
      ]
