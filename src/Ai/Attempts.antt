-- ===== src/Ai/Attempts.antt =====
-- The attempts of a generation job: what each of them changes, while the services outside answer.
use mathlib.Core.Path.{subst}
use mathlib.Core.Option
use dsa_platform.Prelude.{true, none, some, List, [], ◌∷◌, ◌++◌, ◌≡◌, refl, sym, ap, ◌∙◌, ◌>>=◌}
use dsa_platform.Prelude.Table.{first, first-update, first_sound}
use dsa_platform.Judge.Contracts.{DiffInputRef}
use dsa_platform.Ai.Drafts.{Text, GeneratedQuestionDraft}
use dsa_platform.Ai.Jobs.{
  GenerationJob, State, Role, Outside, Settings, call, asserted, is_job, find_job,
  find_test_case_job, set_job, save, send,
}
use dsa_platform.Ai.Generation.{draw_inputs, put_inputs, solved, diff_job, submit_attempt}
use dsa_platform.Ai.Effects.{
  IsUp, Does, after-Does, implied-Does, IsFramed, Framed, IsFramed-trans, asserted-Does, IsReady,
  draw_inputs-Framed, solve-Framed, put_inputs-Framed, send-Does,
}

-- the row of a job, and its absence from the other table
abbrev pub Row : GenerationJob → State → Type 0
Row j s = (find_job j.org_id j.id s ≡ some j) × (find_test_case_job j.org_id j.id s ≡ none)

pub framed-Row : (j : GenerationJob) (s s' : State) → IsFramed s s' → Row j s → Row j s'
framed-Row j s s' h row =
    (ap (first (is_job j.org_id j.id)) h.jobs ∙ row.0, ap (first _) h.test_case_jobs ∙ row.1)

-- A change of other columns is found.
abbrev pub KeepsKey : (GenerationJob → GenerationJob) → Type 0
KeepsKey change = (j : GenerationJob) → ((change j).id ≡ j.id) × ((change j).org_id ≡ j.org_id)

pub set_job-Row :
    (j : GenerationJob) (change : GenerationJob → GenerationJob) (s : State)
    → KeepsKey change
    → Row j s
    → Row (change j) (set_job j change s)
set_job-Row j change s keeps row =
    let same = keeps j in
    let mine : is_job j.org_id j.id j ≡ true =
      first_sound (is_job j.org_id j.id) s.generation_jobs row.0 in
    let updated : find_job j.org_id j.id (set_job j change s) ≡ some (change j) =
      first-update (is_job j.org_id j.id) (is_job j.org_id j.id) change s.generation_jobs
        (λ a. rw ((keeps a).0, (keeps a).1) refl)
      ∙ ap (Option.map _) row.0
      ∙ ap some (rw mine refl) in
    let after_it = set_job j change s in
    (
      ap (λ k. find_job k (change j).id after_it) same.1
          ∙ ap (λ k. find_job j.org_id k after_it) same.0
          ∙ updated,
      ap (λ k. find_test_case_job k (change j).id after_it) same.1
          ∙ ap (λ k. find_test_case_job j.org_id k after_it) same.0
          ∙ row.1,
    )

-- A message was sent for the attempt, and the row has its solutions.
pub record IsSubmitted (j : GenerationJob) (s s' : State) : Type 0 where
  pub reference : Text
  pub brute_force : Text
  pub inputs : List DiffInputRef
  pub row : Row (solved reference brute_force j) s'
  pub sent :
      s'.sent
      ≡ s.sent ++ (diff_job (solved reference brute_force j) reference brute_force inputs ∷ [])

module _ (o : Outside) (up : IsUp o) (settings : Settings) where
  saved-Submitted :
      (j : GenerationJob) (reference brute_force : Text) (refs : List DiffInputRef) (s s' : State)
      → Row j s
      → IsFramed s s'
      → Does
          (λ a s''. IsSubmitted j s s'')
          ((save j (solved reference brute_force) >>= λ (job : GenerationJob).
              send o (diff_job job reference brute_force refs))
            s')
  saved-Submitted j reference brute_force refs s s' row h =
      let kept = solved reference brute_force in
      let message = diff_job (kept j) reference brute_force refs in
      implied-Does (λ a s''. s'' ≡ record (set_job j kept s') { sent = s'.sent ++ (message ∷ []) })
        (λ a s''. IsSubmitted j s s'') (send o message (set_job j kept s'))
        (send-Does o up message (set_job j kept s'))
        (λ a s'' same. subst (IsSubmitted j s) (sym same) (record {
          reference = reference;
          brute_force = brute_force;
          inputs = refs;
          row = set_job-Row j kept s' (λ a. (refl, refl)) (framed-Row j s s' h row);
          sent = ap (λ ms. ms ++ (message ∷ [])) h.sent;
        }))

  -- With a draft that can be drawn from, an attempt is submitted.
  pub submit_attempt-IsSubmitted :
      (j : GenerationJob) (draft : GeneratedQuestionDraft) (s : State)
      → Row j s
      → j.draft ≡ some draft
      → IsReady draft.input_spec
      → Does (λ a s'. IsSubmitted j s s') (submit_attempt o settings j s)
  unfolding submit_attempt
  submit_attempt-IsSubmitted j draft s row drafted ready =
      let Goal : Unit → State → Type 0 = λ a s'. IsSubmitted j s s' in
      after-Does (λ b s'. (b ≡ draft) × IsFramed s s') Goal (asserted j.draft s) _
        (asserted-Does j.draft draft s drafted)
        (λ b s₀ h₀.
          after-Does (Framed s₀) Goal (call (o.generate_solution b Role.reference) s₀) _
            (solve-Framed o up b Role.reference s₀)
            (λ reference s₁ h₁.
              after-Does (Framed s₁) Goal (call (o.generate_solution b Role.brute_force) s₁) _
                (solve-Framed o up b Role.brute_force s₁)
                (λ brute_force s₂ h₂.
                  after-Does (Framed s₂) Goal
                    (draw_inputs o b.input_spec settings.generation_input_count s₂) _
                    (draw_inputs-Framed o up b.input_spec settings.generation_input_count s₂ (
                      subst (λ (d : GeneratedQuestionDraft). IsReady d.input_spec) (sym h₀.0)
                        ready))
                    (λ texts s₃ h₃.
                      after-Does (Framed s₃) Goal (put_inputs o j 1 texts s₃) _
                        (put_inputs-Framed o up j 1 texts s₃)
                        (λ refs s₄ h₄.
                          let before_it = IsFramed-trans s s₀ s₁ h₀.1 h₁ in
                          let between = IsFramed-trans s₁ s₂ s₃ h₂ h₃ in
                          saved-Submitted j reference brute_force refs s s₄ row (
                            IsFramed-trans s s₁ s₄ before_it
                              (IsFramed-trans s₁ s₃ s₄ between h₄)))))))
