-- ===== src/Exam/Verdicts/Redelivery.antt =====
-- The consumer is the idempotency boundary of the queue: only the first verdict of a submission
-- counts, whatever is delivered later.
use mathlib.Core.Path.{subst}
use dsa_platform.Prelude.{
  ℕ, ◌≡◌, refl, sym, ◌∙◌, true, Option, none, some, arith, ◌==◌, inl, inr, Option-cases, Bool-cases,
  ==_refl, ==_iff,
}
use dsa_platform.Prelude.Table.{first, first-update, first_sound}
use dsa_platform.Exam.Db.{Submission, World}
use dsa_platform.Exam.Events.{emit}
use dsa_platform.Exam.Verdicts.Settle.{
  VerdictMessage, AiClient, is_terminal, settle_row, signal_difficulty, settle, announce, deliver,
  process_verdict_message,
}

abbrev pub by_id : ℕ → World → Option Submission
by_id id w = first (λ (s : Submission). s.id == id) w.db.submissions

-- The event and the difficulty signal leave the submissions alone.
submissions-signal :
    (ai : AiClient) (now sid : ℕ) (s : Submission) (m : VerdictMessage) (w : World)
    → (signal_difficulty ai now sid s m w).db.submissions ≡ w.db.submissions
unfolding signal_difficulty
submissions-signal ai now sid s m w = ground arith

pub submissions-announce :
    (ai : AiClient) (now : ℕ) (m : VerdictMessage) (s : Submission) (w : World)
    → (announce ai now m s w).db.submissions ≡ w.db.submissions
unfolding announce emit
submissions-announce ai now m s w = grind (arith, submissions-signal)

pub found-settle :
    (m : VerdictMessage) (s : Submission) (w : World)
    → s.id ≡ m.submission_id
    → by_id m.submission_id w ≡ some s
    → by_id m.submission_id (settle m s w) ≡ some (settle_row m s)
unfolding settle
found-settle m s w same found =
    rw
      (
        first-update (λ (r : Submission). r.id == m.submission_id)
            (λ (r : Submission). r.id == s.id) (settle_row m) w.db.submissions (λ a. refl),
        found,
      )
      (rw (==_refl s.id))

-- Once a submission is settled, a delivery for it changes nothing.
pub deliver-settled :
    (ai : AiClient) (now : ℕ) (m : VerdictMessage) (s : Submission) (w : World)
    → is_terminal s.status ≡ true
    → deliver ai now m s w ≡ w
unfolding deliver
deliver-settled ai now m s w h = ground arith

settle_row-terminal :
    (m : VerdictMessage) (s : Submission) → is_terminal (settle_row m s).status ≡ true
settle_row-terminal m s = ground arith

module _ (ai : AiClient) (now : ℕ) (m : VerdictMessage) where
  pub process-unknown :
      (w : World) → by_id m.submission_id w ≡ none → process_verdict_message ai now m w ≡ w
  unfolding process_verdict_message
  process-unknown w unknown = rw (unknown, process_verdict_message)

  pub process-known :
      (s : Submission) (w : World)
      → by_id m.submission_id w ≡ some s
      → process_verdict_message ai now m w ≡ deliver ai now m s w
  unfolding process_verdict_message
  process-known s w found = rw (found, process_verdict_message)

module _ (ai ai' : AiClient) (now now' : ℕ) (m m' : VerdictMessage) where
  deliver_twice :
      (s : Submission) (w : World)
      → m'.org_id ≡ m.org_id
      → s.id ≡ m.submission_id
      → by_id m.submission_id w ≡ some s
      → (s' : Submission) × (by_id m.submission_id (deliver ai now m s w) ≡ some s')
        × (deliver ai' now' m' s' (deliver ai now m s w) ≡ deliver ai now m s w)
  deliver_twice s w org same found = elim (Bool-cases (s.org_id == m.org_id)) [
    | inr foreign ↦ (
      s,
      unfold deliver in rw foreign found,
      unfold deliver in rw foreign (rw org (rw foreign refl)),
    )
    | inl ours ↦ elim (Bool-cases (is_terminal s.status)) [
      | inl done ↦ (
        s,
        rw (deliver-settled ai now m s w done) found,
        rw (deliver-settled ai now m s w done) (deliver-settled ai' now' m' s w done),
      )
      | inr live ↦ (
        settle_row m s,
        unfold deliver in
            rw (ours, live)
              (rw (submissions-announce ai now m s (settle m s w)) (found-settle m s w same found)),
        deliver-settled ai' now' m' (settle_row m s) (deliver ai now m s w)
            (settle_row-terminal m s),
      )
    ]
  ]

  -- Whatever the state, once a verdict message has been processed, a second message for the same
  -- submission and organisation changes nothing at all: no row, event, signal or commit, whatever
  -- it says, whenever it arrives and whatever the ai service would answer.
  pub first_verdict_wins :
      (w : World)
      → m'.submission_id ≡ m.submission_id
      → m'.org_id ≡ m.org_id
      → process_verdict_message ai' now' m' (process_verdict_message ai now m w)
        ≡ process_verdict_message ai now m w
  first_verdict_wins w sub org = elim (Option-cases (by_id m.submission_id w)) [
    | inl unknown ↦
        rw (process-unknown ai now m w unknown)
          (process-unknown ai' now' m' w (subst (λ i. by_id i w ≡ none) (sym sub) unknown))
    | inr (s, found) ↦
        let same =
          (==_iff s.id m.submission_id).0
            (first_sound (λ (r : Submission). r.id == m.submission_id) w.db.submissions found) in
        let (s', found', again) = deliver_twice s w org same found in
        let w' = deliver ai now m s w in
        rw (process-known ai now m s w found) (
          process-known ai' now' m' s' w' (subst (λ i. by_id i w' ≡ some s') (sym sub) found')
          ∙ again)
  ]
