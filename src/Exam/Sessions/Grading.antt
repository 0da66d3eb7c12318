-- ===== src/Exam/Sessions/Grading.antt =====
-- The verdict consumer keeps the count of announced session ends.
use dsa_platform.Prelude.{
  ℕ, String, refl, ◌∙◌, some, arith, inl, inr, Option-cases, Bool-cases, ◌==◌,
}
use dsa_platform.Prelude.Table.{first-update}
use dsa_platform.Prelude.Keyed.{has_key, IsKeyed-update}
use dsa_platform.Exam.Db.{ExamSession, Submission, World, is_run, Payload}
use dsa_platform.Exam.Events.{emit}
use dsa_platform.Exam.Verdicts.Settle.{
  VerdictMessage, AiClient, is_terminal, verdict_status, signal_answer, set_difficulty, settle,
  announce, deliver, signal_difficulty, process_verdict_message,
}
use dsa_platform.Exam.Verdicts.Redelivery.{by_id, process-unknown, process-known}
use dsa_platform.Exam.Sessions.Locking.{IsReady, session_id}
use dsa_platform.Exam.Sessions.Counting.{Counts, ready-Counts}

set_difficulty-IsReady :
    {lost : ℕ → ℕ} (sid : ℕ) (answer : ℕ × String) (w : World)
    → IsReady lost w
    → IsReady lost (set_difficulty sid answer w)
unfolding set_difficulty
set_difficulty-IsReady sid (difficulty, band) w h =
    let set : ExamSession → ExamSession =
      λ e. record e { current_difficulty = some difficulty; current_difficulty_band = some band } in
    record {
      closed = refl;
      counts = record {
        keyed =
            IsKeyed-update session_id (has_key session_id sid) set w.db.sessions (λ a. refl)
              h.counts.keyed;
        counted = λ k.
            h.counts.counted k
            ∙ rw
                (first-update (has_key session_id k) (has_key session_id sid) set w.db.sessions
                  (λ a. refl))
                (ground arith);
      };
    }

signal-IsReady :
    {lost : ℕ → ℕ} (ai : AiClient) (now sid : ℕ) (s : Submission) (m : VerdictMessage) (w : World)
    → IsReady lost w
    → IsReady lost (signal_difficulty ai now sid s m w)
unfolding signal_difficulty
signal-IsReady ai now sid s m w h = elim (Option-cases (signal_answer ai now sid s m w)) [
  | inl quiet ↦ rw (quiet, signal_difficulty) h
  | inr (answer, given) ↦ rw (given, signal_difficulty) (set_difficulty-IsReady sid answer w h)
]

announce-IsReady :
    {lost : ℕ → ℕ} (ai : AiClient) (now : ℕ) (m : VerdictMessage) (s : Submission) (w : World)
    → IsReady lost w
    → IsReady lost (announce ai now m s w)
unfolding announce
announce-IsReady {lost} ai now m s w h = elim (Option-cases s.session_id) [
  | inl none_open ↦ rw (none_open, announce) h
  | inr (sid, open_one) ↦
      let told =
        emit s.org_id sid (Payload.verdict s.id (some m.summary_verdict) (verdict_status m.status))
          (some s.question_version_id) w in
      let h' : IsReady lost told = unfold emit in record { closed = refl; counts = h.counts } in
      elim (Bool-cases (is_run s.mode)) [
        | inl trial ↦ rw (open_one, trial, announce) h'
        | inr graded ↦ rw (open_one, graded, announce) (signal-IsReady ai now sid s m told h')
      ]
]

pub verdict-Counts :
    {lost : ℕ → ℕ} (ai : AiClient) (now : ℕ) (m : VerdictMessage) (w : World)
    → IsReady lost w
    → Counts lost (process_verdict_message ai now m w)
unfolding deliver
verdict-Counts ai now m w h = elim (Option-cases (by_id m.submission_id w)) [
  | inl unknown ↦ rw (process-unknown ai now m w unknown) (ready-Counts w h)
  | inr (s, found) ↦
      rw (process-known ai now m s w found) (elim (Bool-cases (s.org_id == m.org_id)) [
        | inr foreign ↦ rw foreign (ready-Counts w h)
        | inl ours ↦ elim (Bool-cases (is_terminal s.status)) [
          | inl done ↦ rw (ours, done) (ready-Counts w h)
          | inr live ↦
              rw (ours, live)
                (ready-Counts (announce ai now m s (settle m s w)) (
                  announce-IsReady ai now m s (settle m s w)
                    (unfold settle in record { closed = refl; counts = h.counts })))
        ]
      ])
]
