-- ===== src/Exam/Verdicts/Outcome.antt =====
-- What one delivery does to a submission that is not settled yet.
use dsa_platform.Prelude.{◌≡◌, ◌⊎◌, some}
use dsa_platform.Exam.Db.{Submission, SubmissionStatus}
use dsa_platform.Exam.Verdicts.Settle.{VerdictMessage, VerdictStatus}

-- The row of a submission that a verdict has settled: only the status, the summary and, for a
-- compile error, the log differ from the row before.
abbrev pub IsSettled : VerdictMessage → Submission → Submission → Type 0
IsSettled m old new =
    (new.summary_verdict ≡ some m.summary_verdict)
    × (((m.status ≡ VerdictStatus.completed)
          × (new.status ≡ SubmissionStatus.completed)
          × (new.compile_error ≡ old.compile_error))
        ⊎ ((m.status ≡ VerdictStatus.compile_error)
            × (new.status ≡ SubmissionStatus.compile_error)
            × (new.compile_error ≡ m.compile_error)))
    × (record new {
      status = old.status;
      summary_verdict = old.summary_verdict;
      compile_error = old.compile_error;
    }
        ≡ old)
