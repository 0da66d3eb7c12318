-- ===== src/Exam/Verdicts.antt =====
-- services/exam/app/services/verdicts.py: the consumer that persists the judge's verdicts.
pub mod Settle
pub mod Redelivery
pub mod Rows
pub mod Outcome
