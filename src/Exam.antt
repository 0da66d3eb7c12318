-- ===== src/Exam.antt =====
-- services/exam: the service that owns exams, candidate sessions, submissions and their verdicts.
pub mod Db
pub mod Events
pub mod Submissions
pub mod Verdicts
pub mod Sessions
mod Tests
mod LoginTests
mod SchedulingTests
mod ExchangeTests
pub mod Login
pub mod Scheduling
pub mod Exchange
