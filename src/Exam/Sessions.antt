-- ===== src/Exam/Sessions.antt =====
-- services/exam/app/services/sessions.py: the life of a candidate's session.
pub mod Rows
pub mod Assign
pub mod Handlers
pub mod Frame
pub mod Numbering
pub mod Starting
pub mod Questions
pub mod Locking
pub mod Counting
pub mod Grading
pub mod Requests
pub mod Submitting
