-- ===== src/Question.antt =====
-- services/question: the bank of questions. Its topics form trees.
pub mod Topics
pub mod Bank
pub mod Versions
pub mod Cases
pub mod Frozen
pub mod Kept
pub mod Published
pub mod Requests
pub mod Outcome
pub mod Rooted
pub mod Forest
pub mod Creation
pub mod Deletion
mod Tests
mod VersionTests
