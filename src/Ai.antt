-- ===== src/Ai.antt =====
-- services/ai: the generation of questions, from a draft to tested test cases.
pub mod Drafts
pub mod Texts
pub mod Validate
pub mod Inputs
pub mod Draws
pub mod RoundTrip
pub mod Jobs
pub mod Generation
pub mod Factory
pub mod Consumer
pub mod Effects
pub mod Attempts
pub mod Rounds
pub mod Settles
pub mod Stranded
pub mod Gaps
pub mod Difficulty
pub mod Behaviour
mod BehaviourTests
mod Tests
