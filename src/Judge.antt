-- ===== src/Judge.antt =====
-- services/judge: compiles and runs untrusted code in containers and compares outputs.
pub mod Contracts
pub mod Compare
pub mod Spacing
pub mod Sandbox
pub mod Contained
pub mod Runner
pub mod Launches
pub mod Verdicts
pub mod Differ
pub mod Sides
pub mod Agreement
mod Tests
