-- ===== src/Breaker/Shared.antt =====
-- The circuit breaker over Redis: its operations, and that it does what the breaker in memory does.
pub mod Store
pub mod Operations
pub mod Call
pub mod Logical
pub mod Commands
pub mod Steps
pub mod Outcomes
pub mod Reads
pub mod Finish
pub mod Acquire
pub mod Attempt
pub mod Entry
pub mod Refinement
pub mod Runs
mod Keeps
mod Tests
