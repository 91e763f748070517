-- ===== src/Sloburn.antt =====
-- pkg/sloburn.
pub mod State
pub mod Evaluate
pub mod Counts
pub mod Rates
pub mod Decisions
mod Tests
