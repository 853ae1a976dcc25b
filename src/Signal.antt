-- ===== src/Signal.antt =====
-- The signal decision layer, ai/signal/: types, priorities, fairness, emergency override, scheduler
-- and hardware commands, each in a child module.
pub mod Types
pub mod Ranking
pub mod Priority
pub mod Fairness
pub mod Emergency
pub mod Scheduler
pub mod Controller
