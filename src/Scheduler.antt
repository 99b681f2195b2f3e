-- ===== src/Scheduler.antt =====
-- services/control-plane/internal/scheduler: the admission of runs, their cancellation, and the guards of
-- completions.
pub mod Ordering
pub mod Admit
pub mod Cancel
pub mod Guards
