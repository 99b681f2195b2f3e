-- ===== src/Fleet.antt =====
-- services/runner-fleet: the execution plane's jobs, its in-process store and its lease gate.
pub mod Job
pub mod Store
pub mod LeaseGate
