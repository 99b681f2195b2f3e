-- ===== src/Failure.antt =====
-- services/control-plane/internal/failure: the classes of failures and the repairs that they allow.
pub mod Classify
pub mod Repair
