-- ===== src/Domain.antt =====
-- The aggregates of services/control-plane/internal/domain and their state machines.
pub mod Common
pub mod Machine
pub mod Intent
pub mod Candidate
pub mod Lease
pub mod Run
pub mod FailureCase
pub mod Repair
pub mod Plan
pub mod EvidenceRecord
pub mod Cluster
pub mod Policy
