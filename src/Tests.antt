-- ===== src/Tests.antt =====
-- Concrete runs of the modelled code and the witnesses of the theorems, in a module for each part.
mod Fleet
mod Seen
mod Intent
mod Candidate
mod Run
mod Plan
mod Gateway
mod Rerun
mod Batch
mod Cancel
mod Clusters
mod Policy
mod Planner
mod JobLease
mod Ledger
mod Guards
mod Queue
mod Repairs
mod Retry
mod Tracking
