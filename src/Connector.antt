-- ===== src/Connector.antt =====
-- services/github-connector: the queue of GitHub writes and its gate, the tracking of check reports, and
-- the guardrails of re-runs.
pub mod Gate
pub mod Queue
pub mod Rerun
pub mod Tracking
