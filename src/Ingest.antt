-- ===== src/Ingest.antt =====
-- services/ingest: the webhook edge's replay window, its deliveries, and their forwarding.
pub mod Seen
pub mod Deliveries
pub mod Retry
