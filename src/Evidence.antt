-- ===== src/Evidence.antt =====
-- services/control-plane/internal/evidence: what the gateway accepts as evidence.
pub mod Census
pub mod Digests
pub mod Evaluate
pub mod Engine
pub mod Sufficiency
