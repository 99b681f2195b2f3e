-- ===== src/Planner.antt =====
-- services/control-plane/internal/planner: the validation plan of a candidate.
pub mod Tiers
pub mod Kinds
pub mod Paths
pub mod Inputs
pub mod Ladder
pub mod Plan
pub mod Engine
