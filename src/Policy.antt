-- ===== src/Policy.antt =====
-- services/control-plane/internal/policy: the policy that governs a change.
pub mod Glob
pub mod Document
pub mod Resolve
pub mod DefaultPack
pub mod Compiled
