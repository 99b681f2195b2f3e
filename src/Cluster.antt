-- ===== src/Cluster.antt =====
-- services/control-plane/internal/cluster: the representative of a cluster and what follows from it.
pub mod Member
pub mod Representative
pub mod Supersede
