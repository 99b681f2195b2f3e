-- ===== src/Domain/Cluster.antt =====
-- services/control-plane/internal/domain/cluster.go: the cluster, its table and `Apply`.
use cisync.Prelude.{
  Bool, true, false, none, some, [], ◌∷◌, String, Eq, string_eq, eq_of_discrete, ℕ,
}
use cisync.Domain.Common.{Time, FloatBits}
use cisync.Domain.Candidate.{Relation}
use cisync.Domain.Machine.{Error, rule, Table, Result, ok, err, next_state}

pub data ClusterState : Type 0 where
  forming active dissolved : ClusterState

abbrev pub ClusterState-discrete : Discrete ClusterState
ClusterState-discrete = hlevel

instance abbrev pub cluster_state_eq : Eq ClusterState
cluster_state_eq = eq_of_discrete ClusterState-discrete

pub record Cluster : Type 0 where
  pub id : String
  pub tenant_id : String
  pub state : ClusterState
  pub repo : String
  pub rep_candidate_id : String
  pub member_count : ℕ
  pub strategy_version : String
  pub created_at : Time

unfoldable pub new_cluster : String → String → String → String → String → Time → Cluster
new_cluster id tenant_id repo rep_candidate_id strategy_version now = record {
  id = id;
  tenant_id = tenant_id;
  state = forming;
  repo = repo;
  rep_candidate_id = rep_candidate_id;
  member_count = 1;
  strategy_version = strategy_version;
  created_at = now;
}

unfoldable pub terminal : ClusterState → Bool
terminal dissolved = true
terminal _ = false

unfoldable pub cluster_transitions : Table ClusterState
cluster_transitions =
    ("cluster.activated", rule (forming ∷ []) active)
    ∷ ("cluster.dissolved", rule (forming ∷ active ∷ []) dissolved)
    ∷ []

unfoldable pub conclude : Cluster → Result ClusterState → Cluster × Error
conclude c (err e) = (c, some e)
conclude c (ok s) = (record c { state = s }, none)

unfoldable pub apply : Cluster → String → Cluster × Error
unfolding conclude
apply c trigger = conclude c (next_state terminal cluster_transitions c.state trigger)

pub record ClusterMember : Type 0 where
  pub candidate_id : String
  pub relation_to_rep : Relation
  pub similarity_score : FloatBits
