-- ===== src/Cluster/Member.antt =====
-- services/control-plane/internal/cluster/assign.go: the data of clustering.
use cisync.Prelude.{String, List}
use cisync.Prelude.Int.{ℤ}

-- A priority is finite; finite floats are ordered like integers, and a priority is the integer.
pub record Member : Type 0 where
  pub id : String
  pub changed_paths : List String
  pub changed_symbols : List String
  pub depends_on : List String
  pub priority : ℤ
  pub created_seq : ℤ

pub data Relation : Type 0 where
  duplicate_of alternative_of composable_with conflicts_with prerequisite_of no_relation : Relation

pub record MemberWithRelation : Type 0 where
  pub member : Member
  pub relation_to_rep : Relation

pub record ActiveCluster : Type 0 where
  pub id : String
  pub repo_id : String
  pub rep : Member
  pub members : List MemberWithRelation
