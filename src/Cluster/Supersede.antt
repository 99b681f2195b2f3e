-- ===== src/Cluster/Supersede.antt =====
-- services/control-plane/internal/cluster/supersede.go: what a representative's outcome does to the
-- other members.
pub mod Laws
use cisync.Prelude.{
  ◌≡◌, ◌≢◌, refl, sym, String, Bool, true, false, not, Option, none, some, List, [], ◌∷◌, ◌==◌,
  string_eq, if◌then◌else◌, arith, Bool-cases, Option-cases, inl, inr, Memᴰ, ◌⊎◌, eq_iff, beq-false,
  ap, ◌∙◌,
}
use cisync.Prelude.Texts.{less}
use cisync.Prelude.Sort.{sort_by}
use cisync.Cluster.Member.{
  Member, MemberWithRelation, ActiveCluster, Relation, duplicate_of, alternative_of,
  prerequisite_of,
}

pub data RepEvent : Type 0 where
  eligible rejected cancelled : RepEvent

pub data SupersedeAction : Type 0 where
  supersede block : SupersedeAction

pub data SupersedeReason : Type 0 where
  dominated_duplicate tournament_loser prerequisite_failed : SupersedeReason

pub record SupersedeDecision : Type 0 where
  pub candidate_id : String
  pub action : SupersedeAction
  pub reason : SupersedeReason

-- The two `switch`es on one member.
unfoldable pub decide : String → Relation → RepEvent → Option SupersedeDecision
decide id duplicate_of eligible =
    some (record { candidate_id = id; action = supersede; reason = dominated_duplicate })
decide id alternative_of eligible =
    some (record { candidate_id = id; action = supersede; reason = tournament_loser })
decide id prerequisite_of rejected =
    some (record { candidate_id = id; action = block; reason = prerequisite_failed })
decide id _ _ = none

unfoldable pub decide_member : String → RepEvent → MemberWithRelation → Option SupersedeDecision
unfolding decide
decide_member rep event m =
    if m.member.id == rep then none else decide m.member.id m.relation_to_rep event

unfoldable pub decisions : String → RepEvent → List MemberWithRelation → List SupersedeDecision
unfolding decide_member
decisions rep event [] = []
decisions rep event (m ∷ ms) =
    let rest = decisions rep event ms in
    elim (decide_member rep event m) [ none ↦ rest | some d ↦ d ∷ rest ]

-- The order of `sort.Slice` among equal ids, which a cluster does not have, is open.
unfoldable pub supersede_decisions : ActiveCluster → RepEvent → List SupersedeDecision
unfolding decisions
supersede_decisions c event =
    sort_by (λ a b. less a.candidate_id b.candidate_id) (decisions c.rep.id event c.members)
