-- ===== src/Cluster/Supersede/Laws.antt =====
-- The decisions of cluster/supersede.go against the relation table.
use mathlib.Core.Option.{some_inj}
use cisync.Prelude.{
  Bool, ◌≡◌, ◌≢◌, refl, sym, String, some, List, [], ◌∷◌, ◌==◌, string_eq, arith, Bool-cases,
  Option-cases, inl, inr, Memᴰ, eq_iff, beq-false, ap, ◌∙◌, subst,
}
use cisync.Prelude.Texts.{less}
use cisync.Prelude.Sort.{sort_by-mem, mem-sort_by}
use cisync.Cluster.Member.{
  MemberWithRelation, ActiveCluster, Relation, duplicate_of, alternative_of, prerequisite_of,
}
use cisync.Cluster.Supersede.{
  RepEvent, eligible, rejected, SupersedeAction, supersede, block, SupersedeReason,
  dominated_duplicate, tournament_loser, prerequisite_failed, SupersedeDecision, decide,
  decide_member, decisions, supersede_decisions,
}

-- The relation table: what an event of the representative does to a member of a relation.
pub data Propagates : RepEvent → Relation → SupersedeAction → SupersedeReason → Type 0 where
  dominates : Propagates eligible duplicate_of supersede dominated_duplicate
  wins : Propagates eligible alternative_of supersede tournament_loser
  fails : Propagates rejected prerequisite_of block prerequisite_failed

abbrev by_id : SupersedeDecision → SupersedeDecision → Bool
by_id a b = less a.candidate_id b.candidate_id

decided :
    (id : String) (r : Relation) (event : RepEvent) (d : SupersedeDecision)
    → decide id r event ≡ some d
    → (d.candidate_id ≡ id) × Propagates event r d.action d.reason
unfolding decide
decided id duplicate_of eligible d h =
    subst (λ x. (x.candidate_id ≡ id) × Propagates eligible duplicate_of x.action x.reason)
      (some_inj.0 h) (refl, dominates)
decided id alternative_of eligible d h =
    subst (λ x. (x.candidate_id ≡ id) × Propagates eligible alternative_of x.action x.reason)
      (some_inj.0 h) (refl, wins)
decided id prerequisite_of rejected d h =
    subst (λ x. (x.candidate_id ≡ id) × Propagates rejected prerequisite_of x.action x.reason)
      (some_inj.0 h) (refl, fails)
decided id _ _ d h = absurd (ground arith)

propagated :
    (id : String) {r : Relation} {event : RepEvent} {a : SupersedeAction} {why : SupersedeReason}
    → Propagates event r a why
    → decide id r event ≡ some (record { candidate_id = id; action = a; reason = why })
unfolding decide
propagated id dominates = refl
propagated id wins = refl
propagated id fails = refl

-- What a decision of the loop stands for.
abbrev Founded : String → RepEvent → List MemberWithRelation → SupersedeDecision → Type 0
Founded rep event ms d =
    (m : MemberWithRelation) × Memᴰ m ms
    × (m.member.id ≢ rep)
    × (d.candidate_id ≡ m.member.id)
    × Propagates event m.relation_to_rep d.action d.reason

Founded-cons :
    (rep : String) (event : RepEvent) (m : MemberWithRelation) (ms : List MemberWithRelation)
    (d : SupersedeDecision)
    → Founded rep event ms d
    → Founded rep event (m ∷ ms) d
Founded-cons rep event m ms d (n, t, other, same, by) = (n, Memᴰ.tail t, other, same, by)

member_decided :
    (rep : String) (event : RepEvent) (m : MemberWithRelation) (d : SupersedeDecision)
    → decide_member rep event m ≡ some d
    → (m.member.id ≢ rep) × (decide m.member.id m.relation_to_rep event ≡ some d)
unfolding decide_member
member_decided rep event m d h = elim (Bool-cases (m.member.id == rep)) [
  | inl p ↦ absurd (ground arith)
  | inr n ↦ (λ e. ground (arith, eq_iff m.member.id rep), ground arith)
]

decisions_from :
    (rep : String) (event : RepEvent) (ms : List MemberWithRelation) (d : SupersedeDecision)
    → Memᴰ d (decisions rep event ms)
    → Founded rep event ms d
unfolding decisions
decisions_from rep event [] d m = elim m [ ]
decisions_from rep event (n ∷ ms) d m = elim (Option-cases (decide_member rep event n)) [
  | inl skip ↦
      Founded-cons rep event n ms d (decisions_from rep event ms d (rw (skip, decisions) at m))
  | inr (e, made) ↦ first e made (decisions_from rep event ms d) (rw (made, decisions) at m)
]
  where
    first :
        (e : SupersedeDecision)
        → decide_member rep event n ≡ some e
        → (Memᴰ d (decisions rep event ms) → Founded rep event ms d)
        → Memᴰ d (e ∷ decisions rep event ms)
        → Founded rep event (n ∷ ms) d
    first e made f (Memᴰ.tail t) = Founded-cons rep event n ms d (f t)
    first e made f (Memᴰ.head h) =
        let (other, by) = member_decided rep event n e made in
        let facts = decided n.member.id n.relation_to_rep event e by in
        subst (Founded rep event (n ∷ ms)) (sym h) (n, Memᴰ.head refl, other, facts.0, facts.1)

-- Every decision is about a member other than the representative, and follows the relation table.
pub decisions_sound :
    (c : ActiveCluster) (event : RepEvent) (d : SupersedeDecision)
    → Memᴰ d (supersede_decisions c event)
    → (m : MemberWithRelation) × Memᴰ m c.members
      × (m.member.id ≢ c.rep.id)
      × (d.candidate_id ≡ m.member.id)
      × Propagates event m.relation_to_rep d.action d.reason
unfolding supersede_decisions
decisions_sound c event d m =
    decisions_from c.rep.id event c.members d
      (sort_by-mem by_id d (decisions c.rep.id event c.members) m)

decisions_reach :
    (rep : String) (event : RepEvent) (ms : List MemberWithRelation) (m : MemberWithRelation)
    (d : SupersedeDecision)
    → Memᴰ m ms
    → decide_member rep event m ≡ some d
    → Memᴰ d (decisions rep event ms)
unfolding decisions
decisions_reach rep event [] m d t h = elim t [ ]
decisions_reach rep event (n ∷ ms) m d (Memᴰ.head e) h =
    rw (ap (decide_member rep event) (sym e) ∙ h, decisions) (Memᴰ.head refl)
decisions_reach rep event (n ∷ ms) m d (Memᴰ.tail t) h =
    let deep = decisions_reach rep event ms m d t h in
    elim (Option-cases (decide_member rep event n)) [
      | inl skip ↦ rw (skip, decisions) deep
      | inr (e, made) ↦ rw (made, decisions) (Memᴰ.tail deep)
    ]

-- Every member other than the representative to which the relation table applies gets its decision.
pub decisions_complete :
    (c : ActiveCluster) (event : RepEvent) (m : MemberWithRelation) (a : SupersedeAction)
    (why : SupersedeReason)
    → Memᴰ m c.members
    → m.member.id ≢ c.rep.id
    → Propagates event m.relation_to_rep a why
    → Memᴰ
        (record { candidate_id = m.member.id; action = a; reason = why })
        (supersede_decisions c event)
unfolding supersede_decisions decide_member
decisions_complete c event m a why t other p =
    let d : SupersedeDecision = record { candidate_id = m.member.id; action = a; reason = why } in
    mem-sort_by by_id d (decisions c.rep.id event c.members) (
      decisions_reach c.rep.id event c.members m d t
        (rw (beq-false other, decide_member) (propagated m.member.id p)))
