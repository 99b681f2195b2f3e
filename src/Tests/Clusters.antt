-- ===== src/Tests/Clusters.antt =====
-- A cluster of three candidates (control-plane/internal/cluster).
use cisync.Prelude.{subst, sym, ◌≡◌, ◌≢◌, refl, String, some, [], ◌∷◌, Memᴰ, string_eq}
use cisync.Prelude.Int.{pos}
use cisync.Prelude.Sort.{sort_by, place}
use cisync.Cluster.Member.{Member, MemberWithRelation, ActiveCluster, duplicate_of, composable_with}
use cisync.Cluster.Representative.{better_rep, elect_representative, elect_from, elected_any_order}
use cisync.Cluster.Supersede.{
  eligible, supersede, dominated_duplicate, SupersedeDecision, supersede_decisions, decisions,
  decide_member, decide,
}
use cisync.Cluster.Supersede.Laws.{Propagates, decisions_sound}

abbrev member : String → Member
member id = record {
  id = id;
  changed_paths = [];
  changed_symbols = [];
  depends_on = [];
  priority = pos 5;
  created_seq = pos 1;
}

abbrev urgent : Member
urgent = record (member "c") { priority = pos 9 }

elects : elect_representative (member "a" ∷ urgent ∷ []) ≡ some urgent
unfolding elect_representative elect_from better_rep
elects = refl

elects_back : elect_representative (urgent ∷ member "a" ∷ []) ≡ some urgent
unfolding elect_representative elect_from better_rep
elects_back = refl

turned : (m x y : Member) → Memᴰ m (x ∷ y ∷ []) → Memᴰ m (y ∷ x ∷ [])
turned m x y (Memᴰ.head e) = Memᴰ.tail (Memᴰ.head e)
turned m x y (Memᴰ.tail (Memᴰ.head e)) = Memᴰ.head e
turned m x y (Memᴰ.tail (Memᴰ.tail t)) = elim t [ ]

elected_any_order_example : urgent.id ≡ urgent.id
elected_any_order_example =
    elected_any_order (member "a" ∷ urgent ∷ []) (urgent ∷ member "a" ∷ []) urgent urgent
      (λ m. (turned m (member "a") urgent, turned m urgent (member "a"))) elects elects_back

abbrev copy : MemberWithRelation
copy = record { member = member "a"; relation_to_rep = duplicate_of }

abbrev cluster : ActiveCluster
cluster = record {
  id = "k";
  repo_id = "cisync";
  rep = urgent;
  members = record { member = member "b"; relation_to_rep = composable_with } ∷ copy ∷ [];
}

abbrev dropped : SupersedeDecision
dropped = record { candidate_id = "a"; action = supersede; reason = dominated_duplicate }

decides : supersede_decisions cluster eligible ≡ dropped ∷ []
unfolding supersede_decisions decisions decide_member decide sort_by place
decides = refl

decisions_sound_example :
    (m : MemberWithRelation) × Memᴰ m cluster.members
    × (m.member.id ≢ "c")
    × ("a" ≡ m.member.id)
    × Propagates eligible m.relation_to_rep supersede dominated_duplicate
decisions_sound_example =
    decisions_sound cluster eligible dropped
      (subst (λ ds. Memᴰ dropped ds) (sym decides) (Memᴰ.head refl))
