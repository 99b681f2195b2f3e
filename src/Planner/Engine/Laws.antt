-- ===== src/Planner/Engine/Laws.antt =====
-- `EnginePlanner.Plan` of planner/adapter.go over the compiled-in packs.
use cisync.Prelude.{
  ◌≡◌, ◌≢◌, refl, String, Bool, true, false, ◌||◌, List, [], ◌∷◌, string_eq, Memᴰ, some, none,
  beq-false, Option, map, contains,
}
use cisync.Prelude.Int.{ℤ, pos}
use cisync.Domain.Common.{Time, FloatBits}
use cisync.Domain.Plan as Domain_plan
use cisync.Policy.DefaultPack.{catch_all_pack}
use cisync.Policy.Resolve.Laws.{resolved}
use cisync.Policy.Compiled.{no_actor_catch_all}
use cisync.Planner.Plan.{plan, validate_input, plan_valid, plan_required, build_plan}
use cisync.Planner.Ladder.{CandidateInput}
use cisync.Policy.Document.{ResolvedPolicy}
use cisync.Prelude.Maps.{lookup}
use cisync.Planner.Plan as Plan
use cisync.Planner.Engine.{
  PortInput, ok, engine_plan, new_engine_planner, engine_input, subject_of, plan_resolved, finish,
  to_port,
}

-- A change from one commit to another, of a known risk class.
pub record IsPlannable (c : PortInput) : Type 0 where
  pub identified : c.candidate_id ≢ ""
  pub based : c.base_sha ≢ ""
  pub headed : c.head_sha ≢ ""
  pub changed : c.base_sha ≢ c.head_sha
  pub classed : Memᴰ c.risk_class ("low" ∷ "medium" ∷ "high" ∷ "critical" ∷ [])

IsPlannable-valid : {c : PortInput} → IsPlannable c → validate_input (engine_input c) ≡ none
unfolding validate_input engine_input
IsPlannable-valid {c} v =
    rw (beq-false v.identified, beq-false v.based, beq-false v.headed, beq-false v.changed) refl

abbrev compiled : ResolvedPolicy
compiled = resolved catch_all_pack

abbrev pub or_nothing : Option (List String) → List String
or_nothing none = []
or_nothing (some kinds) = kinds

-- The kinds that both packs require of a known class.
abbrev pub required_of : String → List String
required_of risk = or_nothing (lookup risk catch_all_pack.body.required_evidence_by_risk)

required_known :
    (sha256 : String → String) (i : CandidateInput) (risk : String)
    → Memᴰ risk ("low" ∷ "medium" ∷ "high" ∷ "critical" ∷ [])
    → plan_required sha256 i compiled (lookup risk catch_all_pack.body.required_evidence_by_risk)
      ≡ Plan.ok (build_plan sha256 i compiled (required_of risk))
unfolding plan_required
required_known sha256 i risk (Memᴰ.head e) = rw e refl
required_known sha256 i risk (Memᴰ.tail (Memᴰ.head e)) = rw e refl
required_known sha256 i risk (Memᴰ.tail (Memᴰ.tail (Memᴰ.head e))) = rw e refl
required_known sha256 i risk (Memᴰ.tail (Memᴰ.tail (Memᴰ.tail (Memᴰ.head e)))) = rw e refl
required_known sha256 i risk (Memᴰ.tail (Memᴰ.tail (Memᴰ.tail (Memᴰ.tail m)))) = elim m [ ]

or_true : (b : Bool) → (b || true) ≡ true
or_true true = refl
or_true false = refl

module _ (sha256 : String → String) (bits : ℤ → FloatBits) (id : String) (now : Time)
    (c : PortInput) where
  planned :
      IsPlannable c
      → plan sha256 (engine_input c) compiled
        ≡ Plan.ok (build_plan sha256 (engine_input c) compiled (required_of c.risk_class))
  unfolding plan engine_input
  planned v =
      rw (IsPlannable-valid v, plan_valid)
        (required_known sha256 (engine_input c) c.risk_class v.classed)

  -- Over the compiled-in packs the engine plans every change between two commits in a known risk class.
  -- The plan bears the wildcard pack's id and version, requires the kinds that the pack names for the
  -- class, and has the tiers 0 to 3 whatever the class, since a change without history is uncertain.
  pub engine_plans :
      IsPlannable c
      → (p : Domain_plan.ValidationPlan) × (engine_plan sha256 bits id now
            (new_engine_planner none)
            c
          ≡ ok p)
        × (p.policy ≡ record { policy_id = "pol_cisync_default"; version = pos 1 })
        × (p.required_evidence_kinds ≡ required_of c.risk_class)
        × (map (λ (t : Domain_plan.Tier). t.tier) p.tiers ≡ pos 0 ∷ pos 1 ∷ pos 2 ∷ pos 3 ∷ [])
  unfolding engine_plan new_engine_planner
  engine_plans v =
      let built = build_plan sha256 (engine_input c) compiled (required_of c.risk_class) in
      (
        to_port sha256 bits id now built,
        rw (no_actor_catch_all (subject_of c) refl, plan_resolved, planned v, finish) refl,
        refl,
        refl,
        rw (or_true (contains ("high" ∷ "critical" ∷ []) c.risk_class)) refl,
      )
