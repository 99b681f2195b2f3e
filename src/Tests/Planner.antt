-- ===== src/Tests/Planner.antt =====
-- Plans at concrete inputs (control-plane/internal/planner).

use cisync.Prelude.{
  ◌≡◌, ◌↔◌, refl, String, true, false, List, [], ◌∷◌, some, none, Memᴰ, All, map, eq_iff,
}
use cisync.Prelude.Int.{pos}
use cisync.Domain.Plan as Domain_plan
use cisync.Policy.Document.{float, ResolvedPolicy}
use cisync.Policy.DefaultPack.{catch_all_pack}
use cisync.Policy.Resolve.Laws.{resolved}
use cisync.Planner.Paths.{surface_classes}
use cisync.Planner.Kinds.{required_kinds_covered_by_tier}
use cisync.Planner.Kinds.Catalog.{InCatalog}
use cisync.Planner.Kinds.Laws.{covered_iff}
use cisync.Planner.Ladder.{CandidateInput, is_some_list}
use cisync.Planner.Plan.{plan, ok, ValidationPlan, build_plan}
use cisync.Planner.Plan.Laws.{plan-ladder, ladder, number}
use cisync.Planner.Plan.Suites.{plan_suites, Suits}
use cisync.Planner.Engine.{PortInput, engine_plan, new_engine_planner}
use cisync.Planner.Engine as Engine
use cisync.Planner.Engine.Laws.{engine_plans, required_of}

classes_sorted :
    surface_classes ("web/a.ts" ∷ "go.mod" ∷ "api/b.go" ∷ "web/c.ts" ∷ [])
    ≡ "_root" ∷ "api" ∷ "web" ∷ []
unfolding surface_classes
classes_sorted = refl

covers_both :
    required_kinds_covered_by_tier
      ("hermetic_build" ∷ "secret_scan" ∷ "api_compat" ∷ [])
      ("api_compat" ∷ "full_integration" ∷ "hermetic_build" ∷ [])
    ≡ "hermetic_build" ∷ "api_compat" ∷ []
unfolding required_kinds_covered_by_tier
covers_both = refl

abbrev change : CandidateInput
change = record {
  candidate_id = "cand_1";
  intent_id = "int_1";
  tenant_id = "t";
  repo = "acme/docs";
  base_sha = "aa";
  head_sha = "bb";
  patch_ref = "";
  risk_class = "medium";
  changed_paths = "web/a.ts" ∷ [];
  lockfiles = "go.sum" ∷ "package-lock.json" ∷ [];
  flags = [];
  toolchain = "go1.22";
  selection_confidence = some (float 1 0);
  surface_samples = ("web", pos 20) ∷ [];
  quarantined_or_flake_signals = [];
  composing_integration_set = false;
  relation_conflicting = false;
  ambiguous_retry_failure_confidence = none;
  explicit_full_suite_override = false;
}

abbrev forced : CandidateInput
forced = record change { explicit_full_suite_override = true }

abbrev digest : String → String
digest s = s

abbrev policy : ResolvedPolicy
policy = resolved catch_all_pack

abbrev required : List String
required = "hermetic_build" ∷ "selected_unit" ∷ "api_compat" ∷ []

-- The plan that the source builds at these inputs.
abbrev plan_of : CandidateInput → ValidationPlan
plan_of i = build_plan digest i policy required

quiet : (plan_of change).fallback_triggers ≡ []
unfolding build_plan
quiet = refl

overridden : (plan_of forced).fallback_triggers ≡ "explicit_override" ∷ []
unfolding build_plan
overridden = refl

plans : plan digest change policy ≡ ok (plan_of change)
unfolding plan
plans = refl

plans_forced : plan digest forced policy ≡ ok (plan_of forced)
unfolding plan
plans_forced = refl

plan-ladder_example : map number (plan_of forced).tiers ≡ ladder true true
unfolding build_plan
plan-ladder_example = plan-ladder digest forced policy plans_forced

plan_suites_example :
    All (Suits (is_some_list (plan_of change).fallback_triggers)) (plan_of change).tiers
plan_suites_example = plan_suites digest change policy plans

covered_iff_example :
    Memᴰ {A = String} "load"
      (required_kinds_covered_by_tier ("load_affected_surfaces" ∷ []) ("load" ∷ []))
    ↔ (Memᴰ {A = String} "load" ("load" ∷ [])
        × ((name : String) × Memᴰ {A = String} name ("load_affected_surfaces" ∷ [])
            × InCatalog name "load"))
covered_iff_example = covered_iff ("load_affected_surfaces" ∷ []) ("load" ∷ []) "load"

abbrev port : PortInput
port = record {
  candidate_id = "cand_1";
  intent_id = "int_1";
  repo = "acme/payments";
  base_sha = "aa";
  head_sha = "bb";
  patch_ref = "";
  changed_paths = "services/checkout/pay.go" ∷ [];
  risk_class = "critical";
}

engine_plans_example :
    (p : Domain_plan.ValidationPlan) × (engine_plan digest
        (λ x. 0)
        "plan_1"
        7
        (new_engine_planner none)
        port
      ≡ Engine.ok p)
    × (p.policy ≡ record { policy_id = "pol_cisync_default"; version = pos 1 })
    × (p.required_evidence_kinds ≡ required_of "critical")
    × (map (λ (t : Domain_plan.Tier). t.tier) p.tiers ≡ pos 0 ∷ pos 1 ∷ pos 2 ∷ pos 3 ∷ [])
engine_plans_example =
    engine_plans digest (λ x. 0) "plan_1" 7 port
      (record {
        identified = λ e. absurd (cc);
        based = λ e. absurd (cc);
        headed = λ e. absurd (cc);
        changed = λ e. absurd (cc ((eq_iff "aa" "bb").1 e));
        classed = Memᴰ.tail (Memᴰ.tail (Memᴰ.tail (Memᴰ.head refl)));
      })
