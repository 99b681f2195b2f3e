-- ===== src/Policy/DefaultPack.antt =====
-- services/control-plane/internal/policy/default_pack.go: the two compiled-in packs, as their JSON
-- texts parse, and the registry that serves them.
use cisync.Prelude.{String, List, [], ◌∷◌}
use cisync.Prelude.Int.{ℤ, pos}
use cisync.Policy.Document.{
  float, LadderOverrides, Budgets, Autonomy, PolicyBody, PolicyRecord, Answer, records,
}

-- The objects that stand in both texts.
abbrev required_evidence : List (String × List String)
required_evidence =
    ("low", "hermetic_build" ∷ "selected_unit" ∷ [])
    ∷ ("medium", "hermetic_build" ∷ "selected_unit" ∷ "api_compat" ∷ [])
    ∷ (
      "high",
      "hermetic_build" ∷ "api_compat" ∷ "payment_contract" ∷ "idempotency_race" ∷ "sast_diff" ∷ [],
    )
    ∷ ("critical", "hermetic_build" ∷ "api_compat" ∷ "full_integration" ∷ "human_approval" ∷ [])
    ∷ []

abbrev overrides : LadderOverrides
overrides = record {
  tier3_risk_classes = "high" ∷ "critical" ∷ [];
  min_selection_confidence = float 2_206_763_817_411_543 51;
  fallback_triggers = "uncertainty_gt_0.02" ∷ "sparse_history_lt_20" ∷ "protected_paths" ∷ [];
  protected_paths = "auth/**" ∷ "migrations/**" ∷ "infrastructure/prod/**" ∷ [];
}

abbrev budgets_with : List (String × ℤ) → Budgets
budgets_with tiers = record {
  per_candidate = record {
    cpu_minutes = pos 120;
    environment_minutes = pos 30;
    repair_attempts = pos 2;
  };
  per_tenant_hour = record { cpu_minutes = pos 5000; concurrent_candidates = pos 40 };
  wip_by_tier = ("0", pos 200) ∷ ("1", pos 60) ∷ ("2", pos 20) ∷ ("3", pos 6) ∷ ("4", pos 2) ∷ [];
  env_templates = ("payments-preview", record { max_concurrent = pos 4 }) ∷ [];
  value_tiers = tiers;
}

abbrev autonomy_level_3 : Autonomy
autonomy_level_3 = record {
  level = pos 3;
  levels_semantics =
      ("0", "observe and explain only")
      ∷ ("1", "recommend tests/prioritization/cancellations; human acts")
      ∷ ("2", "trigger pre-approved validation automatically")
      ∷ ("3", "bounded repair attempts on isolated branches")
      ∷ ("4", "mark low-risk candidates merge-eligible")
      ∷ ("5", "auto-merge protected low-risk changes")
      ∷ ("6", "progressive deploy under strict runtime invariants")
      ∷ [];
  auto_merge_risk_classes = [];
  auto_repair_classes = "compile_regression" ∷ "merge_conflict" ∷ "functional_regression" ∷ [];
  escalate_on =
      "security_policy_violation" ∷ "test_expectation_drift" ∷ "classification_confidence_lt_0.8"
      ∷ [];
}

abbrev pub payments_body : PolicyBody
payments_body = record {
  policy_id = "pol_payments_high_risk";
  version = pos 4;
  scope_selectors = record {
    repos = "acme/payments" ∷ [];
    paths = "services/checkout/**" ∷ "libs/idempotency/**" ∷ [];
    risk_classes = "high" ∷ "critical" ∷ [];
    actors = record { agents = "agent:*" ∷ []; exclude = "agent:docs-writer" ∷ [] };
  };
  required_evidence_by_risk = required_evidence;
  ladder_overrides = overrides;
  budgets =
      budgets_with
        (("acme/payments", float 3 1) ∷ ("acme/docs", float 5_404_319_552_844_595 54) ∷ []);
  autonomy = autonomy_level_3;
}

abbrev pub catch_all_body : PolicyBody
catch_all_body = record {
  policy_id = "pol_cisync_default";
  version = pos 1;
  scope_selectors = record {
    repos = [];
    paths = [];
    risk_classes = [];
    actors = record { agents = []; exclude = [] };
  };
  required_evidence_by_risk = required_evidence;
  ladder_overrides = overrides;
  budgets = budgets_with [];
  autonomy = autonomy_level_3;
}

-- `parsePack`, on a text that parses to `body`.
abbrev pub parse_pack : PolicyBody → PolicyRecord
parse_pack body = record {
  id = body.policy_id;
  version = body.version;
  status = "active";
  body = body;
}

abbrev pub catch_all_pack : PolicyRecord
catch_all_pack = parse_pack catch_all_body

abbrev pub default_pack : PolicyRecord
default_pack = parse_pack payments_body

-- Both texts parse, so the error branch is not taken, and the payments pack has an id.
abbrev pub default_registry : Answer
default_registry = records (catch_all_pack ∷ default_pack ∷ [])
