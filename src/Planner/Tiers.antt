-- ===== src/Planner/Tiers.antt =====
-- services/control-plane/internal/planner/tier_defaults.go: the envelopes of the tiers and their jobs.
use cisync.Prelude.{ℕ, String, Option, none, some, List, [], ◌∷◌, nat_eq}
use cisync.Prelude.Maps.{lookup}

pub record Envelope : Type 0 where
  pub timeout_seconds : ℕ
  pub cost_millicents : ℕ
  pub pool : String

-- The tiers are 0 admission, 1 local, 2 contract, 3 system, 4 integration.
unfoldable pub tier_envelope : List (ℕ × Envelope)
tier_envelope =
    (0, record { timeout_seconds = 60; cost_millicents = 5000; pool = "fast" })
    ∷ (1, record { timeout_seconds = 900; cost_millicents = 20_000; pool = "unit" })
    ∷ (2, record { timeout_seconds = 1800; cost_millicents = 150_000; pool = "contract" })
    ∷ (3, record { timeout_seconds = 3600; cost_millicents = 1_200_000; pool = "system" })
    ∷ (4, record { timeout_seconds = 5400; cost_millicents = 4_000_000; pool = "merge_train" })
    ∷ []

pub record JobSpec : Type 0 where
  pub name : String
  pub kind : String
  pub timeout_seconds : ℕ
  pub est_cost_millicents : ℕ
  pub pool : String

-- A map read of a missing key gives the zero envelope.
unfoldable pub envelope_or_zero : Option Envelope → Envelope
envelope_or_zero none = record { timeout_seconds = 0; cost_millicents = 0; pool = "" }
envelope_or_zero (some e) = e

unfoldable pub job : ℕ → String → String → JobSpec
unfolding envelope_or_zero tier_envelope
job tier name kind =
    let env = envelope_or_zero (lookup tier tier_envelope) in
    record {
      name = name;
      kind = kind;
      timeout_seconds = env.timeout_seconds;
      est_cost_millicents = env.cost_millicents;
      pool = env.pool;
    }

unfoldable pub tier0_jobs : List JobSpec
unfolding job
tier0_jobs =
    job 0 "secret_scan" "secret_scan"
    ∷ job 0 "format_lint" "format_lint"
    ∷ job 0 "typecheck_lite" "typecheck_lite"
    ∷ job 0 "diff_sanity" "diff_sanity"
    ∷ job 0 "policy_admissibility" "policy_admissibility"
    ∷ []

unfoldable pub tier1_selected_jobs : List JobSpec
unfolding job
tier1_selected_jobs =
    job 1 "hermetic_build" "hermetic_build"
    ∷ job 1 "compile_affected_targets" "compile"
    ∷ job 1 "selected_unit_tests" "selected_unit"
    ∷ job 1 "sast_diff_scan" "sast_diff"
    ∷ []

unfoldable pub tier1_full_jobs : List JobSpec
unfolding job
tier1_full_jobs =
    job 1 "hermetic_build" "hermetic_build"
    ∷ job 1 "compile_affected_targets" "compile"
    ∷ job 1 "full_unit_suite" "selected_unit"
    ∷ job 1 "sast_diff_scan" "sast_diff"
    ∷ []

unfoldable pub tier2_selected_base : List JobSpec
unfolding job
tier2_selected_base =
    job 2 "impacted_integration_tests" "integration"
    ∷ job 2 "api_compat" "api_compat"
    ∷ job 2 "schema_migration_compat" "migration_compat"
    ∷ job 2 "dependency_license_check" "license_check"
    ∷ []

-- The first of the full base, by which `widenTier2` replaces a selective job.
unfoldable pub tier2_full_first : JobSpec
unfolding job
tier2_full_first = job 2 "full_integration_suite" "integration"

unfoldable pub tier2_full_base : List JobSpec
unfolding tier2_full_first job
tier2_full_base =
    tier2_full_first
    ∷ job 2 "api_compat" "api_compat"
    ∷ job 2 "schema_migration_compat" "migration_compat"
    ∷ job 2 "dependency_license_check" "license_check"
    ∷ []

unfoldable pub tier2_payment_job : JobSpec
unfolding job
tier2_payment_job = job 2 "payment_contract_check" "payment_contract"

unfoldable pub tier2_idempotency_job : JobSpec
unfolding job
tier2_idempotency_job = job 2 "idempotency_race_probe" "idempotency_race"

unfoldable pub tier3_jobs : List JobSpec
unfolding job
tier3_jobs =
    job 3 "e2e_browser_mobile" "e2e"
    ∷ job 3 "load_affected_surfaces" "load"
    ∷ job 3 "fuzz_affected_surfaces" "fuzz"
    ∷ job 3 "preview_env_validation" "preview_env"
    ∷ []

unfoldable pub tier4_jobs : List JobSpec
unfolding job
tier4_jobs =
    job 4 "merge_train_simulation" "integration_train"
    ∷ job 4 "integrated_build_sign" "integrated_build"
    ∷ job 4 "canary_gate" "canary_gate"
    ∷ []

-- A tier that the table does not know costs as tier 2 does, and takes as long.
unfoldable pub tier_default_cost : ℕ → ℕ
unfolding tier_envelope
tier_default_cost tier = elim (lookup tier tier_envelope) [
  | none ↦ 150_000
  | some env ↦ env.cost_millicents
]

unfoldable pub tier_default_timeout_seconds : ℕ → ℕ
unfolding tier_envelope
tier_default_timeout_seconds tier = elim (lookup tier tier_envelope) [
  | none ↦ 1800
  | some env ↦ env.timeout_seconds
]
