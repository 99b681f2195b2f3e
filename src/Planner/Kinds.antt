-- ===== src/Planner/Kinds.antt =====
-- services/control-plane/internal/planner/kinds.go: what evidence the jobs of a tier produce.
pub mod Catalog
pub mod Laws
use cisync.Prelude.{
  String, Bool, Option, none, some, List, [], ◌∷◌, ◌++◌, if◌then◌else◌, string_eq, contains,
}
use cisync.Prelude.Maps.{lookup, insert}
use cisync.Planner.Tiers.{
  JobSpec, tier0_jobs, tier1_selected_jobs, tier1_full_jobs, tier2_selected_base, tier2_full_base,
  tier2_payment_job, tier2_idempotency_job, tier3_jobs, tier4_jobs,
}

abbrev pub KindIndex : Type 0
KindIndex = List (String × String)

unfoldable pub index_catalog : KindIndex → List JobSpec → KindIndex
index_catalog index [] = index
index_catalog index (j ∷ cat) = index_catalog (insert j.name j.kind index) cat

unfoldable pub index_catalogs : KindIndex → List (List JobSpec) → KindIndex
unfolding index_catalog
index_catalogs index [] = index
index_catalogs index (cat ∷ catalogs) = index_catalogs (index_catalog index cat) catalogs

unfoldable pub build_job_kind_index : KindIndex
unfolding index_catalogs tier0_jobs tier1_selected_jobs tier1_full_jobs tier2_selected_base
    tier2_full_base tier2_payment_job tier2_idempotency_job tier3_jobs tier4_jobs
build_job_kind_index = index_catalogs [] (
    tier0_jobs
    ∷ tier1_selected_jobs
    ∷ tier1_full_jobs
    ∷ tier2_selected_base
    ∷ tier2_full_base
    ∷ (tier2_payment_job ∷ tier2_idempotency_job ∷ [])
    ∷ tier3_jobs
    ∷ tier4_jobs
    ∷ [])

unfoldable pub evidence_kind_for_job : String → String
unfolding build_job_kind_index
evidence_kind_for_job job_name = elim (lookup job_name build_job_kind_index) [
  | none ↦ "hermetic_build"
  | some kind ↦ kind
]

-- One round of `EvidenceKindsForJobs`.
unfoldable pub add_kind : Option String → List String → List String
add_kind none out = out
add_kind (some kind) out = if contains out kind then out else out ++ kind ∷ []

unfoldable pub kinds_loop : KindIndex → List String → List String → List String
unfolding add_kind
kinds_loop index out [] = out
kinds_loop index out (name ∷ names) = kinds_loop index (add_kind (lookup name index) out) names

unfoldable pub evidence_kinds_for_jobs : List String → List String
unfolding kinds_loop build_job_kind_index
evidence_kinds_for_jobs job_names = kinds_loop build_job_kind_index [] job_names

-- The loops of `RequiredKindsCoveredByTier`.
unfoldable pub intersect : List String → List String → List String
intersect [] required = []
intersect (kind ∷ produced) required =
    let rest = intersect produced required in if contains required kind then kind ∷ rest else rest

unfoldable pub required_kinds_covered_by_tier : List String → List String → List String
unfolding intersect evidence_kinds_for_jobs
required_kinds_covered_by_tier job_names required_kinds =
    intersect (evidence_kinds_for_jobs job_names) required_kinds
