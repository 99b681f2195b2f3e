-- ===== src/Planner/Kinds/Catalog.antt =====
-- The job lists of planner/tier_defaults.go and their index in planner/kinds.go.
use cisync.Prelude.{
  ◌&&◌, ◌||◌, ◌≡◌, refl, sym, ap, ◌∙◌, subst, inl, inr, ◌↔◌, String, Bool, true, false, Option,
  none, some, List, [], ◌∷◌, ◌++◌, Memᴰ, Bool-cases, arith, ◌==◌, string_eq, eq_iff,
}
use cisync.Prelude.Maps.{lookup, lookup-mem}
use cisync.Planner.Tiers.{
  JobSpec, tier0_jobs, tier1_selected_jobs, tier1_full_jobs, tier2_selected_base, tier2_full_base,
  tier2_payment_job, tier2_idempotency_job, tier3_jobs, tier4_jobs,
}
use cisync.Planner.Kinds.{KindIndex, index_catalog, index_catalogs, build_job_kind_index}

-- The jobs that the planner knows, of all tiers.
abbrev pub catalog : List JobSpec
catalog =
    tier0_jobs
    ++ (tier1_selected_jobs
        ++ (tier1_full_jobs
            ++ (tier2_selected_base
                ++ (tier2_full_base
                    ++ ((tier2_payment_job ∷ tier2_idempotency_job ∷ [])
                        ++ (tier3_jobs ++ tier4_jobs))))))

-- The catalog has a job of this name and kind.
abbrev pub InCatalog : String → String → Type 0
InCatalog name kind = (j : JobSpec) × Memᴰ j catalog × (j.name ≡ name) × (j.kind ≡ kind)

abbrev has_job : List JobSpec → String → String → Bool
has_job [] name kind = false
has_job (j ∷ jobs) name kind = (j.name == name && j.kind == kind) || has_job jobs name kind

abbrev all_in : List JobSpec → KindIndex → Bool
all_in jobs [] = true
all_in jobs ((name, kind) ∷ index) = has_job jobs name kind && all_in jobs index

abbrev has_kind : String → Option String → Bool
has_kind kind none = false
has_kind kind (some k) = k == kind

abbrev all_indexed : KindIndex → List JobSpec → Bool
all_indexed index [] = true
all_indexed index (j ∷ jobs) = has_kind j.kind (lookup j.name index) && all_indexed index jobs

has_job-mem :
    (jobs : List JobSpec) (name kind : String)
    → has_job jobs name kind ≡ true
    → (j : JobSpec) × Memᴰ j jobs × (j.name ≡ name) × (j.kind ≡ kind)
has_job-mem [] name kind h = absurd (cc)
has_job-mem (j ∷ jobs) name kind h = elim (Bool-cases (j.name == name && j.kind == kind)) [
  | inl e ↦
      (j, Memᴰ.head refl, ground (arith, eq_iff j.name name), ground (arith, eq_iff j.kind kind))
  | inr n ↦ let (i, m, a, b) = has_job-mem jobs name kind (ground arith) in (i, Memᴰ.tail m, a, b)
]

all_in-mem :
    (jobs : List JobSpec) (index : KindIndex) {name kind : String}
    → all_in jobs index ≡ true
    → Memᴰ (name, kind) index
    → has_job jobs name kind ≡ true
all_in-mem jobs [] h m = elim m [ ]
all_in-mem jobs ((n, k) ∷ index) h (Memᴰ.head e) =
    let here : has_job jobs n k ≡ true = ground arith in
    ap (λ (p : String × String). has_job jobs p.0 p.1) e ∙ here
all_in-mem jobs ((n, k) ∷ index) h (Memᴰ.tail m) = all_in-mem jobs index (ground arith) m

has_kind-some : (kind : String) (o : Option String) → has_kind kind o ≡ true → o ≡ some kind
has_kind-some kind none h = absurd (cc)
has_kind-some kind (some k) h = ap some ((eq_iff k kind).0 h)

all_indexed-lookup :
    (index : KindIndex) (jobs : List JobSpec) {j : JobSpec}
    → all_indexed index jobs ≡ true
    → Memᴰ j jobs
    → lookup j.name index ≡ some j.kind
all_indexed-lookup index [] h m = elim m [ ]
all_indexed-lookup index (i ∷ jobs) h (Memᴰ.head e) =
    subst (λ (x : JobSpec). lookup x.name index ≡ some x.kind) (sym e)
      (has_kind-some i.kind (lookup i.name index) (ground arith))
all_indexed-lookup index (i ∷ jobs) h (Memᴰ.tail m) = all_indexed-lookup index jobs (ground arith) m

-- The index and the catalog agree.
checked :
    (all_in catalog build_job_kind_index ≡ true) × (all_indexed build_job_kind_index catalog ≡ true)
unfolding build_job_kind_index index_catalog index_catalogs tier0_jobs tier1_selected_jobs
    tier1_full_jobs tier2_selected_base tier2_full_base tier2_payment_job tier2_idempotency_job
    tier3_jobs tier4_jobs
checked = (refl, refl)

pub indexed_iff :
    (name kind : String) → (lookup name build_job_kind_index ≡ some kind) ↔ InCatalog name kind
indexed_iff name kind = (
  λ e.
      has_job-mem catalog name kind (
        all_in-mem catalog build_job_kind_index checked.0 (lookup-mem name build_job_kind_index e)),
  λ (j, m, a, b).
      ap (λ n. lookup n build_job_kind_index) (sym a)
      ∙ all_indexed-lookup build_job_kind_index catalog checked.1 m
      ∙ ap some b,
)
