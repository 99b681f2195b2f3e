-- ===== src/Planner/Kinds/Laws.antt =====
-- `RequiredKindsCoveredByTier` of planner/kinds.go: what a tier covers, and what none does.
use cisync.Prelude.{
  ◌≡◌, refl, sym, ap, ◌∙◌, subst, ◌⊎◌, inl, inr, ◌↔◌, String, Bool, true, false, Option, none, some,
  List, [], ◌∷◌, ◌++◌, Memᴰ, Bool-cases, arith, if◌then◌else◌, ◌==◌, string_eq, eq_iff, contains,
  contains-mem, mem-contains,
}
use cisync.Prelude.Maps.{lookup, lookup-mem}
use cisync.Planner.Kinds.Catalog.{InCatalog, indexed_iff}
use cisync.Planner.Kinds.{
  KindIndex, add_kind, kinds_loop, evidence_kinds_for_jobs, intersect,
  required_kinds_covered_by_tier, build_job_kind_index,
}

mem-append_right : (x : String) (out : List String) → Memᴰ x (out ++ x ∷ [])
mem-append_right x [] = Memᴰ.head refl
mem-append_right x (y ∷ out) = Memᴰ.tail (mem-append_right x out)

mem-append_left :
    {x : String} (k : String) {out : List String} → Memᴰ x out → Memᴰ x (out ++ k ∷ [])
mem-append_left k (Memᴰ.head e) = Memᴰ.head e
mem-append_left k (Memᴰ.tail m) = Memᴰ.tail (mem-append_left k m)

mem_snoc :
    (k : String) (out : List String) {x : String} → Memᴰ x (out ++ k ∷ []) → Memᴰ x out ⊎ (x ≡ k)
mem_snoc k [] (Memᴰ.head e) = inr e
mem_snoc k [] (Memᴰ.tail m) = elim m [ ]
mem_snoc k (y ∷ out) (Memᴰ.head e) = inl (Memᴰ.head e)
mem_snoc k (y ∷ out) (Memᴰ.tail m) = elim (mem_snoc k out m) [
  | inl a ↦ inl (Memᴰ.tail a)
  | inr e ↦ inr e
]

-- A job of the list has the kind in the index.
abbrev pub Produces : KindIndex → List String → String → Type 0
Produces index names kind = (name : String) × Memᴰ name names × (lookup name index ≡ some kind)

add_kind-mem :
    (o : Option String) (out : List String) {k : String}
    → Memᴰ k (add_kind o out)
    → Memᴰ k out ⊎ (o ≡ some k)
unfolding add_kind
add_kind-mem none out m = inl m
add_kind-mem (some kind) out m = elim (Bool-cases (contains out kind)) [
  | inl old ↦ inl (rw (old, add_kind) at m)
  | inr new ↦ elim (mem_snoc kind out (rw (new, add_kind) at m)) [
    | inl a ↦ inl a
    | inr e ↦ inr (ap some (sym e))
  ]
]

mem-add_kind :
    (o : Option String) (out : List String) {k : String}
    → Memᴰ k out ⊎ (o ≡ some k)
    → Memᴰ k (add_kind o out)
unfolding add_kind
mem-add_kind none out (inl m) = m
mem-add_kind none out (inr e) = absurd (cc)
mem-add_kind (some kind) out (inl m) = elim (Bool-cases (contains out kind)) [
  | inl old ↦ rw (old, add_kind) m
  | inr new ↦ rw (new, add_kind) (mem-append_left kind m)
]
mem-add_kind (some kind) out {k} (inr e) = elim (Bool-cases (contains out kind)) [
  | inl old ↦ rw (old, add_kind) (subst (λ x. Memᴰ x out) (cc) (contains-mem out kind old))
  | inr new ↦
      rw (new, add_kind) (subst (λ x. Memᴰ x (out ++ kind ∷ [])) (cc) (mem-append_right kind out))
]

kinds_loop-mem :
    (index : KindIndex) (out names : List String) {k : String}
    → Memᴰ k (kinds_loop index out names)
    → Memᴰ k out ⊎ Produces index names k
unfolding kinds_loop
kinds_loop-mem index out [] m = inl m
kinds_loop-mem index out (name ∷ names) m =
    elim (kinds_loop-mem index (add_kind (lookup name index) out) names m) [
      | inr (n, mn, e) ↦ inr (n, Memᴰ.tail mn, e)
      | inl here ↦ elim (add_kind-mem (lookup name index) out here) [
        | inl old ↦ inl old
        | inr e ↦ inr (name, Memᴰ.head refl, e)
      ]
    ]

mem-kinds_loop :
    (index : KindIndex) (out names : List String) {k : String}
    → Memᴰ k out ⊎ Produces index names k
    → Memᴰ k (kinds_loop index out names)
unfolding kinds_loop
mem-kinds_loop index out [] (inl m) = m
mem-kinds_loop index out [] (inr (n, mn, e)) = elim mn [ ]
mem-kinds_loop index out (name ∷ names) (inl m) =
    mem-kinds_loop index (add_kind (lookup name index) out) names
      (inl (mem-add_kind (lookup name index) out (inl m)))
mem-kinds_loop index out (name ∷ names) (inr (n, Memᴰ.head same, e)) =
    mem-kinds_loop index (add_kind (lookup name index) out) names
      (inl (mem-add_kind (lookup name index) out (inr (ap (λ x. lookup x index) (sym same) ∙ e))))
mem-kinds_loop index out (name ∷ names) (inr (n, Memᴰ.tail mn, e)) =
    mem-kinds_loop index (add_kind (lookup name index) out) names (inr (n, mn, e))

module _ (required : List String) where
  intersect-mem :
      (produced : List String) {k : String}
      → Memᴰ k (intersect produced required)
      → Memᴰ k produced × Memᴰ k required
  unfolding intersect
  intersect-mem [] m = elim m [ ]
  intersect-mem (kind ∷ produced) m = elim (Bool-cases (contains required kind)) [
    | inl want ↦ first (rw want at m) (intersect-mem produced) (contains-mem required kind want)
    | inr other ↦ let (a, b) = intersect-mem produced (rw other at m) in (Memᴰ.tail a, b)
  ]
    where
      first :
          {x : String}
          → Memᴰ x (kind ∷ intersect produced required)
          → (Memᴰ x (intersect produced required) → Memᴰ x produced × Memᴰ x required)
          → Memᴰ kind required
          → Memᴰ x (kind ∷ produced) × Memᴰ x required
      first (Memᴰ.head e) ih want = (Memᴰ.head e, subst (λ x. Memᴰ x required) (sym e) want)
      first (Memᴰ.tail m) ih want = (Memᴰ.tail (ih m).0, (ih m).1)

  mem-intersect :
      (produced : List String) {k : String}
      → Memᴰ k produced
      → Memᴰ k required
      → Memᴰ k (intersect produced required)
  unfolding intersect
  mem-intersect [] m r = elim m [ ]
  mem-intersect (kind ∷ produced) (Memᴰ.head e) r =
      rw (mem-contains required (subst (λ x. Memᴰ x required) e r)) (Memᴰ.head e)
  mem-intersect (kind ∷ produced) (Memᴰ.tail m) r = elim (Bool-cases (contains required kind)) [
    | inl want ↦ rw want (Memᴰ.tail (mem-intersect produced m r))
    | inr other ↦ rw other (mem-intersect produced m r)
  ]

covered_by :
    (job_names required : List String) (k : String)
    → Memᴰ k (required_kinds_covered_by_tier job_names required)
    → Memᴰ k required × Produces build_job_kind_index job_names k
unfolding required_kinds_covered_by_tier evidence_kinds_for_jobs
covered_by job_names required k m =
    let (made, want) = intersect-mem required (kinds_loop build_job_kind_index [] job_names) m in
    elim (kinds_loop-mem build_job_kind_index [] job_names made) [
      | inl none_yet ↦ elim none_yet [ ]
      | inr made_by ↦ (want, made_by)
    ]

-- A tier covers exactly the required kinds that are the kind of one of its jobs in the catalog: of a
-- job of that name in one of the planner's job lists, from tier 0 to tier 4.
pub covered_iff :
    (job_names required : List String) (k : String)
    → Memᴰ k (required_kinds_covered_by_tier job_names required)
      ↔ (Memᴰ k required × ((name : String) × Memᴰ name job_names × InCatalog name k))
unfolding required_kinds_covered_by_tier evidence_kinds_for_jobs
covered_iff job_names required k = (
  λ m.
      let (want, (name, listed, e)) = covered_by job_names required k m in
      (want, (name, listed, (indexed_iff name k).0 e)),
  λ (want, (name, listed, known)).
      mem-intersect required _
        (mem-kinds_loop build_job_kind_index [] job_names
          (inr (name, listed, (indexed_iff name k).1 known)))
        want,
)

-- No job of the catalog has this kind.
abbrev lacks : String → KindIndex → Bool
lacks kind [] = true
lacks kind ((name, k) ∷ index) = if k == kind then false else lacks kind index

lacks-mem :
    (kind : String) (index : KindIndex) {name : String}
    → lacks kind index ≡ true
    → Memᴰ (name, kind) index
    → ⊥
lacks-mem kind [] h m = elim m [ ]
lacks-mem kind ((n, k) ∷ index) h (Memᴰ.head e) =
    absurd (ground (arith, eq_iff k kind, ap (λ (p : String × String). p.1) e))
lacks-mem kind ((n, k) ∷ index) h (Memᴰ.tail m) = lacks-mem kind index (ground arith) m

critical_lacking :
    (lacks "full_integration" build_job_kind_index ≡ true)
    × (lacks "human_approval" build_job_kind_index ≡ true)
unfolding build_job_kind_index
critical_lacking = (refl, refl)

-- Whatever jobs a tier has, it covers neither `full_integration` nor `human_approval`.
pub critical_uncovered :
    (job_names required : List String) (k : String)
    → (k ≡ "full_integration") ⊎ (k ≡ "human_approval")
    → ¬ Memᴰ k (required_kinds_covered_by_tier job_names required)
critical_uncovered job_names required k which m =
    let (want, (name, mn, e)) = covered_by job_names required k m in
    lacks-mem k build_job_kind_index (lacking which) (lookup-mem name build_job_kind_index e)
  where
    lacking :
        (k ≡ "full_integration") ⊎ (k ≡ "human_approval") → lacks k build_job_kind_index ≡ true
    lacking (inl e) = rw e critical_lacking.0
    lacking (inr e) = rw e critical_lacking.1
