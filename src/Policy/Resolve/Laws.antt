-- ===== src/Policy/Resolve/Laws.antt =====
-- `Resolve` of policy/resolve.go: the best of the records that apply, and no other.
use cisync.Prelude.{
  ◌≡◌, refl, ◌⊎◌, inl, inr, ◌↔◌, Bool, true, false, Option, none, some, List, [], ◌∷◌, Memᴰ, All,
  All-mem, All-map, ℕ, ◌≢◌, contains, string_eq, String, Bool-cases, Option-cases, arith, eq_iff,
  subst, if◌then◌else◌, ltb, not, ◌==◌, nat_eq, ◌<◌,
}
use cisync.Prelude.Int.{ℤ, pos, ◌<ℤ◌, lt_int, eq_int, eq_int_iff}
use cisync.Prelude.Texts.{less, less_trans, less_irrefl, less-false_trans}
use cisync.Policy.Document.{Subject, PolicyRecord, ScopeSelectors, ResolvedPolicy, records}
use cisync.Policy.Resolve.{
  Ranked, beats, better, candidate, keep_better, specificity, match_specificity, is_empty,
  match_any_glob, any_path, best_loop, stamp, resolve, ok, err, no_active_policy,
}

less_asym : (s t : String) → less s t ≡ true → less t s ≡ false
less_asym s t h = ground (arith, less_trans s t s, less_irrefl s)

beats_asym : (a b : Ranked) → beats a b ≡ true → beats b a ≡ false
unfolding beats
beats_asym a b h = ground (arith, less_asym b.rec.id a.rec.id)

beats-false_trans : (a b c : Ranked) → beats a b ≡ false → beats b c ≡ false → beats a c ≡ false
unfolding beats
beats-false_trans a b c h k = ground (arith, less-false_trans c.rec.id b.rec.id a.rec.id)

beats_irrefl : (a : Ranked) → beats a a ≡ false
beats_irrefl a = elim (Bool-cases (beats a a)) [ inl h ↦ beats_asym a a h | inr h ↦ h ]

-- No record that is held in `best` beats `w`.
abbrev Unbeaten : Option Ranked → Ranked → Type 0
Unbeaten none w = Unit
Unbeaten (some a) w = beats a w ≡ false

better-Unbeaten :
    (a : Ranked) (best : Option Ranked) (w : Ranked)
    → beats (better a best) w ≡ false
    → (beats a w ≡ false) × Unbeaten best w
unfolding better
better-Unbeaten a none w h = (h, tt)
better-Unbeaten a (some b) w h = elim (Bool-cases (beats a b)) [
  | inl wins ↦
      let here : beats a w ≡ false = (rw wins at h) in
      (here, beats-false_trans b a w (beats_asym a b wins) here)
  | inr loses ↦
      let here : beats b w ≡ false = (rw loses at h) in (beats-false_trans a b w loses here, here)
]

keep_better-Unbeaten :
    (a best : Option Ranked) (w : Ranked)
    → Unbeaten (keep_better a best) w
    → Unbeaten a w × Unbeaten best w
unfolding keep_better
keep_better-Unbeaten none best w h = (tt, h)
keep_better-Unbeaten (some a) best w h = better-Unbeaten a best w h

best_loop-Unbeaten :
    (s : Subject) (recs : List PolicyRecord) (best : Option Ranked) {w : Ranked}
    → best_loop s recs best ≡ some w
    → Unbeaten best w × All (λ rec. Unbeaten (candidate s rec) w) recs
unfolding best_loop
best_loop-Unbeaten s [] best {w} h = (rw h (beats_irrefl w), tt)
best_loop-Unbeaten s (rec ∷ recs) best {w} h =
    let (now, later) = best_loop-Unbeaten s recs (keep_better (candidate s rec) best) h in
    let (here, before) = keep_better-Unbeaten (candidate s rec) best w now in
    (before, (here, later))

keep_better-none : (a best : Option Ranked) → keep_better a best ≡ none → (a ≡ none) × (best ≡ none)
unfolding keep_better
keep_better-none none best h = (refl, h)
keep_better-none (some a) best h = absurd (cc)

keep_better-from :
    (a best : Option Ranked) {w : Ranked}
    → keep_better a best ≡ some w
    → (a ≡ some w) ⊎ (best ≡ some w)
unfolding keep_better better
keep_better-from none best h = inr h
keep_better-from (some a) none h = inl h
keep_better-from (some a) (some b) h = elim (Bool-cases (beats a b)) [
  | inl wins ↦ inl (rw wins at h)
  | inr loses ↦ inr (rw loses at h)
]

-- The best record is one of the list, or was held before.
best_loop-from :
    (s : Subject) (recs : List PolicyRecord) (best : Option Ranked) {w : Ranked}
    → best_loop s recs best ≡ some w
    → ((rec : PolicyRecord) × Memᴰ rec recs × (candidate s rec ≡ some w)) ⊎ (best ≡ some w)
unfolding best_loop
best_loop-from s [] best h = inr h
best_loop-from s (rec ∷ recs) best h =
    elim (best_loop-from s recs (keep_better (candidate s rec) best) h) [
      | inl (r, m, e) ↦ inl (r, Memᴰ.tail m, e)
      | inr kept ↦ elim (keep_better-from (candidate s rec) best kept) [
        | inl e ↦ inl (rec, Memᴰ.head refl, e)
        | inr e ↦ inr e
      ]
    ]

-- With no best at the end, no record applied.
best_loop-none :
    (s : Subject) (recs : List PolicyRecord) (best : Option Ranked)
    → best_loop s recs best ≡ none
    → (best ≡ none) × All (λ rec. candidate s rec ≡ none) recs
unfolding best_loop
best_loop-none s [] best h = (h, tt)
best_loop-none s (rec ∷ recs) best h =
    let (now, later) = best_loop-none s recs (keep_better (candidate s rec) best) h in
    let (here, before) = keep_better-none (candidate s rec) best now in (before, (here, later))

-- A dimension of the selectors restricts nothing if it is empty.
abbrev pub Wild : List String → Bool → Type 0
Wild selector matched = (is_empty selector ≡ true) ⊎ (matched ≡ true)

pub record Fits (sel : ScopeSelectors) (s : Subject) : Type 0 where
  pub fits_repo : Wild sel.repos (match_any_glob sel.repos s.repo)
  pub fits_path : Wild sel.paths (any_path sel.paths s.changed_paths)
  pub fits_risk : Wild sel.risk_classes (contains sel.risk_classes s.risk_class)
  pub fits_actor : Wild sel.actors.agents (match_any_glob sel.actors.agents s.actor)
  pub not_excluded :
      (is_empty sel.actors.exclude ≡ true) ⊎ (match_any_glob sel.actors.exclude s.actor ≡ false)

pub record Applies (s : Subject) (rec : PolicyRecord) : Type 0 where
  pub active : rec.status ≡ "active"
  pub named : rec.body.policy_id ≢ ""
  pub numbered : pos 0 <ℤ rec.version
  pub fits : Fits rec.body.scope_selectors s

abbrev pub rank : PolicyRecord → Ranked
rank rec = record { spec = specificity rec.body.scope_selectors; rec = rec }

match_specificity-Fits :
    (sel : ScopeSelectors) (s : Subject) {n : ℕ}
    → match_specificity sel s ≡ some n
    → Fits sel s × (n ≡ specificity sel)
unfolding match_specificity
match_specificity-Fits sel s h = ground arith

Fits-match_specificity :
    (sel : ScopeSelectors) (s : Subject)
    → Fits sel s
    → match_specificity sel s ≡ some (specificity sel)
unfolding match_specificity
Fits-match_specificity sel s f = ground arith

pub candidate-Applies :
    (s : Subject) (rec : PolicyRecord) {a : Ranked}
    → candidate s rec ≡ some a
    → Applies s rec × (a ≡ rank rec)
unfolding candidate
candidate-Applies s rec h = elim (Option-cases (match_specificity rec.body.scope_selectors s)) [
  | inl e ↦ absurd (ground arith)
  | inr (n, e) ↦
      let (f, spec) = match_specificity-Fits rec.body.scope_selectors s e in
      ground (arith, eq_iff rec.status "active", eq_iff rec.body.policy_id "")
]

Applies-candidate :
    (s : Subject) (rec : PolicyRecord) → Applies s rec → candidate s rec ≡ some (rank rec)
unfolding candidate
Applies-candidate s rec a = ground (
  arith,
  eq_iff rec.status "active",
  eq_iff rec.body.policy_id "",
  Fits-match_specificity rec.body.scope_selectors s a.fits,
)

abbrev pub resolved : PolicyRecord → ResolvedPolicy
resolved rec = record { policy_id = rec.id; version = rec.version; body = rec.body }

-- `b` is at least as good as `a`: more specific, or as specific with a newer version, or of one version
-- with an id that is not less.
abbrev pub NotAbove : PolicyRecord → PolicyRecord → Type 0
NotAbove a b =
    (specificity a.body.scope_selectors < specificity b.body.scope_selectors)
    ⊎ ((specificity a.body.scope_selectors ≡ specificity b.body.scope_selectors)
        × ((a.version <ℤ b.version) ⊎ ((a.version ≡ b.version) × (less b.id a.id ≡ false))))

not_above_gate :
    (m n : ℕ) (v w : ℤ) (t : Bool)
    → (if not (m == n) then ltb n m else if not (eq_int v w) then lt_int w v else t) ≡ false
    → (m < n) ⊎ ((m ≡ n) × ((v <ℤ w) ⊎ ((v ≡ w) × (t ≡ false))))
not_above_gate m n v w t h = elim (Bool-cases (m == n)) [
  | inl e ↦ elim (Bool-cases (eq_int v w)) [
    | inl f ↦ inr (ground arith, inr ((eq_int_iff v w).0 f, rw (e, f) at h))
    | inr f ↦ inr (ground arith, inl (older v w f (rw (e, f) at h)))
  ]
  | inr e ↦ inl (ground arith)
]
  where
    older : (v w : ℤ) → eq_int v w ≡ false → lt_int w v ≡ false → v <ℤ w
    older v w f g = ground arith

unbeaten-NotAbove : (a b : PolicyRecord) → beats (rank a) (rank b) ≡ false → NotAbove a b
unfolding beats
unbeaten-NotAbove a b h =
    not_above_gate (specificity a.body.scope_selectors) (specificity b.body.scope_selectors)
      a.version b.version (less b.id a.id) h

-- `Resolve` answers with a record of the registry that applies to the subject (active, named, with a
-- positive version, its selectors matching) and that no record which applies is above: none is more
-- specific, or as specific with a higher version, or equal in both with a greater id.
pub resolve_best :
    (s : Subject) (recs : List PolicyRecord) {p : ResolvedPolicy}
    → resolve s (some (records recs)) ≡ ok p
    → (rec : PolicyRecord) × Memᴰ rec recs
      × Applies s rec
      × (p ≡ resolved rec)
      × ((other : PolicyRecord) → Memᴰ other recs → Applies s other → NotAbove other rec)
unfolding resolve
resolve_best s recs h = elim (Option-cases (best_loop s recs none)) [
  | inl e ↦ absurd (ground arith)
  | inr (w, e) ↦ elim (best_loop-from s recs none e) [
    | inr none_held ↦ absurd (cc)
    | inl (rec, m, from) ↦
        let (a, ranked) = candidate-Applies s rec from in
        let over = (best_loop-Unbeaten s recs none e).1 in
        (
          rec,
          m,
          a,
          ground arith,
          λ other m' a'. unbeaten-NotAbove other rec (
              subst (λ x. beats (rank other) x ≡ false) ranked
                (subst (λ o. Unbeaten o w) (Applies-candidate s other a')
                  (All-mem (λ r. Unbeaten (candidate s r) w) over m'))),
        )
  ]
]

-- `Resolve` fails closed with `ErrNoActivePolicy` exactly when no record of the registry applies to
-- the subject.
pub resolve_fails_closed :
    (s : Subject) (recs : List PolicyRecord)
    → (resolve s (some (records recs)) ≡ err no_active_policy) ↔ All (λ rec. Applies s rec → ⊥) recs
unfolding resolve
resolve_fails_closed s recs = (closed, open_)
  where
    closed :
        stamp (best_loop s recs none) ≡ err no_active_policy → All (λ rec. Applies s rec → ⊥) recs
    closed h = elim (Option-cases (best_loop s recs none)) [
      | inl e ↦
          All-map (λ rec. candidate s rec ≡ none) (λ rec. Applies s rec → ⊥)
            (λ rec without a. absurd (cc (Applies-candidate s rec a))) recs
            (best_loop-none s recs none e).1
      | inr (w, e) ↦ absurd (ground arith)
    ]

    open_ :
        All (λ rec. Applies s rec → ⊥) recs → stamp (best_loop s recs none) ≡ err no_active_policy
    open_ h = elim (Option-cases (best_loop s recs none)) [
      | inl e ↦ rw e refl
      | inr (w, e) ↦ elim (best_loop-from s recs none e) [
        | inr none_held ↦ absurd (cc)
        | inl (rec, m, from) ↦
            absurd (All-mem (λ r. Applies s r → ⊥) h m (candidate-Applies s rec from).0)
      ]
    ]
