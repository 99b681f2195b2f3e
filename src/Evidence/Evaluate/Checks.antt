-- ===== src/Evidence/Evaluate/Checks.antt =====
-- What each check of `Evaluate` means (evidence/evaluate.go, evidence/results.go).
use cisync.Prelude.{
  ◌≡◌, ◌≢◌, refl, sym, ap, ◌∙◌, ℕ, ◌<◌, String, true, false, Option, none, some, List, [], ◌∷◌,
  ◌==◌, string_eq, nat_eq, every, All, ◌⊎◌, inl, inr, arith, Bool-cases, eq_iff,
}
use cisync.Prelude.Int.{pos, eq_int_iff, ◌≤ℤ◌}
use cisync.Evidence.Census.{TestResults, executed, census, valid_counts, census_valid}
use cisync.Evidence.Digests.{is_sha256, same_digest_set}
use cisync.Evidence.Evaluate.{
  ProposedRecord, AcceptedRef, Context, check_census, check_results, has_attempt, has_lease,
  check_outcome, misses_manifest, verdict_pass, verdict_fail, outcome_passed, outcome_failed,
}

-- A census that backs a verdict: consistent counts, of which the executed tests show the verdict.
pub record Backs (r : TestResults) (verdict : String) : Type 0 where
  pub passed : ℕ
  pub failed : ℕ
  pub skipped : ℕ
  pub quarantined : ℕ
  pub counts : r ≡ census passed failed skipped quarantined
  pub shows :
      ((verdict ≡ verdict_pass) × (failed ≡ 0) × (0 < passed))
      ⊎ ((verdict ≡ verdict_fail) × (0 < failed))

abbrev pub BacksIfGiven : Option TestResults → String → Type 0
BacksIfGiven none verdict = Unit
BacksIfGiven (some r) verdict = Backs r verdict

abbrev pub MatchesManifest : List String → Option (List String) → Type 0
MatchesManifest digests none = Unit
MatchesManifest digests (some expected) = same_digest_set digests expected ≡ true

-- A reference to an earlier accepted record that shares neither the run's attempt nor the lease.
abbrev pub Apart : ProposedRecord → AcceptedRef → Type 0
Apart p ref = ((ref.run_id ≢ p.run_id) ⊎ (ref.attempt ≢ p.attempt)) × (ref.lease_jti ≢ p.lease_jti)

pub record Admissible (p : ProposedRecord) (ctx : Context) : Type 0 where
  pub named : (p.id ≢ "") × (p.run_id ≢ "") × (p.candidate_id ≢ "") × (p.kind ≢ "")
  pub attempted : pos 1 ≤ℤ p.attempt
  pub digests_hashed : every is_sha256 p.digests ≡ true
  pub inputs_hashed : is_sha256 p.inputs_hash ≡ true
  pub same_inputs : (p.inputs_hash ≡ ctx.expected_inputs_hash) × (p.inputs_hash ≢ "")
  pub own_lease : (p.lease_jti ≡ ctx.expected_lease_jti) × (p.lease_jti ≢ "")
  pub is_new : All (Apart p) ctx.accepted
  pub supported :
      ((p.outcome ≡ outcome_passed) × (p.verdict ≡ verdict_pass))
      ⊎ ((p.outcome ≡ outcome_failed) × (p.verdict ≡ verdict_fail))
  pub backed : BacksIfGiven p.results p.verdict
  pub in_manifest : MatchesManifest p.digests ctx.expected_digests

pub refs-Apart :
    (p : ProposedRecord) (refs : List AcceptedRef)
    → p.lease_jti ≢ ""
    → has_attempt p refs ≡ false
    → has_lease p refs ≡ false
    → All (Apart p) refs
unfolding has_attempt has_lease
refs-Apart p [] l a h = tt
refs-Apart p (ref ∷ refs) l a h = (
  (
    elim (Bool-cases (ref.run_id == p.run_id)) [
      | inl same ↦ inr (λ e. absurd (ground (arith, (eq_int_iff ref.attempt p.attempt).1 e)))
      | inr n ↦ inl (λ e. ground (arith, eq_iff ref.run_id p.run_id))
    ],
    λ e. ground (arith, eq_iff p.lease_jti "", eq_iff ref.lease_jti p.lease_jti),
  ),
  refs-Apart p refs l (ground arith) (ground (arith, eq_iff p.lease_jti "")),
)

pub no_attempt :
    (p : ProposedRecord) (refs : List AcceptedRef) → All (Apart p) refs → has_attempt p refs ≡ false
unfolding has_attempt
no_attempt p [] h = refl
no_attempt p (ref ∷ refs) ((inl n, l), rest) =
    ground (arith, eq_iff ref.run_id p.run_id, no_attempt p refs rest)
no_attempt p (ref ∷ refs) ((inr n, l), rest) =
    ground (arith, (eq_int_iff ref.attempt p.attempt).0, no_attempt p refs rest)

pub no_lease :
    (p : ProposedRecord) (refs : List AcceptedRef) → All (Apart p) refs → has_lease p refs ≡ false
unfolding has_lease
no_lease p [] h = refl
no_lease p (ref ∷ refs) ((n, l), rest) =
    ground (arith, eq_iff ref.lease_jti p.lease_jti, no_lease p refs rest)

abbrev pub Shows : ℕ → ℕ → String → Type 0
Shows a b verdict =
    ((verdict ≡ verdict_pass) × (b ≡ 0) × (0 < a)) ⊎ ((verdict ≡ verdict_fail) × (0 < b))

pub shown :
    (p : ProposedRecord) (a b c d : ℕ)
    → check_census p (census a b c d) ≡ none
    → (p.verdict ≡ verdict_pass) ⊎ (p.verdict ≡ verdict_fail)
    → Shows a b p.verdict
unfolding check_census executed
shown p a b c d h (inl v) = inl (
  v,
  ground (arith, (eq_iff p.verdict verdict_pass).1 v, census_valid a b c d),
  ground (arith, (eq_iff p.verdict verdict_pass).1 v, census_valid a b c d),
)
shown p a b c d h (inr v) =
    inr (v, ground (arith, (eq_iff p.verdict verdict_fail).1 v, census_valid a b c d))

pub census-Backs :
    (p : ProposedRecord) (r : TestResults)
    → check_census p r ≡ none
    → (p.verdict ≡ verdict_pass) ⊎ (p.verdict ≡ verdict_fail)
    → Backs r p.verdict
census-Backs p r h v =
    let (a, b, c, d, e) = valid_counts r (unfold check_census in ground arith) in
    record {
      passed = a;
      failed = b;
      skipped = c;
      quarantined = d;
      counts = e;
      shows = shown p a b c d (ap (check_census p) (sym e) ∙ h) v;
    }

pub Backs-census :
    (p : ProposedRecord) (r : TestResults) → Backs r p.verdict → check_census p r ≡ none
unfolding check_census executed
Backs-census p r b = rw b.counts (go b.shows)
  where
    go :
        Shows b.passed b.failed p.verdict
        → check_census p (census b.passed b.failed b.skipped b.quarantined) ≡ none
    go (inl (v, z, some_passed)) =
        let other : (p.verdict == verdict_fail) ≡ false = rw v refl in
        ground (
          arith,
          (eq_iff p.verdict verdict_pass).1 v,
          other,
          census_valid b.passed b.failed b.skipped b.quarantined,
        )
    go (inr (v, some_failed)) =
        let other : (p.verdict == verdict_pass) ≡ false = rw v refl in
        ground (
          arith,
          (eq_iff p.verdict verdict_fail).1 v,
          other,
          census_valid b.passed b.failed b.skipped b.quarantined,
        )

abbrev pub Supported : ProposedRecord → Type 0
Supported p =
    ((p.outcome ≡ outcome_passed) × (p.verdict ≡ verdict_pass))
    ⊎ ((p.outcome ≡ outcome_failed) × (p.verdict ≡ verdict_fail))

pub outcome-Supported : (p : ProposedRecord) → check_outcome p ≡ none → Supported p
unfolding check_outcome
outcome-Supported p h = elim (Bool-cases (p.outcome == outcome_passed)) [
  | inl passed ↦
      inl
        ((eq_iff p.outcome outcome_passed).0 passed, ground (arith, eq_iff p.verdict verdict_pass))
  | inr n ↦ inr (
    ground (arith, eq_iff p.outcome outcome_failed),
    ground (arith, eq_iff p.verdict verdict_fail),
  )
]

pub Supported-outcome : (p : ProposedRecord) → Supported p → check_outcome p ≡ none
unfolding check_outcome
Supported-outcome p (inl (o, v)) = rw (o, v) refl
Supported-outcome p (inr (o, v)) = rw (o, v) refl

pub verdict_of :
    (p : ProposedRecord) → Supported p → (p.verdict ≡ verdict_pass) ⊎ (p.verdict ≡ verdict_fail)
verdict_of p (inl (o, v)) = inl v
verdict_of p (inr (o, v)) = inr v

pub results_backed :
    (p : ProposedRecord) → check_results p ≡ none → Supported p → BacksIfGiven p.results p.verdict
unfolding check_results
results_backed p h s = go p.results refl
  where
    go : (o : Option TestResults) → p.results ≡ o → BacksIfGiven o p.verdict
    go none e = tt
    go (some r) e = census-Backs p r (ground arith) (verdict_of p s)

pub backed_results :
    (p : ProposedRecord) → BacksIfGiven p.results p.verdict → check_results p ≡ none
unfolding check_results
backed_results p h = go p.results refl h
  where
    go :
        (o : Option TestResults) → p.results ≡ o → BacksIfGiven o p.verdict → check_results p ≡ none
    go none e b = rw (e, check_results) refl
    go (some r) e b = rw (e, check_results) (Backs-census p r b)

pub manifest_matched :
    (p : ProposedRecord) (m : Option (List String))
    → misses_manifest p m ≡ false
    → MatchesManifest p.digests m
unfolding misses_manifest
manifest_matched p none h = tt
manifest_matched p (some m) h = ground arith

pub matched_manifest :
    (p : ProposedRecord) (m : Option (List String))
    → MatchesManifest p.digests m
    → misses_manifest p m ≡ false
unfolding misses_manifest
matched_manifest p none h = refl
matched_manifest p (some m) h = ground arith
