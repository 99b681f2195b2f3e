-- ===== src/Evidence/Evaluate/Laws.antt =====
-- `Evaluate` of evidence/evaluate.go against the description of an admissible proposal.
use cisync.Prelude.{
  ◌≡◌, ◌≢◌, refl, sym, ap, ◌∙◌, String, true, false, not, ◌&&◌, ◌||◌, none, ◌==◌, string_eq, nat_eq,
  if◌then◌else◌, every, inl, inr, arith, Option-cases, eq_iff, beq-false,
}
use cisync.Prelude.Int.{pos, ◌≤ℤ◌}
use cisync.Evidence.Digests.{is_sha256}
use cisync.Evidence.Evaluate.{
  accept, ProposedRecord, Context, Evaluation, rejected, check_well_formed, check_results,
  results_meta, has_attempt, has_lease, check_outcome, misses_manifest, rule_on_census,
  rule_on_outcome, evaluate, provenance_mismatch, inputs_hash_mismatch, duplicate_attempt,
  lease_already_accepted, verdict_pass, verdict_fail,
}
use cisync.Evidence.Evaluate.Checks.{
  Admissible, Supported, refs-Apart, backed_results, manifest_matched, matched_manifest, no_attempt,
  no_lease, outcome-Supported, results_backed, Supported-outcome,
}

-- The three checks that an acceptance has passed behind the context's.
census_accepted :
    (p : ProposedRecord) (ctx : Context)
    → (rule_on_census p ctx).action ≡ accept
    → (check_results p ≡ none) × (misses_manifest p ctx.expected_digests ≡ false)
unfolding rule_on_census
census_accepted p ctx h = (ground arith, ground arith)

outcome_accepted :
    (p : ProposedRecord) (ctx : Context)
    → (rule_on_outcome p ctx).action ≡ accept
    → (check_outcome p ≡ none) × ((rule_on_census p ctx).action ≡ accept)
unfolding rule_on_outcome
outcome_accepted p ctx h = (ground arith, ground arith)

-- The checks that precede the outcome's.
record Gates (p : ProposedRecord) (ctx : Context) : Type 0 where
  well_formed : check_well_formed p ≡ none
  lease_expected : (ctx.expected_lease_jti == "") ≡ false
  lease_matches : (p.lease_jti == ctx.expected_lease_jti) ≡ true
  inputs_match : (p.inputs_hash == ctx.expected_inputs_hash) ≡ true
  inputs_expected : (ctx.expected_inputs_hash == "") ≡ false
  new_attempt : has_attempt p ctx.accepted ≡ false
  new_lease : has_lease p ctx.accepted ≡ false

well_formed_first :
    (p : ProposedRecord) (ctx : Context)
    → (evaluate p ctx).action ≡ accept
    → check_well_formed p ≡ none
unfolding evaluate
well_formed_first p ctx h = elim (Option-cases (check_well_formed p)) [
  | inl ok ↦ ok
  | inr (r, bad) ↦ absurd (ground arith)
]

-- What stands behind the structural check.
abbrev behind : ProposedRecord → Context → Evaluation
behind p ctx =
    if ctx.expected_lease_jti == "" || not (p.lease_jti == ctx.expected_lease_jti)
    then rejected provenance_mismatch
    else if not (p.inputs_hash == ctx.expected_inputs_hash) || ctx.expected_inputs_hash == ""
    then rejected inputs_hash_mismatch
    else if has_attempt p ctx.accepted
    then rejected duplicate_attempt
    else if has_lease p ctx.accepted
    then rejected lease_already_accepted
    else rule_on_outcome p ctx

evaluate-behind :
    (p : ProposedRecord) (ctx : Context)
    → check_well_formed p ≡ none
    → evaluate p ctx ≡ behind p ctx
unfolding evaluate
evaluate-behind p ctx h = rw (h, evaluate) refl

behind_accepted :
    (p : ProposedRecord) (ctx : Context)
    → check_well_formed p ≡ none
    → (behind p ctx).action ≡ accept
    → Gates p ctx × ((rule_on_outcome p ctx).action ≡ accept)
behind_accepted p ctx w h = (
  record {
    well_formed = w;
    lease_expected = ground arith;
    lease_matches = ground arith;
    inputs_match = ground arith;
    inputs_expected = ground arith;
    new_attempt = ground arith;
    new_lease = ground arith;
  },
  ground arith,
)

record Formed (p : ProposedRecord) : Type 0 where
  named : (p.id ≢ "") × (p.run_id ≢ "") × (p.candidate_id ≢ "") × (p.kind ≢ "")
  attempted : pos 1 ≤ℤ p.attempt
  digests_hashed : every is_sha256 p.digests ≡ true
  inputs_hashed : p.inputs_hash ≢ "" → is_sha256 p.inputs_hash ≡ true

nonempty : (s : String) → (s == "") ≡ false → s ≢ ""
nonempty s h = λ e. ground (arith, (eq_iff s "").1 e)

check-Formed : (p : ProposedRecord) → check_well_formed p ≡ none → Formed p
unfolding check_well_formed
check-Formed p h = record {
  named = (
    nonempty p.id (ground arith),
    nonempty p.run_id (ground arith),
    nonempty p.candidate_id (ground arith),
    nonempty p.kind (ground arith),
  );
  attempted = ground arith;
  digests_hashed = ground arith;
  inputs_hashed = λ n. ground (arith, eq_iff p.inputs_hash "");
}

Gates-Admissible :
    (p : ProposedRecord) (ctx : Context)
    → Gates p ctx
    → (check_outcome p ≡ none)
    → (check_results p ≡ none)
    → (misses_manifest p ctx.expected_digests ≡ false)
    → Admissible p ctx
Gates-Admissible p ctx g o b m =
    let f = check-Formed p g.well_formed in
    let own : p.lease_jti ≡ ctx.expected_lease_jti =
      (eq_iff p.lease_jti ctx.expected_lease_jti).0 g.lease_matches in
    let given : p.lease_jti ≢ "" =
      λ e. nonempty ctx.expected_lease_jti g.lease_expected (sym own ∙ e) in
    let inputs : p.inputs_hash ≡ ctx.expected_inputs_hash =
      (eq_iff p.inputs_hash ctx.expected_inputs_hash).0 g.inputs_match in
    let hashed : p.inputs_hash ≢ "" =
      λ e. nonempty ctx.expected_inputs_hash g.inputs_expected (sym inputs ∙ e) in
    let s = outcome-Supported p o in
    record {
      named = f.named;
      attempted = f.attempted;
      digests_hashed = f.digests_hashed;
      inputs_hashed = f.inputs_hashed hashed;
      same_inputs = (inputs, hashed);
      own_lease = (own, given);
      is_new = refs-Apart p ctx.accepted given g.new_attempt g.new_lease;
      supported = s;
      backed = results_backed p b s;
      in_manifest = manifest_matched p ctx.expected_digests m;
    }

-- `Evaluate` accepts only admissible proposals: well-formed ones, under the lease and the inputs hash
-- of the context, apart from every accepted record in run attempt and lease, with an outcome, and a
-- census if one is given, that back the verdict, and with the manifest's digests if there is one.
pub accepted_only :
    (p : ProposedRecord) (ctx : Context) → (evaluate p ctx).action ≡ accept → Admissible p ctx
accepted_only p ctx h =
    let w = well_formed_first p ctx h in
    let (g, r) = behind_accepted p ctx w (ap (λ e. e.action) (sym (evaluate-behind p ctx w)) ∙ h) in
    let (o, c) = outcome_accepted p ctx r in
    let (b, m) = census_accepted p ctx c in Gates-Admissible p ctx g o b m

formed_well : (p : ProposedRecord) (ctx : Context) → Admissible p ctx → check_well_formed p ≡ none
unfolding check_well_formed
formed_well p ctx a =
    let (i, r, c, k) = a.named in
    let inputs : (p.inputs_hash == "") ≡ false = beq-false a.same_inputs.1 in
    let known : (not (p.verdict == verdict_pass) && not (p.verdict == verdict_fail)) ≡ false =
      known_verdict a.supported in
    rw
      (
        beq-false i,
        beq-false r,
        beq-false c,
        beq-false k,
        inputs,
        known,
        a.digests_hashed,
        a.inputs_hashed,
      )
      (ground (arith, a.attempted))
  where
    known_verdict :
        Supported p → (not (p.verdict == verdict_pass) && not (p.verdict == verdict_fail)) ≡ false
    known_verdict (inl (o, v)) = rw v refl
    known_verdict (inr (o, v)) = rw v refl

accepted_behind :
    (p : ProposedRecord) (ctx : Context)
    → Admissible p ctx
    → rule_on_outcome p ctx ≡ record { action = accept; reason = none; meta = results_meta p }
unfolding rule_on_outcome results_meta
accepted_behind p ctx a =
    rw
      (
        Supported-outcome p a.supported,
        backed_results p a.backed,
        matched_manifest p ctx.expected_digests a.in_manifest,
        rule_on_outcome,
        rule_on_census,
      )
      refl

behind_gates :
    (p : ProposedRecord) (ctx : Context) → Admissible p ctx → behind p ctx ≡ rule_on_outcome p ctx
behind_gates p ctx a =
    let (own, given) = a.own_lease in
    let (inputs, hashed) = a.same_inputs in
    ground (
      arith,
      beq-false given,
      beq-false hashed,
      eq_iff p.lease_jti ctx.expected_lease_jti,
      eq_iff p.inputs_hash ctx.expected_inputs_hash,
      ap (λ s. s == "") own,
      ap (λ s. s == "") inputs,
      no_attempt p ctx.accepted a.is_new,
      no_lease p ctx.accepted a.is_new,
    )

-- `Evaluate` accepts every admissible proposal, with no reason and the note on skipped tests.
pub Admissible-accepted :
    (p : ProposedRecord) (ctx : Context)
    → Admissible p ctx
    → evaluate p ctx ≡ record { action = accept; reason = none; meta = results_meta p }
Admissible-accepted p ctx a =
    evaluate-behind p ctx (formed_well p ctx a) ∙ behind_gates p ctx a ∙ accepted_behind p ctx a
