-- ===== src/Tests/Gateway.antt =====
-- A passing proposal with a census and a manifest in another order (control-plane/internal/evidence).
use cisync.Prelude.{◌≡◌, refl, ℕ, String, true, none, some, List, [], ◌∷◌, string_eq, arith}
use cisync.Prelude.Int.{pos}
use cisync.Domain.EvidenceRecord.{EvidenceRecord, new_evidence_record}
use cisync.Domain.Run.{running}
use cisync.Evidence.Census.{executed, sum, is_valid, census}
use cisync.Evidence.Digests.{
  decodes, is_sha256, sift, sift_all, sort_strings, same_elements, same_digest_set,
}
use cisync.Evidence.Digests.Sorting.{occurrences}
use cisync.Evidence.Evaluate.{
  accept, ProposedRecord, Context, evaluate, check_well_formed, check_census, check_results,
  results_meta, has_attempt, has_lease, check_outcome, misses_manifest, rule_on_census,
  rule_on_outcome,
}
use cisync.Evidence.Evaluate.Checks.{Admissible}
use cisync.Evidence.Evaluate.Laws.{accepted_only, Admissible-accepted}
use cisync.Evidence.Engine.{
  Expectations, engine_evaluate, answer_record, rule, proposal_from_domain, accepts, engine_accepts,
}
use cisync.Evidence.Sufficiency.{
  AcceptedRecord, sufficiency, dedupe_non_empty, dedupe_loop, satisfy, mark,
}

abbrev digest_a : String
digest_a = "sha256:aaaaaaaaaaaaaaaaaaaaaaaaaaaaaaaaaaaaaaaaaaaaaaaaaaaaaaaaaaaaaaaa"

abbrev digest_b : String
digest_b = "sha256:bbbbbbbbbbbbbbbbbbbbbbbbbbbbbbbbbbbbbbbbbbbbbbbbbbbbbbbbbbbbbbbb"

abbrev proposal : ProposedRecord
proposal = record {
  id = "e";
  run_id = "r";
  candidate_id = "c";
  kind = "unit";
  verdict = "pass";
  outcome = "passed";
  results = some (census 3 0 1 0);
  digests = digest_b ∷ digest_a ∷ [];
  inputs_hash = digest_a;
  lease_jti = "lease";
  attempt = pos 1;
}

abbrev context : Context
context = record {
  expected_lease_jti = "lease";
  expected_inputs_hash = digest_a;
  expected_digests = some (digest_a ∷ digest_b ∷ []);
  accepted = record { run_id = "r"; attempt = pos 0; lease_jti = "earlier" } ∷ [];
}

accepts_proposal : (evaluate proposal context).action ≡ accept
unfolding evaluate check_well_formed is_sha256 decodes has_attempt has_lease rule_on_outcome
    check_outcome rule_on_census check_results check_census is_valid sum executed misses_manifest
    same_digest_set sort_strings sift_all sift same_elements
accepts_proposal = refl

accepted_only_example : Admissible proposal context
accepted_only_example = accepted_only proposal context accepts_proposal

Admissible-accepted_example :
    evaluate proposal context
    ≡ record { action = accept; reason = none; meta = results_meta proposal }
Admissible-accepted_example = Admissible-accepted proposal context accepted_only_example

same_set : same_digest_set (digest_b ∷ digest_a ∷ []) (digest_a ∷ digest_b ∷ []) ≡ true
unfolding same_digest_set sort_strings sift_all sift same_elements
same_set = refl

swapped :
    (x : String)
    → occurrences x (digest_b ∷ digest_a ∷ []) ≡ occurrences x (digest_a ∷ digest_b ∷ [])
swapped x = ground arith

abbrev produced : EvidenceRecord
produced =
    new_evidence_record "e" "t" "r" (pos 1) "c" "unit" "pass" (digest_b ∷ digest_a ∷ []) digest_a 0
      (pos 1) "lease" 5

abbrev resolve : Expectations
resolve rec = some context

port_accepts :
    accepts (
      engine_evaluate (some resolve) (record {
        evidence = some produced;
        run_state = running;
        fence_token = 2;
        current_fence = 2;
      }))
    ≡ true
unfolding engine_evaluate answer_record rule proposal_from_domain new_evidence_record evaluate
    check_well_formed is_sha256 decodes has_attempt has_lease rule_on_outcome check_outcome
    rule_on_census check_results misses_manifest same_digest_set sort_strings sift_all sift
    same_elements
port_accepts = refl

engine_accepts_example :
    ◌≡◌ {A = ℕ} 2 2
    × ((ctx : Context) × (resolve produced ≡ some ctx)
        × Admissible (proposal_from_domain produced) ctx)
engine_accepts_example = engine_accepts resolve produced running 2 2 port_accepts

abbrev dossier : List AcceptedRecord
dossier =
    record { kind = "lint"; verdict = "pass"; status = "accepted" }
    ∷ record { kind = "unit"; verdict = "pass"; status = "accepted" }
    ∷ []

complete :
    (sufficiency ("unit" ∷ "" ∷ "unit" ∷ "lint" ∷ []) dossier).satisfied
    ≡ (sufficiency ("unit" ∷ "" ∷ "unit" ∷ "lint" ∷ []) dossier).required
unfolding sufficiency dedupe_non_empty dedupe_loop satisfy mark
complete = refl
