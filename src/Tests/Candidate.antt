-- ===== src/Tests/Candidate.antt =====
-- A candidate that becomes eligible (domain/candidate.go).

use cisync.Prelude.{◌≡◌, refl, String, none, List, [], ◌∷◌}
use cisync.Prelude.Int.{pos}
use cisync.Domain.Machine.{ok, next_state, try_rule, matches_state}
use cisync.Domain.Candidate.{
  Candidate, submitted, eligible, new_candidate, apply, terminal, candidate_transitions, conclude,
}
use cisync.Domain.Candidate.Laws.{run}

abbrev head : String
head = "aaaaaaaaaaaaaaaaaaaaaaaaaaaaaaaaaaaaaaaa"

abbrev base : String
base = "bbbbbbbbbbbbbbbbbbbbbbbbbbbbbbbbbbbbbbbb"

abbrev candidate : Candidate
candidate = record {
  id = "c";
  tenant_id = "t";
  intent_id = "i";
  state = submitted;
  submitter = "agent";
  patch_ref = "p";
  head_sha = head;
  base_sha = base;
  changed_paths = [];
  est_cost_millicents = pos 0;
  priority_score = 0;
  cluster_id = "";
  relation_to_rep = none;
  repo = "";
  pr_number = 0;
  rerun_count = 0;
  created_at = 7;
}

built : new_candidate "c" "t" "i" "agent" "p" head base [] (pos 0) 7 ≡ ok candidate
unfolding new_candidate
built = refl

abbrev way : List String
way = "validation.planned" ∷ "decision.eligible" ∷ "validation.admitted" ∷ "decision.eligible" ∷ []

becomes_eligible : (run candidate way).state ≡ eligible
unfolding run apply next_state try_rule matches_state terminal candidate_transitions conclude
becomes_eligible = refl
