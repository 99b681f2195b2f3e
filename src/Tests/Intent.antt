-- ===== src/Tests/Intent.antt =====
-- An intent on its way through a decision to its end (domain/intent.go).
use cisync.Prelude.{◌≡◌, refl, String, none, some, List, [], ◌∷◌, ℕ}
use cisync.Prelude.Int.{pos}
use cisync.Domain.Machine.{next_state, try_rule, matches_state}
use cisync.Domain.Intent.{
  Intent, IntentDeclared, low, cli, completed, new_intent, apply, terminal, intent_transitions,
  conclude, enter,
}
use cisync.Domain.Intent.Laws.{run}

abbrev declared : IntentDeclared
declared = record {
  goal = "faster checks";
  repo = "cisync";
  base_ref = "main";
  base_snapshot = "s";
  owned_surfaces = [];
  constraints = [];
  acceptance_criteria = [];
  risk_class = low;
  deadline = none;
  origin = cli;
  agent_lineage = [];
  resolved_policy = record { policy_id = "p"; version = pos 1 };
  compute_budget = record {
    cpu_minutes = pos 1;
    environment_minutes = pos 1;
    repair_attempts = pos 1;
  };
}

abbrev way : List (String × ℕ)
way =
    ("validation.planned", 1)
    ∷ ("deploy.authorized", 2)
    ∷ ("decision.eligible", 3)
    ∷ ("deploy.authorized", 4)
    ∷ ("deploy.executed", 5)
    ∷ ("post_merge.satisfied", 6)
    ∷ []

abbrev finished : Intent
finished = record (new_intent "i" "t" declared 0) { state = completed; closed_at = some 6 }

completes : run (new_intent "i" "t" declared 0) way ≡ finished
unfolding run apply new_intent next_state try_rule matches_state terminal intent_transitions
    conclude enter
completes = refl
