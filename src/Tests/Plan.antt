-- ===== src/Tests/Plan.antt =====
-- A plan that is invalidated, rebuilt and satisfied (domain/validation_plan.go).
use cisync.Prelude.{◌≡◌, refl, String, List, [], ◌∷◌}
use cisync.Prelude.Int.{pos}
use cisync.Domain.Machine.{next_state, try_rule, matches_state}
use cisync.Domain.Plan.{
  ValidationPlan, invalidated, satisfied, new_validation_plan, apply, terminal, plan_transitions,
  conclude,
}
use cisync.Domain.Plan.Laws.{run}

abbrev stale : ValidationPlan
stale =
    record (new_validation_plan "p" "t" "c" [] [] (record { policy_id = "p"; version = pos 1 }) "h"
      5) { state = invalidated }

abbrev way : List String
way = "plan.satisfied" ∷ "plan.rebuilt" ∷ "plan.satisfied" ∷ []

becomes_satisfied : (run stale way).state ≡ satisfied
unfolding run apply next_state try_rule matches_state terminal plan_transitions conclude
becomes_satisfied = refl
