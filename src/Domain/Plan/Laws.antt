-- ===== src/Domain/Plan/Laws.antt =====
-- The way of a validation plan from an invalidation to its satisfaction (domain/validation_plan.go).
use cisync.Prelude.{◌≡◌, refl, Bool, true, false, List, [], ◌∷◌, Memᴰ, String, every, string_eq}
use cisync.Domain.Machine.{Result, ok, err, next_state}
use cisync.Domain.Machine.Laws.{settle, guarded, drive, drive_needs}
use cisync.Domain.Plan.{
  ValidationPlan, PlanState, plan_state_eq, active, satisfied, invalidated, terminal,
  plan_transitions, conclude, apply,
}

unfoldable pub run : ValidationPlan → List String → ValidationPlan
run p [] = p
run p (t ∷ ts) = run (apply p t).0 ts

apply-state :
    (p : ValidationPlan) (t : String)
    → (apply p t).0.state ≡ settle (next_state terminal plan_transitions p.state t) p.state
unfolding apply
apply-state p t = go (next_state terminal plan_transitions p.state t)
  where
    go : (o : Result PlanState) → (conclude p o).0.state ≡ settle o p.state
    go (err e) = refl
    go (ok s) = refl

run-drive :
    (p : ValidationPlan) (ts : List String)
    → (run p ts).state ≡ drive terminal plan_transitions p.state ts
unfolding run drive
run-drive p [] = refl
run-drive p (t ∷ ts) = rw (run-drive (apply p t).0 ts, apply-state p t)

abbrev is_usable : PlanState → Bool
is_usable active = true
is_usable satisfied = true
is_usable _ = false

usable_guarded : every (guarded is_usable "plan.rebuilt") plan_transitions ≡ true
unfolding plan_transitions
usable_guarded = refl

-- An invalidated plan is satisfied only after it has been rebuilt.
pub satisfied_needs_rebuild :
    (p : ValidationPlan) (ts : List String)
    → p.state ≡ invalidated
    → (run p ts).state ≡ satisfied
    → Memᴰ "plan.rebuilt" ts
satisfied_needs_rebuild p ts start h =
    let e : drive terminal plan_transitions invalidated ts ≡ satisfied =
      rw (run-drive p ts, start) at h in
    drive_needs terminal plan_transitions is_usable "plan.rebuilt" invalidated ts usable_guarded
      refl (rw e)
