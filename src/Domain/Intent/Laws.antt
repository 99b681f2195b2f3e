-- ===== src/Domain/Intent/Laws.antt =====
-- What holds of an intent over any sequence of triggers (domain/intent.go).
use cisync.Prelude.{◌≡◌, refl, Bool, true, false, List, [], ◌∷◌, Memᴰ, String, map, is_some, every}
use cisync.Domain.Common.{Time}
use cisync.Domain.Machine.{Result, ok, err, next_state}
use cisync.Domain.Machine.Laws.{settle, guarded, next_state-rule, drive, drive_needs}
use cisync.Domain.Intent.{
  Intent, IntentState, IntentDeclared, intent_state_eq, exploring, merge_ready, deploying,
  monitoring, completed, rejected, terminal, intent_transitions, enter, conclude, apply, new_intent,
}

-- The intent after a sequence of triggers, each at its time; a refused one is ignored.
unfoldable pub run : Intent → List (String × Time) → Intent
run i [] = i
run i ((t, now) ∷ ts) = run (apply i t now).0 ts

abbrev pub triggers : List (String × Time) → List String
triggers = map (λ e. e.0)

apply-state :
    (i : Intent) (t : String) (now : Time)
    → (apply i t now).0.state ≡ settle (next_state terminal intent_transitions i.state t) i.state
unfolding apply
apply-state i t now = go (next_state terminal intent_transitions i.state t)
  where
    go : (o : Result IntentState) → (conclude i o now).0.state ≡ settle o i.state
    go (err e) = refl
    go (ok rejected) = refl
    go (ok completed) = refl
    go (ok _) = refl

run-drive :
    (i : Intent) (ts : List (String × Time))
    → (run i ts).state ≡ drive terminal intent_transitions i.state (triggers ts)
unfolding run drive
run-drive i [] = refl
run-drive i ((t, now) ∷ ts) = rw (run-drive (apply i t now).0 ts, apply-state i t now)

-- The states that only a positive decision opens.
abbrev pub is_decided : IntentState → Bool
is_decided merge_ready = true
is_decided deploying = true
is_decided monitoring = true
is_decided completed = true
is_decided _ = false

decided_guarded : every (guarded is_decided "decision.eligible") intent_transitions ≡ true
unfolding intent_transitions
decided_guarded = refl

-- An intent declared by `new_intent` that any sequence of triggers brings to merge_ready,
-- deploying, monitoring or completed has received the trigger decision.eligible on the way.
pub decided_needs_decision :
    (id tenant : String) (d : IntentDeclared) (now : Time) (ts : List (String × Time))
    → is_decided (run (new_intent id tenant d now) ts).state ≡ true
    → Memᴰ "decision.eligible" (triggers ts)
unfolding new_intent
decided_needs_decision id tenant d now ts h =
    drive_needs terminal intent_transitions is_decided "decision.eligible" exploring (triggers ts)
      decided_guarded refl (rw (run-drive (new_intent id tenant d now) ts) at h)

-- `closed_at` is set exactly in the terminal states.
abbrev pub IsClosedRight : Intent → Type 0
IsClosedRight i = is_some i.closed_at ≡ terminal i.state

enter-IsClosedRight :
    (i : Intent) (s : IntentState) (now : Time)
    → is_some i.closed_at ≡ false
    → IsClosedRight (enter i s now)
unfolding enter terminal
enter-IsClosedRight i rejected now h = refl
enter-IsClosedRight i completed now h = refl
enter-IsClosedRight i _ now h = h

apply-IsClosedRight :
    (i : Intent) (t : String) (now : Time) → IsClosedRight i → IsClosedRight (apply i t now).0
unfolding apply
apply-IsClosedRight i t now inv = go (next_state terminal intent_transitions i.state t) refl
  where
    go :
        (o : Result IntentState)
        → next_state terminal intent_transitions i.state t ≡ o
        → IsClosedRight (conclude i o now).0
    go (err e) p = inv
    go (ok s) p =
        let (r, found, m, to, live) = next_state-rule terminal intent_transitions i.state t p in
        enter-IsClosedRight i s now (rw (inv, live))

run_keeps : (i : Intent) (ts : List (String × Time)) → IsClosedRight i → IsClosedRight (run i ts)
unfolding run
run_keeps i [] inv = inv
run_keeps i ((t, now) ∷ ts) inv = run_keeps (apply i t now).0 ts (apply-IsClosedRight i t now inv)

-- Over any sequence of triggers from a declared intent, `closed_at` is set exactly when the state
-- is completed or rejected.
pub run-IsClosedRight :
    (id tenant : String) (d : IntentDeclared) (now : Time) (ts : List (String × Time))
    → IsClosedRight (run (new_intent id tenant d now) ts)
unfolding new_intent terminal
run-IsClosedRight id tenant d now ts = run_keeps (new_intent id tenant d now) ts refl
