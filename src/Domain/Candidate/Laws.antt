-- ===== src/Domain/Candidate/Laws.antt =====
-- What holds of a candidate over any sequence of triggers (domain/candidate.go).

use cisync.Prelude.{◌≡◌, refl, Bool, true, false, List, [], ◌∷◌, Memᴰ, String, every, string_eq}
use cisync.Domain.Machine.{Result, ok, err, next_state}
use cisync.Domain.Machine.Laws.{settle, guarded, drive, drive_needs}
use cisync.Domain.Candidate.{
  Candidate, CandidateState, candidate_state_eq, submitted, planned, validating, repairing,
  eligible, rejected, blocked_representative, terminal, candidate_transitions, conclude, apply,
}

unfoldable pub run : Candidate → List String → Candidate
run c [] = c
run c (t ∷ ts) = run (apply c t).0 ts

apply-state :
    (c : Candidate) (t : String)
    → (apply c t).0.state ≡ settle (next_state terminal candidate_transitions c.state t) c.state
unfolding apply
apply-state c t = go (next_state terminal candidate_transitions c.state t)
  where
    go : (o : Result CandidateState) → (conclude c o).0.state ≡ settle o c.state
    go (err e) = refl
    go (ok s) = refl

run-drive :
    (c : Candidate) (ts : List String)
    → (run c ts).state ≡ drive terminal candidate_transitions c.state ts
unfolding run drive
run-drive c [] = refl
run-drive c (t ∷ ts) = rw (run-drive (apply c t).0 ts, apply-state c t)

abbrev pub is_eligible : CandidateState → Bool
is_eligible eligible = true
is_eligible _ = false

-- The states behind the planning of a validation.
abbrev pub is_planned : CandidateState → Bool
is_planned planned = true
is_planned validating = true
is_planned repairing = true
is_planned eligible = true
is_planned rejected = true
is_planned blocked_representative = true
is_planned _ = false

-- The states behind the admission of a validation.
abbrev pub is_admitted : CandidateState → Bool
is_admitted validating = true
is_admitted repairing = true
is_admitted eligible = true
is_admitted _ = false

guards :
    (every (guarded is_eligible "decision.eligible") candidate_transitions ≡ true)
    × (every (guarded is_planned "validation.planned") candidate_transitions ≡ true)
    × (every (guarded is_admitted "validation.admitted") candidate_transitions ≡ true)
unfolding candidate_transitions
guards = (refl, refl, refl)

-- A submitted candidate that any sequence of triggers makes eligible has been planned, admitted
-- to validation and decided: the sequence holds all three triggers.
pub eligible_needs :
    (c : Candidate) (ts : List String)
    → c.state ≡ submitted
    → (run c ts).state ≡ eligible
    → Memᴰ "validation.planned" ts × Memᴰ "validation.admitted" ts × Memᴰ "decision.eligible" ts
eligible_needs c ts start h =
    let e : drive terminal candidate_transitions submitted ts ≡ eligible =
      rw (run-drive c ts, start) at h in
    (
      drive_needs terminal candidate_transitions is_planned "validation.planned" submitted ts
          guards.1 refl (rw e),
      drive_needs terminal candidate_transitions is_admitted "validation.admitted" submitted ts
          guards.2 refl (rw e),
      drive_needs terminal candidate_transitions is_eligible "decision.eligible" submitted ts
          guards.0 refl (rw e),
    )
