-- ===== src/Domain/Repair/Laws.antt =====
-- The bound on repair attempts (domain/repair_task.go).
use cisync.Prelude.{
  ◌≡◌, refl, ap, ◌∙◌, Bool, true, false, not, arith, none, some, ℕ, zero, suc, string_eq, ◌+◌, ◌≤◌,
  ◌&&◌, ◌⊎◌, inl, inr, ◌==◌, Bool-cases,
}
use cisync.Prelude.Int.{ℤ, pos, pos_part, lt_int, ◌≤ℤ◌, ◌<ℤ◌}
use cisync.Domain.Machine.{ok, err, next_state, post_terminal, illegal_transition, DomainError}
use cisync.Domain.Repair.{
  RepairTask, RepairState, repair_state_eq, authorized, dispatched, iterating, exhausted, terminal,
  repair_transitions, apply, record_attempt,
}

-- The states in which an attempt can be recorded.
abbrev pub is_open : RepairState → Bool
is_open dispatched = true
is_open iterating = true
is_open _ = false

next_iterating :
    (s : RepairState)
    → is_open s ≡ true
    → next_state terminal repair_transitions s "repair.iterating" ≡ ok iterating
unfolding next_state terminal repair_transitions
next_iterating dispatched h = refl
next_iterating iterating h = refl
next_iterating _ h = absurd (ground arith)

next_closed :
    (s : RepairState)
    → is_open s ≡ false
    → (e : DomainError) × (next_state terminal repair_transitions s "repair.iterating" ≡ err e)
unfolding next_state terminal repair_transitions
next_closed authorized h = (illegal_transition, refl)
next_closed dispatched h = absurd (ground arith)
next_closed iterating h = absurd (ground arith)
next_closed _ h = (post_terminal, refl)

apply_exhausted :
    (t : RepairTask)
    → t.state ≡ iterating
    → apply t "repair.exhausted" ≡ (record t { state = exhausted }, none)
unfolding apply next_state terminal repair_transitions
apply_exhausted t h = rw h refl

-- The task after an attempt that counts, in its next state.
abbrev pub counted : RepairTask → RepairState → RepairTask
counted t s = record t { state = s; attempts_used = t.attempts_used + 1 }

-- `RecordAttempt` on a dispatched or iterating task counts one attempt and goes on iterating while
-- the count stays below the cap; the attempt that reaches the cap exhausts the task.
pub record_attempt_counts :
    (t : RepairTask)
    → is_open t.state ≡ true
    → pos t.attempts_used <ℤ t.envelope.max_iterations
    → ((pos (t.attempts_used + 1) <ℤ t.envelope.max_iterations)
        × (record_attempt t ≡ (counted t iterating, none)))
      ⊎ ((t.envelope.max_iterations ≤ℤ pos (t.attempts_used + 1))
          × (record_attempt t ≡ (counted t exhausted, none)))
unfolding record_attempt
record_attempt_counts t o h =
    rw (next_iterating t.state o)
      (elim (Bool-cases (lt_int (pos (t.attempts_used + 1)) t.envelope.max_iterations)) [
        | inl more ↦ inl (ground arith, ground arith)
        | inr last ↦ inr (ground arith, ground (arith, apply_exhausted (counted t iterating) refl))
      ])

-- On a task that is authorized, applied, exhausted or aborted `RecordAttempt` returns an error and
-- changes nothing.
pub record_attempt_closed :
    (t : RepairTask)
    → is_open t.state ≡ false
    → (e : DomainError) × (record_attempt t ≡ (t, some e))
unfolding record_attempt
record_attempt_closed t o =
    let (e, p) = next_closed t.state o in (e, rw p (ground (arith, not_open t.state o)))
  where
    not_open :
        (s : RepairState)
        → is_open s ≡ false
        → (not (s == dispatched) && not (s == iterating)) ≡ true
    not_open dispatched h = absurd (ground arith)
    not_open iterating h = absurd (ground arith)
    not_open _ h = refl

record_attempt_spent :
    (t : RepairTask)
    → is_open t.state ≡ true
    → t.envelope.max_iterations ≤ℤ pos t.attempts_used
    → record_attempt t ≡ (record t { state = exhausted }, none)
unfolding record_attempt
record_attempt_spent t o h =
    rw (next_iterating t.state o)
      (ground (arith, apply_exhausted (record t { state = iterating }) refl))

-- `n` attempts in a row.
unfoldable pub attempts : ℕ → RepairTask → RepairTask
attempts zero t = t
attempts (suc n) t = attempts n (record_attempt t).0

-- With k + 1 iterations left, k + 1 attempts on a dispatched or iterating task use exactly those
-- and leave it exhausted.
pub attempts_exhaust :
    (k : ℕ) (t : RepairTask)
    → is_open t.state ≡ true
    → t.envelope.max_iterations ≡ pos (t.attempts_used + suc k)
    → attempts (suc k) t ≡ record t { state = exhausted; attempts_used = t.attempts_used + suc k }
unfolding attempts
attempts_exhaust zero t o m = elim (record_attempt_counts t o (rw m (omega arith))) [
  | inl (less, p) ↦ absurd (ground arith)
  | inr (full, p) ↦ rw (p, attempts) refl
]
attempts_exhaust (suc k) t o m = elim (record_attempt_counts t o (rw m (omega arith))) [
  | inl (less, p) ↦ rw p (
      attempts_exhaust k (counted t iterating) refl (rw m (ap pos (omega arith)))
      ∙ ap (λ (n : ℕ). record t { state = exhausted; attempts_used = n }) (omega arith))
  | inr (full, p) ↦ absurd (ground arith)
]

abbrev IsWithin : RepairTask → ℤ → Type 0
IsWithin t cap = (t.envelope.max_iterations ≡ cap) × (t.attempts_used ≤ pos_part cap)

record_attempt-IsWithin :
    (t : RepairTask) (cap : ℤ) → IsWithin t cap → IsWithin (record_attempt t).0 cap
record_attempt-IsWithin t cap (m, h) = elim (Bool-cases (is_open t.state)) [
  | inr shut ↦ let (e, p) = record_attempt_closed t shut in rw p (m, h)
  | inl o ↦ elim (Bool-cases (lt_int (pos t.attempts_used) t.envelope.max_iterations)) [
    | inr spent ↦ rw (record_attempt_spent t o (ground arith)) (m, h)
    | inl room ↦ elim (record_attempt_counts t o (ground arith)) [
      | inl (less, p) ↦ rw p (m, ground arith)
      | inr (full, p) ↦ rw p (m, ground arith)
    ]
  ]
]

attempts-IsWithin :
    (n : ℕ) (t : RepairTask) (cap : ℤ) → IsWithin t cap → IsWithin (attempts n t) cap
unfolding attempts
attempts-IsWithin zero t cap h = h
attempts-IsWithin (suc n) t cap h =
    attempts-IsWithin n (record_attempt t).0 cap (record_attempt-IsWithin t cap h)

-- However often `RecordAttempt` is called, the attempts counted never pass the envelope's cap
-- (zero where the cap is negative), if they did not at the start.
pub attempts-le :
    (n : ℕ) (t : RepairTask)
    → t.attempts_used ≤ pos_part t.envelope.max_iterations
    → (attempts n t).attempts_used ≤ pos_part t.envelope.max_iterations
attempts-le n t h = (attempts-IsWithin n t t.envelope.max_iterations (refl, h)).1
