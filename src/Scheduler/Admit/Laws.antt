-- ===== src/Scheduler/Admit/Laws.antt =====
-- What a batch draws from the budgets and the caps (scheduler/admit.go).
use cisync.Prelude.{ℕ, ◌+◌, ◌≤◌, ◌≡◌, String, some, List, string_eq, if◌then◌else◌, ltb, ◌⊎◌}
use cisync.Prelude.Int.{ℤ, pos, pos_part, neg_part, int_eq, ◌≤ℤ◌}
use cisync.Prelude.Maps.{lookup, count_at, add_at}
use cisync.Scheduler.Admit.{Caps, WipSnapshot, BudgetLedger, State, remaining}

-- What has been drawn and what is left are what there was, and no more is drawn than there was.
record Balanced (there now : ℤ) (drawn : ℕ) : Type 0 where
  conserved : pos_part now + neg_part there + drawn ≡ pos_part there + neg_part now
  covered : drawn ≤ pos_part there

-- The tier's count is what was in flight and what was added, within the tier's cap.
abbrev pub WithinCap : Caps → ℤ → ℕ → ℕ → Type 0
WithinCap caps tier in_flight added =
    (added ≡ 0) ⊎ ((cap : ℤ) × (lookup tier caps ≡ some cap) × (pos (in_flight + added) ≤ℤ cap))

module _ (caps : Caps) (wip : WipSnapshot) (budgets : BudgetLedger) where
  record Within (s : State) : Type 0 where
    cpu :
        (t : String)
        → Balanced
            (remaining t budgets.tenant_cpu_remaining)
            (remaining t s.cpu)
            (count_at t s.res.deltas.cpu_minutes_by_tenant)
    conc :
        (t : String)
        → Balanced
            (remaining t budgets.tenant_concurrent_remaining)
            (remaining t s.conc)
            (count_at t s.res.deltas.concurrent_by_tenant)
    counted :
        (tier : ℤ)
        → count_at tier s.wip ≡ count_at tier wip + count_at tier s.res.deltas.wip_added_by_tier
    capped :
        (tier : ℤ)
        → WithinCap caps tier (count_at tier wip) (count_at tier s.res.deltas.wip_added_by_tier)

abbrev added_if : String → ℕ → List (String × ℕ) → List (String × ℕ)
added_if tenant need m = if ltb 0 need then add_at tenant need m else m
