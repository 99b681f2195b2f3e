-- ===== src/Tests/Batch.antt =====
-- A batch of three runs under a cap of two (control-plane/internal/scheduler/admit.go).
use cisync.Prelude.{◌≡◌, refl, String, List, [], ◌∷◌, string_eq}
use cisync.Prelude.Int.{ℤ, pos, int_eq}
use cisync.Prelude.Sort.{place, sort_by}
use cisync.Scheduler.Ordering.{RankedRun, less_ranked}
use cisync.Scheduler.Admit.{
  Caps, WipSnapshot, BudgetLedger, cpu_minutes, record_delta, deny, reserve, draw, admit_run,
  admit_loop, admit,
}

abbrev ranked : String → ℤ → RankedRun
ranked id priority = record {
  run = record {
    id = id;
    candidate_id = id;
    tenant_id = "t";
    pool = "linux";
    tier = pos 0;
    job_kind = "unit";
    est_duration_ms = pos 90000;
    est_cost_millicents = pos 0;
    created_seq = pos 1;
    created_ulid = id;
  };
  effective_priority = priority;
}

abbrev batch : List RankedRun
batch = ranked "a" (pos 1) ∷ ranked "b" (pos 9) ∷ ranked "c" (pos 5) ∷ []

abbrev caps : Caps
caps = (pos 0, pos 3) ∷ []

abbrev in_flight : WipSnapshot
in_flight = (pos 0, 1) ∷ []

abbrev budgets : BudgetLedger
budgets = record {
  tenant_cpu_remaining = ("t", pos 10) ∷ [];
  tenant_concurrent_remaining = ("t", pos 5) ∷ [];
}

two_admitted : (admit batch caps in_flight budgets).admitted_count ≡ 2
unfolding admit admit_loop admit_run draw deny reserve record_delta cpu_minutes sort_by place
    less_ranked
two_admitted = refl
