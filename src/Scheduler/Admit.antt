-- ===== src/Scheduler/Admit.antt =====
-- services/control-plane/internal/scheduler/admit.go: the admission of a batch under the caps and
-- the budgets.
pub mod Laws
use cisync.Prelude.{
  ℕ, ◌+◌, ◌/◌, String, Bool, true, false, not, Option, none, some, List, [], ◌∷◌, ◌++◌, ◌==◌, Eq,
  string_eq, if◌then◌else◌, ltb, contains,
}
use cisync.Prelude.Int.{ℤ, pos, pos_part, ◌-ℤ◌, lt_int, int_eq}
use cisync.Prelude.Maps.{lookup, insert, count_at, add_at}
use cisync.Scheduler.Ordering.{Run, RankedRun, sort_ranked}

pub data DenyReason : Type 0 where
  no_reason wip_cap tenant_cpu tenant_conc : DenyReason

-- Caps by tier; a snapshot of counts by tier; what remains of the budgets by tenant.
abbrev pub Caps : Type 0
Caps = List (ℤ × ℤ)

abbrev pub WipSnapshot : Type 0
WipSnapshot = List (ℤ × ℕ)

pub record BudgetLedger : Type 0 where
  pub tenant_cpu_remaining : List (String × ℤ)
  pub tenant_concurrent_remaining : List (String × ℤ)

pub record Admission : Type 0 where
  pub run_id : String
  pub candidate_id : String
  pub admitted : Bool
  pub deny_reason : DenyReason
  pub reserved_cpu : ℕ
  pub reserved_concurrent : ℕ

-- A nil map is the empty one.
pub record Deltas : Type 0 where
  pub cpu_minutes_by_tenant : List (String × ℕ)
  pub concurrent_by_tenant : List (String × ℕ)
  pub wip_added_by_tier : List (ℤ × ℕ)

pub record BatchResult : Type 0 where
  pub admissions : List Admission
  pub deltas : Deltas
  pub admitted_count : ℕ

-- `m[k]` of a map of remaining budgets.
abbrev pub remaining : String → List (String × ℤ) → ℤ
remaining k m = elim (lookup k m) [ none ↦ pos 0 | some n ↦ n ]

-- The set of candidates that the batch has seen for a tenant.
abbrev pub seen_at : String → List (String × List String) → List String
seen_at k m = elim (lookup k m) [ none ↦ [] | some s ↦ s ]

unfoldable pub cpu_minutes : ℤ → ℕ
cpu_minutes est_ms = if lt_int (pos 0) est_ms then (pos_part est_ms + 59999) / 60000 else 0

unfoldable pub record_delta : Deltas → String → ℤ → ℕ → ℕ → Deltas
record_delta d tenant tier cpu_need conc_need = record {
  cpu_minutes_by_tenant =
      if ltb 0 cpu_need
      then add_at tenant cpu_need d.cpu_minutes_by_tenant
      else d.cpu_minutes_by_tenant;
  concurrent_by_tenant =
      if ltb 0 conc_need
      then add_at tenant conc_need d.concurrent_by_tenant
      else d.concurrent_by_tenant;
  wip_added_by_tier = add_at tier 1 d.wip_added_by_tier;
}

-- The variables of the loop.
pub record State : Type 0 where
  pub wip : WipSnapshot
  pub cpu : List (String × ℤ)
  pub conc : List (String × ℤ)
  pub seen : List (String × List String)
  pub res : BatchResult

abbrev pub log : BatchResult → Admission → BatchResult
log res a = record res { admissions = res.admissions ++ a ∷ [] }

unfoldable pub deny : State → Run → DenyReason → State
deny s run reason = record s {
  res = log s.res (record {
    run_id = run.id;
    candidate_id = run.candidate_id;
    admitted = false;
    deny_reason = reason;
    reserved_cpu = 0;
    reserved_concurrent = 0;
  });
}

unfoldable pub reserve : State → Run → ℕ → ℕ → State
unfolding record_delta
reserve s run need conc_need = record {
  wip = add_at run.tier 1 s.wip;
  cpu = insert run.tenant_id (remaining run.tenant_id s.cpu -ℤ pos need) s.cpu;
  conc = insert run.tenant_id (remaining run.tenant_id s.conc -ℤ pos conc_need) s.conc;
  seen = insert run.tenant_id (run.candidate_id ∷ seen_at run.tenant_id s.seen) s.seen;
  res =
      record (log s.res (record {
        run_id = run.id;
        candidate_id = run.candidate_id;
        admitted = true;
        deny_reason = no_reason;
        reserved_cpu = need;
        reserved_concurrent = conc_need;
      })) {
        deltas = record_delta s.res.deltas run.tenant_id run.tier need conc_need;
        admitted_count = s.res.admitted_count + 1;
      };
}

-- The `default` case of the `switch`.
unfoldable pub draw : State → Run → ℕ → ℕ → State
unfolding deny reserve
draw s run need conc_need =
    if lt_int (remaining run.tenant_id s.cpu) (pos need)
    then deny s run tenant_cpu
    else if lt_int (remaining run.tenant_id s.conc) (pos conc_need)
    then deny s run tenant_conc
    else reserve s run need conc_need

abbrev pub conc_need_of : State → Run → ℕ
conc_need_of s run = if contains (seen_at run.tenant_id s.seen) run.candidate_id then 0 else 1

unfoldable pub admit_run : Caps → State → Run → State
unfolding cpu_minutes draw
admit_run caps s run = elim (lookup run.tier caps) [
  | none ↦ deny s run wip_cap
  | some cap ↦
      if lt_int cap (pos (count_at run.tier s.wip + 1))
      then deny s run wip_cap
      else draw s run (cpu_minutes run.est_duration_ms) (conc_need_of s run)
]

unfoldable pub admit_loop : Caps → State → List RankedRun → State
unfolding admit_run
admit_loop caps s [] = s
admit_loop caps s (r ∷ rs) = admit_loop caps (admit_run caps s r.run) rs

abbrev pub start : WipSnapshot → BudgetLedger → State
start wip budgets = record {
  wip = wip;
  cpu = budgets.tenant_cpu_remaining;
  conc = budgets.tenant_concurrent_remaining;
  seen = [];
  res = record {
    admissions = [];
    deltas = record {
      cpu_minutes_by_tenant = [];
      concurrent_by_tenant = [];
      wip_added_by_tier = [];
    };
    admitted_count = 0;
  };
}

unfoldable pub admit : List RankedRun → Caps → WipSnapshot → BudgetLedger → BatchResult
unfolding admit_loop
admit batch caps wip budgets = (admit_loop caps (start wip budgets) (sort_ranked batch)).res
