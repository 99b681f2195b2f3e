-- ===== src/Scheduler/Ordering.antt =====
-- services/control-plane/internal/scheduler/ordering.go and the run of priority.go.
use cisync.Prelude.{String, Bool, not, List, if◌then◌else◌}
use cisync.Prelude.Int.{ℤ, lt_int, eq_int}
use cisync.Prelude.Texts.{less}
use cisync.Prelude.Sort.{sort_by}

pub record Run : Type 0 where
  pub id : String
  pub candidate_id : String
  pub tenant_id : String
  pub pool : String
  pub tier : ℤ
  pub job_kind : String
  pub est_duration_ms : ℤ
  pub est_cost_millicents : ℤ
  pub created_seq : ℤ
  pub created_ulid : String

-- An effective priority is finite; it is replaced by an integer of the same order.
pub record RankedRun : Type 0 where
  pub run : Run
  pub effective_priority : ℤ

unfoldable pub less_ranked : RankedRun → RankedRun → Bool
less_ranked a b =
    if not (eq_int a.effective_priority b.effective_priority)
    then lt_int b.effective_priority a.effective_priority
    else if not (eq_int a.run.created_seq b.run.created_seq)
    then lt_int a.run.created_seq b.run.created_seq
    else less a.run.created_ulid b.run.created_ulid

abbrev pub sort_ranked : List RankedRun → List RankedRun
sort_ranked rs = sort_by less_ranked rs
