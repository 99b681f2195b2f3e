-- ===== src/Domain/Common.antt =====
-- Values that the aggregates share: times, stored floats, budgets and policy references.
use cisync.Prelude.{ℕ, String}
use cisync.Prelude.Int.{ℤ}

-- `time.Time`: nanoseconds since the epoch of the clock; `time.Now()` is an argument of the operation.
abbrev pub Time : Type 0
Time = ℕ

-- A `float64` that is only stored and copied: its bit pattern.
abbrev pub FloatBits : Type 0
FloatBits = ℕ

pub record BudgetValues : Type 0 where
  pub cpu_minutes : ℤ
  pub environment_minutes : ℤ
  pub repair_attempts : ℤ

pub record PolicyRef : Type 0 where
  pub policy_id : String
  pub version : ℤ
