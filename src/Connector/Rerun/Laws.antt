-- ===== src/Connector/Rerun/Laws.antt =====
-- Sequences of requests under `Budget` (rerun/budget.go).
use cisync.Prelude.{ℕ, ◌≤◌, ◌<◌, ◌/◌, ◌≡◌, nat_eq, String, Bool, List, [], ◌∷◌, string_eq}
use cisync.Prelude.Int.{ℤ, pos_part}
use cisync.Prelude.Maps.{count_at}
use cisync.Connector.Rerun.{Time, hour, HourKey, hour_key, hour_key_eq, Budget, replan}

-- A request: the candidate, the installation, the two readings of the clock, and whether the control
-- plane accepts it.
pub record Request : Type 0 where
  pub candidate : String
  pub installation : ℤ
  pub now : Time
  pub stamp : Time
  pub accepted : Bool

unfoldable pub run : Budget → List Request → Budget
run b [] = b
run b (r ∷ rs) = run (replan b r.candidate r.installation r.now r.stamp r.accepted) rs

-- The clock does not go back, from `t` on.
abbrev pub Rises : Time → List Request → Type 0
Rises t [] = Unit
Rises t (r ∷ rs) = (t ≤ r.now) × (r.now ≤ r.stamp) × Rises r.stamp rs

-- No candidate's count passes its cap.
abbrev IsCapped : Budget → Type 0
IsCapped b = (c : String) → count_at c b.per_candidate ≤ pos_part b.max_per_candidate

-- No hour's count passes its cap, and none is in an hour after that of `t`.
record IsWithin (t : Time) (b : Budget) : Type 0 where
  hours : (k : HourKey) → count_at k b.hourly ≤ pos_part b.rate_per_hour
  ahead : (i : ℤ) (h : ℕ) → t / hour < h → count_at (hour_key i h) b.hourly ≡ 0

abbrev SameLimits : Budget → Budget → Type 0
SameLimits b c = (c.max_per_candidate ≡ b.max_per_candidate) × (c.rate_per_hour ≡ b.rate_per_hour)
