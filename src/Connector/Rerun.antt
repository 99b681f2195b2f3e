-- ===== src/Connector/Rerun.antt =====
-- services/github-connector/internal/rerun/budget.go and the way that internal/api/flow_rerun.go
-- uses it. The readings of the clock are arguments; each operation runs under its mutex.
pub mod Laws
pub mod Once
use mathlib.Core.Path.{ap₂}
use cisync.Prelude.{
  arith, ap, ℕ, ◌+◌, ◌/◌, String, Bool, true, false, not, Option, none, some, List, [], ◌∷◌, ◌==◌,
  Eq, string_eq, nat_eq, nat_beq_iff, ◌≡◌, ◌↔◌, ◌&&◌, if◌then◌else◌, ltb, leb, contains,
}
use cisync.Prelude.Int.{ℤ, pos, negsuc, lt_int, eq_int, eq_int_iff}
use cisync.Prelude.Maps.{lookup, insert, count_at, add_at}

abbrev pub Time : Type 0
Time = ℕ

-- 3600 seconds in nanoseconds
abbrev pub hour : ℕ
hour = 3600000000000

-- The text `%d|%d` of a bucket and an hour.
pub data HourKey : Type 0 where
  hour_key : ℤ → ℕ → HourKey

abbrev bucket_of : HourKey → ℤ
bucket_of (hour_key b h) = b

abbrev hour_of : HourKey → ℕ
hour_of (hour_key b h) = h

abbrev pub same_key : HourKey → HourKey → Bool
same_key (hour_key a h) (hour_key b i) = eq_int a b && h == i

pub same_key_iff : (x y : HourKey) → (same_key x y ≡ true) ↔ (x ≡ y)
same_key_iff (hour_key a h) (hour_key b i) = (
  λ e. ap₂ hour_key ((eq_int_iff a b).0 (ground arith)) (ground (arith, nat_beq_iff h i)),
  λ e. ground (arith, (eq_int_iff a b).1 (ap bucket_of e), ap hour_of e),
)

instance abbrev pub hour_key_eq : Eq HourKey
hour_key_eq = record { beq = same_key; beq_iff = same_key_iff }

pub record Budget : Type 0 where
  pub max_per_candidate : ℤ
  pub rate_per_hour : ℤ
  pub per_candidate : List (String × ℕ)
  pub hourly : List (HourKey × ℕ)

pub data Verdict : Type 0 where
  allowed candidate_cap hour_rate : Verdict

unfoldable pub new_budget : ℤ → ℤ → Budget
new_budget max rate = record {
  max_per_candidate = max;
  rate_per_hour = rate;
  per_candidate = [];
  hourly = [];
}

abbrev pub bucket : ℤ → ℤ
bucket installation = if eq_int installation (pos 0) then negsuc 0 else installation

abbrev pub key_at : ℤ → Time → HourKey
key_at installation now = hour_key (bucket installation) (now / hour)

unfoldable pub allow : Budget → String → ℤ → Time → Verdict
allow b candidate installation now =
    if not (lt_int (pos (count_at candidate b.per_candidate)) b.max_per_candidate)
    then candidate_cap
    else if not (lt_int (pos (count_at (key_at installation now) b.hourly)) b.rate_per_hour)
    then hour_rate
    else allowed

unfoldable pub record_rerun : Budget → String → ℤ → Time → Budget
record_rerun b candidate installation now = record b {
  per_candidate = add_at candidate 1 b.per_candidate;
  hourly = add_at (key_at installation now) 1 b.hourly;
}

-- A request that reaches the budget under the replan policy: `Allow` at `now`, then the call of the
-- control plane, of which `accepted` is the answer, then `Record`, which reads the clock again, at
-- `stamp`, with no other request between.
unfoldable pub replan : Budget → String → ℤ → Time → Time → Bool → Budget
unfolding allow record_rerun
replan b candidate installation now stamp accepted = elim (allow b candidate installation now) [
  | allowed ↦ if accepted then record_rerun b candidate installation stamp else b
  | candidate_cap ↦ b
  | hour_rate ↦ b
]

pub record Dedupe : Type 0 where
  pub seen : List (String × Time)
  pub ttl : ℕ

unfoldable pub new_dedupe : ℕ → Dedupe
new_dedupe ttl = record { seen = []; ttl = ttl }

-- The loop that deletes what is older than `now - ttl`.
unfoldable pub prune : ℕ → Time → List (String × Time) → List (String × Time)
prune ttl now [] = []
prune ttl now ((k, at) ∷ m) =
    let rest = prune ttl now m in if ltb (at + ttl) now then rest else (k, at) ∷ rest

-- `now` and `stamp` are the two readings of the clock.
unfoldable pub first_seen : Dedupe → String → Time → Time → Dedupe × Bool
unfolding prune
first_seen d key now stamp =
    let kept = prune d.ttl now d.seen in
    elim (lookup key kept) [
      | some at ↦ (record d { seen = kept }, false)
      | none ↦ (record d { seen = insert key stamp kept }, true)
    ]
