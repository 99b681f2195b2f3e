-- ===== src/Connector/Gate.antt =====
-- services/github-connector/internal/ratelimit/gate.go: a write under the hourly budget, with retries.
-- The token bucket, the calls of GitHub, the context and the random numbers are what an `Attempts`
-- answers.
pub mod Laws
use cisync.Prelude.{
  ℕ, zero, suc, ◌+◌, ◌*◌, ◌^◌, ◌/◌, ◌%◌, Bool, not, ◌||◌, ◌&&◌, Option, none, some, if◌then◌else◌,
  is_some, ◌==◌, nat_eq,
}
use cisync.Prelude.Int.{ℤ, pos, lt_int, eq_int}

-- An error of Go, as far as `errors.As` and `==` tell them apart here: the secondary rate limit with
-- its `RetryAfter`, the primary one, a response with its status and what `strconv.Atoi` reads in its
-- trimmed `Retry-After` header, the error of the context, `ErrBudgetExhausted`, and any other.
pub data GoError : Type 0 where
  abuse : Option ℤ → GoError
  primary_limit : GoError
  response : ℤ → Option ℤ → GoError
  context_over budget_exhausted other : GoError

pub record Attempts : Type 0 where
  pub acquires : Bool
  pub calls : ℕ → Option GoError
  pub over : ℕ → Bool
  pub random : ℕ → ℕ

abbrev pub backoff_base : ℕ
backoff_base = 500_000_000

-- `rng.Int63n` is a number below its argument.
unfoldable pub jittered_backoff : ℕ → ℕ → ℕ
jittered_backoff attempt r = let backoff = backoff_base * 2 ^ attempt in backoff + r % (backoff / 2)

unfoldable pub retry_after_header : Option ℤ → Option ℤ
retry_after_header none = none
retry_after_header (some (ℤ.negsuc n)) = none
retry_after_header (some (pos secs)) = some (pos (secs * 1_000_000_000))

-- The wait before the next attempt; `none` is an error that is not retried.
unfoldable pub backoff_for : GoError → ℕ → ℕ → Option ℤ
unfolding jittered_backoff retry_after_header
backoff_for (abuse wait) attempt r = wait
backoff_for primary_limit attempt r = some (pos (jittered_backoff attempt r))
backoff_for (response code header) attempt r =
    if eq_int code (pos 429) && is_some (retry_after_header header)
    then retry_after_header header
    else if not (lt_int code (pos 500))
    then some (pos (jittered_backoff attempt r))
    else none
backoff_for context_over attempt r = none
backoff_for budget_exhausted attempt r = none
backoff_for other attempt r = none

-- The test behind a call that failed.
abbrev pub is_last : Attempts → ℕ → ℕ → GoError → Bool
is_last x rounds attempt e =
    not (is_some (backoff_for e attempt (x.random attempt))) || (rounds == zero)

-- The rest of a round behind the call, `rest` being the further rounds.
unfoldable pub after_call : Attempts → ℕ → ℕ → Option GoError → Option GoError → Option GoError
unfolding backoff_for
after_call x rounds attempt none rest = none
after_call x rounds attempt (some last_err) rest =
    if is_last x rounds attempt last_err then some last_err else rest

-- The loop of `Do`, `rounds` attempts before its end. The error is nil after no attempt.
unfoldable pub do_loop : Attempts → ℕ → ℕ → Option GoError
unfolding after_call
do_loop x zero attempt = none
do_loop x (suc rounds) attempt =
    let rest = do_loop x rounds (attempt + 1) in
    if x.over attempt then some context_over else after_call x rounds attempt (x.calls attempt) rest

-- `Do` with the three attempts of `NewGate`; `none` is nil.
unfoldable pub gate_do : Attempts → Option GoError
unfolding do_loop
gate_do x = if not x.acquires then some budget_exhausted else do_loop x 3 0
