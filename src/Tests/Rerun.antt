-- ===== src/Tests/Rerun.antt =====
-- Two re-runs under a cap of one, and a key that comes back (github-connector/internal/rerun).
use cisync.Prelude.{◌+◌, ◌≡◌, refl, ℕ, true, false, List, [], ◌∷◌, arith, string_eq}
use cisync.Prelude.Int.{pos}
use cisync.Prelude.Maps.{count_at}
use cisync.Connector.Rerun.{
  hour_key_eq, new_budget, replan, allow, record_rerun, new_dedupe, prune, first_seen,
}
use cisync.Connector.Rerun.Laws.{Request, run}
use cisync.Connector.Rerun.Once.{Call, run as run_calls, new_once}

abbrev request : ℕ → Request
request now = record {
  candidate = "c";
  installation = pos 0;
  now = now;
  stamp = now + 5;
  accepted = true;
}

abbrev requests : List Request
requests = request 10 ∷ request 20 ∷ []

spent : count_at "c" (run (new_budget (pos 1) (pos 5)) requests).per_candidate ≡ 1
unfolding run replan allow record_rerun new_budget
spent = refl

is_new : (first_seen (new_dedupe 100) "k" 10 11).1 ≡ true
unfolding first_seen new_dedupe prune
is_new = refl

abbrev other : Call
other = record { key = "j"; now = 50; stamp = 51 }

new_once_example :
    (first_seen (run_calls (first_seen (new_dedupe 100) "k" 10 11).0 (other ∷ [])) "k" 111 112).1
    ≡ false
unfolding new_dedupe
new_once_example =
    new_once (new_dedupe 100) "k" 10 11 (other ∷ []) 111 112 is_new (omega arith, tt) (omega arith)
