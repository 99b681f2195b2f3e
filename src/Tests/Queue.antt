-- ===== src/Tests/Queue.antt =====
-- Runs of the connector's queue of pending writes on small data, and the witnesses of its theorems.
use Prim.Native.String.{◌∷◌ as ◌∷ₛ◌}
use cisync.Prelude.{
  ℕ, zero, suc, ◌≡◌, refl, ap, String, true, false, none, some, [], ◌∷◌, ◌<◌, map, sym, ◌↔◌, ◌∙◌,
  length, ◌≢◌,
}
use cisync.Prelude.Int.{pos}
use cisync.Policy.Glob.{bytes}
use cisync.Connector.Gate.{Attempts, gate_do, other, response, abuse, backoff_for}
use cisync.Connector.Gate.Laws.{gate_do_iff, GoesOn, Succeeds}
use cisync.Connector.Queue.{
  PendingWrite, CheckPayload, MemoryStore, World, create_check, new_memory_store, enqueue, by_key,
  filled, tick, backoff_for_attempt, due,
}
use cisync.Connector.Queue.Laws.{push, pass, run, never_dropped, Waits}
use cisync.Connector.Queue.Backoff.{backoff_capped}

abbrev payload : CheckPayload
payload = record {
  name = "cisync";
  head_sha = "abc";
  status = "completed";
  conclusion = "success";
  details_url = "/candidates/c1";
  external_id = "c1";
  summary = "";
  annotations = [];
  completed_at = none;
}

abbrev write : PendingWrite
write = record {
  id = "";
  key = "c1:completed";
  installation_id = pos 7;
  repo = "acme/shop";
  op = create_check;
  check_run_id = pos 0;
  payload = payload;
  created_at = none;
  next_attempt_at = none;
  attempts = 0;
}

-- One `x` for each number stands for the decimal digits.
abbrev tally : ℕ → String
tally zero = ""
tally (suc n) = "x" ∷ₛ tally n

length-tally : (n : ℕ) → length (bytes (tally n)) ≡ n
length-tally zero = refl
length-tally (suc n) = ap suc (length-tally n)

tally_apart : (n k : ℕ) → tally n ≡ tally k → n ≡ k
tally_apart n k e = sym (length-tally n) ∙ ap (λ s. length (bytes s)) e ∙ length-tally k

abbrev name : ℕ → ℕ → String
name now n = tally n

abbrev broken : Attempts
broken = record { acquires = true; calls = λ k. some other; over = λ k. false; random = λ k. 0 }

abbrev flaky : Attempts
flaky = record {
  acquires = true;
  calls = λ k. elim k [ zero ↦ some (response (pos 503) none) | suc j ↦ none ];
  over = λ k. false;
  random = λ k. 0;
}

abbrev world : Attempts → String → World
world gate id = record { gate = gate; retry_in = pos 0; now = 10 }

abbrev queued : MemoryStore
queued = enqueue name 5 write new_memory_store

again_nothing : (enqueue name 6 write queued).order ≡ "x" ∷ []
unfolding enqueue
again_nothing = refl

retried : gate_do flaky ≡ none
unfolding gate_do
retried = refl

delivered : (tick (world flaky) 9 queued).order ≡ []
unfolding tick enqueue
delivered = refl

put_off_once :
    map (λ (w : PendingWrite). w.attempts) (due 4_000_000_010 25 (tick (world broken) 9 queued))
    ≡ 1 ∷ []
unfolding tick enqueue due
put_off_once = refl

-- A secondary limit that names no wait is not retried; one that does is.
unnamed_wait : backoff_for (abuse none) 0 7 ≡ none
unfolding backoff_for
unnamed_wait = refl

gate_do_iff_example : (gate_do flaky ≡ none) ↔ (
    (flaky.acquires ≡ true)
    × ((k : ℕ) × (k < 3) × Succeeds flaky k × ((j : ℕ) → j < k → GoesOn flaky j)))
gate_do_iff_example = gate_do_iff flaky

new_key : by_key write.key [] [] ≡ false
unfolding by_key
new_key = refl

never_sent : gate_do broken ≢ none
unfolding gate_do
never_sent e = absurd (cc)

never_dropped_example :
    Waits
      (name 5 1)
      (filled (name 5 1) 5 write)
      (run name queued (pass (world broken) 9 ∷ push 12 write ∷ []))
never_dropped_example =
    never_dropped name (λ now later n k e. tally_apart n k e) 5 write new_memory_store
      (pass (world broken) 9 ∷ push 12 write ∷ []) refl new_key (never_sent, (refl, tt))

backoff_capped_example : backoff_for_attempt 40 ≡ 900_000_000_000
backoff_capped_example = backoff_capped 40
