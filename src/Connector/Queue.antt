-- ===== src/Connector/Queue.antt =====
-- services/github-connector/internal/queue: the memory store of pending writes (pending.go) and the
-- drainer (drainer.go). `name` is the id `"pw_" + time + "_" + seq` of the clock and the number.
pub mod Order
pub mod Laws
pub mod Keys
pub mod Backoff
use cisync.Prelude.{
  ℕ, suc, ◌+◌, ◌*◌, ◌^◌, ◌%◌, String, Bool, not, ◌||◌, Option, none, some, List, [], ◌∷◌, ◌++◌,
  if◌then◌else◌, ltb, leb, ◌==◌, string_eq, nat_eq, length, true, false,
}
use cisync.Prelude.Int.{ℤ, pos, lt_int}
use cisync.Prelude.Maps.{lookup, insert, delete}
use cisync.Connector.Gate.{Attempts, GoError, gate_do}

pub record Annotation : Type 0 where
  pub path : String
  pub start_line : ℤ
  pub end_line : ℤ
  pub message : String
  pub title : String

pub record CheckPayload : Type 0 where
  pub name : String
  pub head_sha : String
  pub status : String
  pub conclusion : String
  pub details_url : String
  pub external_id : String
  pub summary : String
  pub annotations : List Annotation
  pub completed_at : Option ℕ

pub data Op : Type 0 where
  create_check update_check : Op

-- Times are nanoseconds, `none` the zero time.
pub record PendingWrite : Type 0 where
  pub id : String
  pub key : String
  pub installation_id : ℤ
  pub repo : String
  pub op : Op
  pub check_run_id : ℤ
  pub payload : CheckPayload
  pub created_at : Option ℕ
  pub next_attempt_at : Option ℕ
  pub attempts : ℕ

pub record MemoryStore : Type 0 where
  pub writes : List (String × PendingWrite)
  pub order : List String
  pub seq : ℕ

abbrev pub new_memory_store : MemoryStore
new_memory_store = record { writes = []; order = []; seq = 0 }

-- The test `w.Key == key` on `m.writes[id]`; a missing entry has the empty key.
abbrev pub has_key : String → Option PendingWrite → Bool
has_key key none = "" == key
has_key key (some w) = w.key == key

-- Whether `byKeyLocked` finds a write.
unfoldable pub by_key : String → List (String × PendingWrite) → List String → Bool
by_key key writes [] = false
by_key key writes (id ∷ order) = has_key key (lookup id writes) || by_key key writes order

abbrev or_now : ℕ → Option ℕ → Option ℕ
or_now now none = some now
or_now now (some t) = some t

abbrev or_created : Option ℕ → Option ℕ → Option ℕ
or_created created none = created
or_created created (some t) = some t

-- The write as `Enqueue` stores it.
unfoldable pub filled : String → ℕ → PendingWrite → PendingWrite
filled fresh now w =
    let created = or_now now w.created_at in
    record w {
      id = if w.id == "" then fresh else w.id;
      created_at = created;
      next_attempt_at = or_created created w.next_attempt_at;
    }

unfoldable pub store_write : PendingWrite → MemoryStore → MemoryStore
store_write w m = record {
  writes = insert w.id w m.writes;
  order = m.order ++ (w.id ∷ []);
  seq = suc m.seq;
}

unfoldable pub enqueue : (ℕ → ℕ → String) → ℕ → PendingWrite → MemoryStore → MemoryStore
unfolding by_key filled store_write
enqueue name now w m =
    if by_key w.key m.writes m.order then m else store_write (filled (name now (suc m.seq)) now w) m

abbrev pub is_due : ℕ → PendingWrite → Bool
is_due now w = elim w.next_attempt_at [ none ↦ true | some t ↦ leb t now ]

-- The loop of `Due`; `found` counts the writes that it has. A missing entry has the zero time, but no
-- id of the order is missing in the map.
unfoldable pub due_loop : ℕ → ℕ → ℕ → List (String × PendingWrite) → List String → List PendingWrite
due_loop now limit found writes [] = []
due_loop now limit found writes (id ∷ order) =
    let more = due_loop now limit (suc found) writes order in
    let rest = due_loop now limit found writes order in
    if found == limit
    then []
    else elim (lookup id writes) [ none ↦ rest | some w ↦ if is_due now w then w ∷ more else rest ]

unfoldable pub due : ℕ → ℕ → MemoryStore → List PendingWrite
unfolding due_loop
due now limit m = due_loop now limit 0 m.writes m.order

-- The loop of `MarkDelivered`, which removes the first element that is the id.
unfoldable pub remove_first : String → List String → List String
remove_first id [] = []
remove_first id (existing ∷ order) =
    let rest = remove_first id order in if existing == id then order else existing ∷ rest

unfoldable pub mark_delivered : String → MemoryStore → MemoryStore
unfolding remove_first
mark_delivered id m = record m { writes = delete id m.writes; order = remove_first id m.order }

abbrev pub put_off : ℕ → ℕ → PendingWrite → PendingWrite
put_off next attempts w = record w { next_attempt_at = some next; attempts = attempts }

unfoldable pub reschedule : String → ℕ → ℕ → MemoryStore → MemoryStore
reschedule id next attempts m = elim (lookup id m.writes) [
  | none ↦ m
  | some w ↦ record m { writes = insert id (put_off next attempts w) m.writes }
]

unfoldable pub depth : MemoryStore → ℕ
depth m = length m.writes

abbrev pub backoff_cap : ℕ
backoff_cap = 900_000_000_000

-- `backoffBase << attempt` on int64, as its bits.
abbrev pub shifted : ℕ → ℕ
shifted attempt = (2_000_000_000 * 2 ^ attempt) % 2 ^ 64

unfoldable pub backoff_for_attempt : ℕ → ℕ
backoff_for_attempt attempt =
    let backoff = shifted attempt in
    if leb (2 ^ 63) backoff || (ltb backoff_cap backoff || (backoff == 0))
    then backoff_cap
    else backoff

-- What the gate, the budget and the clock answer while one write is delivered.
pub record World : Type 0 where
  pub gate : Attempts
  pub retry_in : ℤ
  pub now : ℕ

-- The wait on an exhausted budget: a minute where `RetryIn` answers none.
unfoldable pub wait_for : ℤ → ℕ
wait_for (pos n) = if n == 0 then 60_000_000_000 else n
wait_for (ℤ.negsuc n) = 60_000_000_000

-- The switch of `deliverOne` on the gate's error.
unfoldable pub settle : World → PendingWrite → Option GoError → MemoryStore → MemoryStore
unfolding mark_delivered reschedule backoff_for_attempt wait_for
settle x w none m = mark_delivered w.id m
settle x w (some GoError.budget_exhausted) m =
    reschedule w.id (x.now + wait_for x.retry_in) w.attempts m
settle x w (some _) m =
    reschedule w.id (x.now + backoff_for_attempt (w.attempts + 1)) (w.attempts + 1) m

unfoldable pub deliver_one : World → PendingWrite → MemoryStore → MemoryStore
unfolding settle gate_do
deliver_one x w m = settle x w (gate_do x.gate) m

unfoldable pub deliver_all : (String → World) → List PendingWrite → MemoryStore → MemoryStore
unfolding deliver_one
deliver_all worlds [] m = m
deliver_all worlds (w ∷ ws) m = deliver_all worlds ws (deliver_one (worlds w.id) w m)

-- One pass at `now`, over 25 due writes at most.
unfoldable pub tick : (String → World) → ℕ → MemoryStore → MemoryStore
unfolding deliver_all due
tick worlds now m = deliver_all worlds (due now 25 m) m
