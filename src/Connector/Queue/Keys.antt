-- ===== src/Connector/Queue/Keys.antt =====
-- The keys of the pending writes (queue/pending.go): `Enqueue` is idempotent.
use cisync.Prelude.{ℕ, ◌≡◌, refl, String, string_eq, Option, some, Memᴰ}
use cisync.Prelude.Maps.{lookup}
use cisync.Connector.Queue.{PendingWrite, MemoryStore, filled}

-- Every write is listed in the order, and no key waits twice.
pub record IsValid (m : MemoryStore) : Type 0 where
  pub listed : (id : String) (w : PendingWrite) → lookup id m.writes ≡ some w → Memᴰ id m.order
  pub once :
      (i j : String) (v w : PendingWrite)
      → lookup i m.writes ≡ some v
      → lookup j m.writes ≡ some w
      → v.key ≡ w.key
      → i ≡ j

filled_key : (fresh : String) (now : ℕ) (w : PendingWrite) → (filled fresh now w).key ≡ w.key
unfolding filled
filled_key fresh now w = refl
