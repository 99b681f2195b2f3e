-- ===== src/Ingest/Seen.antt =====
-- services/ingest/internal/seen/lru.go: the bounded, expiring window of content classes. The map
-- `items` sends a key to its list element; an element is told by its key, so the map is the list of
-- the keys that have one. Each operation runs under the cache's mutex.
pub mod Laws
pub mod Window
pub mod Replay
use cisync.Prelude.{
  ℕ, zero, suc, ◌+◌, ◌*◌, String, Bool, true, false, not, ◌&&◌, Option, none, some, List, [], ◌∷◌,
  string_eq, ◌==◌, if◌then◌else◌, ltb, leb, length, contains,
}
use cisync.Prelude.Int.{ℤ, pos, pos_part, lt_int}

abbrev pub Time : Type 0
Time = ℕ

abbrev pub default_max_entries : ℕ
default_max_entries = 100000

-- 24 hours in nanoseconds
abbrev pub default_ttl : ℕ
default_ttl = 86400000000000

pub record Entry : Type 0 where
  pub key : String
  pub stamp : Time

pub record Cache : Type 0 where
  pub max : ℕ
  pub ttl : ℕ
  pub items : List String
  pub order : List Entry
  pub evicted : ℕ

-- `n <= 0`, or the value
abbrev or_default : ℤ → ℕ → ℕ
or_default n d = if lt_int (pos 0) n then pos_part n else d

unfoldable pub new : ℤ → ℤ → Cache
new max_entries ttl = record {
  max = or_default max_entries default_max_entries;
  ttl = or_default ttl default_ttl;
  items = [];
  order = [];
  evicted = 0;
}

-- The element that `items[key]` points to.
unfoldable pub find : String → List Entry → Option Entry
find key [] = none
find key (e ∷ es) = if e.key == key then some e else find key es

-- `order.Remove(el)`
unfoldable pub remove_element : String → List Entry → List Entry
remove_element key [] = []
remove_element key (e ∷ es) = if e.key == key then es else e ∷ remove_element key es

-- `delete(items, key)`
unfoldable pub delete : String → List String → List String
delete key [] = []
delete key (k ∷ ks) = let rest = delete key ks in if k == key then rest else k ∷ rest

unfoldable pub remove : Cache → Entry → Cache
unfolding remove_element delete
remove c en = record c {
  items = delete en.key c.items;
  order = remove_element en.key c.order;
  evicted = c.evicted + 1;
}

-- `order.Back()`
unfoldable pub back : List Entry → Option Entry
back [] = none
back (e ∷ []) = some e
back (e ∷ f ∷ es) = back (f ∷ es)

-- `for c.order.Len() > c.max`, on fuel
unfoldable pub evict : ℕ → Cache → Cache
unfolding remove back
evict zero c = c
evict (suc fuel) c = elim (ltb c.max (length c.order)) [
  | false ↦ c
  | true ↦ elim (back c.order) [ none ↦ c | some oldest ↦ evict fuel (remove c oldest) ]
]

-- `items[key] = PushFront(…)`
abbrev pub grown : Cache → String → Time → Cache
grown c key now = record c {
  items = key ∷ delete key c.items;
  order = record { key = key; stamp = now } ∷ c.order;
}

-- The insertion and the loop that follows.
unfoldable pub add : Cache → String → Time → Cache
unfolding evict
add c key now = evict (length (grown c key now).order) (grown c key now)

-- `now.Sub(en.stamp) < c.ttl`
unfoldable pub is_fresh : Cache → Entry → Time → Bool
is_fresh c en now = ltb now (en.stamp + c.ttl)

-- `if el, ok := c.items[key]; ok`
unfoldable pub element : Cache → String → Option Entry
unfolding find
element c key = if contains c.items key then find key c.order else none

unfoldable pub seen_or_add : Cache → String → Time → Cache × Bool
seen_or_add c key now = elim (element c key) [
  | some en ↦
      if is_fresh c en now
      then (
        record c { order = record { key = key; stamp = now } ∷ remove_element key c.order },
        true,
      )
      else (add (remove c en) key now, false)
  | none ↦ (add c key now, false)
]

unfoldable pub len : Cache → ℕ
len c = length c.order
