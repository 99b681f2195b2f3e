-- ===== src/Ingest/Deliveries.antt =====
-- services/ingest/internal/domain/delivery.go and store/memory.go: the deliveries, kept under their
-- source and external id. The map is held in the order in which a loop meets its entries.
use cisync.Prelude.{
  ℕ, ◌+◌, ◌-◌, String, Bool, false, not, ◌&&◌, ◌||◌, Option, none, some, List, [], ◌∷◌,
  if◌then◌else◌, ltb, leb, ◌==◌, string_eq,
}
use cisync.Prelude.Maps.{add_at}

-- Nanoseconds on the clock; `none` is the zero time.
abbrev pub Stamp : Type 0
Stamp = Option ℕ

pub record Delivery : Type 0 where
  pub id : String
  pub source : String
  pub ext_delivery_id : String
  pub event_kind : String
  pub repo : String
  pub sig_ok : Bool
  pub headers : List (String × String)
  pub payload : List ℕ
  pub status : String
  pub attempts : ℕ
  pub received_at : ℕ
  pub last_attempt_at : Stamp
  pub forwarded_at : Stamp
  pub payload_class_hash : String
  pub duplicate_suspect : Bool

unfoldable pub is_retryable : ℕ → Delivery → Bool
is_retryable max d =
    not (d.status == "forwarded") && not (d.status == "rejected") && ltb d.attempts max

-- Deliveries of one source and one external id share the key `source + "\x00" + ext_delivery_id`.
abbrev pub Store : Type 0
Store = List Delivery

abbrev pub has_key : String → String → Delivery → Bool
has_key source ext d = (d.source == source) && (d.ext_delivery_id == ext)

unfoldable pub find : String → String → Store → Option Delivery
find source ext [] = none
find source ext (d ∷ m) =
    let rest = find source ext m in if has_key source ext d then some d else rest

-- `m.deliveries[key] = d`
unfoldable pub put : Delivery → Store → Store
put d [] = d ∷ []
put d (e ∷ m) =
    let rest = put d m in if has_key d.source d.ext_delivery_id e then d ∷ m else e ∷ rest

pub data StoreError : Type 0 where
  duplicate_delivery not_found : StoreError

abbrev is_taken : Delivery → Option Delivery → Bool
is_taken d none = false
is_taken d (some existing) = d.sig_ok && existing.sig_ok

unfoldable pub insert_delivery : Delivery → Store → Store × Option StoreError
unfolding find put
insert_delivery d m =
    if is_taken d (find d.source d.ext_delivery_id m)
    then (m, some duplicate_delivery)
    else (put d m, none)

-- The delivery, or the error not found.
unfoldable pub get_delivery : String → String → Store → Option Delivery
unfolding find
get_delivery source ext m = find source ext m

-- What `UpdateForwardState` writes.
pub record Forward : Type 0 where
  pub status : String
  pub attempts : ℕ
  pub last_attempt_at : Stamp
  pub forwarded_at : Stamp

unfoldable pub set_forward : Forward → Delivery → Delivery
set_forward f d = record d {
  status = f.status;
  attempts = f.attempts;
  last_attempt_at = f.last_attempt_at;
  forwarded_at = f.forwarded_at;
}

-- The loop over the map writes the first delivery of that id, and returns.
unfoldable pub update_loop : String → Forward → Store → Store
unfolding set_forward
update_loop id f [] = []
update_loop id f (d ∷ m) =
    let rest = update_loop id f m in if d.id == id then set_forward f d ∷ m else d ∷ rest

unfoldable pub has_id : String → Store → Bool
has_id id [] = false
has_id id (d ∷ m) = (d.id == id) || has_id id m

unfoldable pub update_forward_state : String → Forward → Store → Store × Option StoreError
unfolding update_loop has_id
update_forward_state id f m = (update_loop id f m, if has_id id m then none else some not_found)

abbrev pub cutoff_of : Delivery → ℕ
cutoff_of d = elim d.last_attempt_at [ none ↦ d.received_at | some t ↦ t ]

-- `now.Sub(cutoff) >= olderThan`, for an age that is positive.
unfoldable pub is_due : ℕ → ℕ → ℕ → Delivery → Bool
unfolding is_retryable
is_due now older_than max d = is_retryable max d && leb (cutoff_of d + older_than) now

-- The loop, with what the limit leaves; it stops when the list is full, which it tests after a
-- delivery was appended.
unfoldable pub due_loop : ℕ → ℕ → ℕ → ℕ → Store → List Delivery
unfolding is_due
due_loop now older_than max left [] = []
due_loop now older_than max left (d ∷ m) =
    let skipped = due_loop now older_than max left m in
    let rest = due_loop now older_than max (left - 1) m in
    if is_due now older_than max d then d ∷ (if leb left 1 then [] else rest) else skipped

unfoldable pub due_deliveries : ℕ → ℕ → ℕ → ℕ → Store → List Delivery
unfolding due_loop
due_deliveries now older_than max limit m = due_loop now older_than max limit m

unfoldable pub count_by_status : Store → List (String × ℕ)
count_by_status [] = []
count_by_status (d ∷ m) = add_at d.status 1 (count_by_status m)
