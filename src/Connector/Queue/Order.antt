-- ===== src/Connector/Queue/Order.antt =====
-- The order of the pending writes (queue/pending.go), which `Due` goes through.
use cisync.Prelude.{
  ◌≡◌, refl, String, false, ◌==◌, string_eq, List, [], ◌∷◌, ◌++◌, arith, Bool-cases, inl, inr,
  eq_iff, Memᴰ,
}
use cisync.Connector.Queue.{remove_first}

pub Memᴰ-last : (order : List String) (id : String) → Memᴰ id (order ++ (id ∷ []))
Memᴰ-last [] id = Memᴰ.head refl
Memᴰ-last (i ∷ order) id = Memᴰ.tail (Memᴰ-last order id)

pub Memᴰ-before :
    (id : String) {j : String} (order : List String) → Memᴰ j order → Memᴰ j (order ++ (id ∷ []))
Memᴰ-before id [] m = elim m [ ]
Memᴰ-before id (i ∷ order) (Memᴰ.head e) = Memᴰ.head e
Memᴰ-before id (i ∷ order) (Memᴰ.tail m) = Memᴰ.tail (Memᴰ-before id order m)

pub remove_first-mem :
    (id : String) {j : String} (order : List String)
    → (id == j) ≡ false
    → Memᴰ j order
    → Memᴰ j (remove_first id order)
unfolding remove_first
remove_first-mem id [] differ m = elim m [ ]
remove_first-mem id {j = j} (i ∷ order) differ (Memᴰ.head e) =
    let other : (i == id) ≡ false = ground (arith, eq_iff i id, eq_iff id j) in
    rw other (Memᴰ.head e)
remove_first-mem id (i ∷ order) differ (Memᴰ.tail m) = elim (Bool-cases (i == id)) [
  | inl e ↦ rw e m
  | inr e ↦ rw e (Memᴰ.tail (remove_first-mem id order differ m))
]
