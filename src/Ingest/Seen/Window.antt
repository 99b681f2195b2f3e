-- ===== src/Ingest/Seen/Window.antt =====
-- One call of `SeenOrAdd` (seen/lru.go) against a plain list of entries, newest first.
use cisync.Prelude.{
  ℕ, zero, suc, ◌+◌, ◌≤◌, ◌≡◌, ◌≢◌, refl, sym, String, Bool, true, false, Option, none, some, List,
  [], ◌∷◌, string_eq, ltb, length, arith, Bool-cases, Option-cases, inl, inr, eq_iff, beq-false, ap,
  ◌∙◌, take,
}
use cisync.Ingest.Seen.{
  Time, Entry, Cache, find, remove_element, grown, remove, back, evict, add, is_fresh, seen_or_add,
}
use cisync.Ingest.Seen.Laws.{
  has, Distinct, IsLinked, IsValid, find-remove_self, find-key, remove-IsLinked, length-remove,
  has-back, back-ne-none, grown-IsLinked, element-find,
}

take_of_length-le : (n : ℕ) (es : List Entry) → length es ≤ n → take n es ≡ es
take_of_length-le zero [] h = refl
take_of_length-le zero (e ∷ es) h = absurd (omega arith)
take_of_length-le (suc n) [] h = refl
take_of_length-le (suc n) (e ∷ es) h = ap (◌∷◌ e) (take_of_length-le n es (omega arith))

remove_absent : (key : String) (es : List Entry) → has key es ≡ false → remove_element key es ≡ es
unfolding find remove_element
remove_absent key [] h = refl
remove_absent key (e ∷ es) h = ground (arith, remove_absent key es)

head_ne :
    (f : Entry) (es : List Entry) (key : String)
    → Distinct (f ∷ es)
    → has key es ≡ true
    → f.key ≢ key
head_ne f es key d h = λ p. absurd (ground (arith, ap (λ k. has k es) p))

-- To remove the back element of distinct entries is to keep all the others.
remove-back :
    (n : ℕ) (es : List Entry) (e : Entry)
    → Distinct es
    → back es ≡ some e
    → length es ≡ suc n
    → remove_element e.key es ≡ take n es
unfolding back remove_element find
remove-back n [] e d b h = cc
remove-back zero (f ∷ []) e d b h = ground (arith, (eq_iff f.key e.key).1)
remove-back (suc n) (f ∷ []) e d b h = absurd (omega arith)
remove-back zero (f ∷ g ∷ es) e d b h = absurd (omega arith)
remove-back (suc n) (f ∷ g ∷ es) e d b h =
    rw (beq-false (head_ne f (g ∷ es) e.key d (has-back (g ∷ es) e b)))
      (ap (◌∷◌ f) (remove-back n (g ∷ es) e d.1 b (omega arith)))

evict_within : (n : ℕ) (c : Cache) → length c.order ≤ c.max → evict n c ≡ c
unfolding evict
evict_within zero c h = refl
evict_within (suc n) c h = ground arith

-- The eviction of a list that is one too long drops its oldest entry.
evict_over :
    (n : ℕ) (c : Cache)
    → IsLinked c
    → length c.order ≡ suc n
    → n ≡ c.max
    → (evict (suc n) c).order ≡ take c.max c.order
unfolding evict
evict_over n c l h e = elim (Option-cases (back c.order)) [
  | inl gone ↦ absurd (back-ne-none c.order (omega arith) gone)
  | inr (oldest, last) ↦
      let dropped : remove_element oldest.key c.order ≡ take n c.order =
        remove-back n c.order oldest l.distinct last h in
      let over : ltb c.max (length c.order) ≡ true = ground arith in
      rw (over, last, evict)
        (rw
          (evict_within n (remove c oldest) (
            unfold remove in
            omega (arith, length-remove oldest.key c.order (has-back c.order oldest last))))
          (unfold remove in rw (← e) dropped))
]

evict-take :
    (c : Cache)
    → IsLinked c
    → length c.order ≤ suc c.max
    → (evict (length c.order) c).order ≡ take c.max c.order
evict-take c l h = elim (Bool-cases (ltb c.max (length c.order))) [
  | inr fits ↦
      rw (evict_within (length c.order) c (ground arith))
        (sym (take_of_length-le c.max c.order (ground arith)))
  | inl over ↦
      let e : length c.order ≡ suc c.max = ground arith in rw e (evict_over c.max c l e refl)
]

-- The window after a call, newest first: the key moves to the front and what does not fit is
-- dropped; the answer tells whether the key's entry was younger than the TTL.
abbrev pub answer : Cache → Option Entry → Time → Bool
answer c none now = false
answer c (some en) now = ltb now (en.stamp + c.ttl)

add-take :
    (c : Cache) (key : String) (now : Time)
    → IsLinked c
    → length c.order ≤ c.max
    → has key c.order ≡ false
    → (add c key now).order ≡ take c.max (record { key = key; stamp = now } ∷ c.order)
unfolding add
add-take c key now l le absent =
    evict-take (grown c key now) (grown-IsLinked c key now l absent) (omega arith)

module _ (c : Cache) (key : String) (now : Time) (v : IsValid c) where
  -- What a call answers and keeps.
  abbrev Called : Cache × Bool → Type 0
  Called (c', seen) =
      (seen ≡ answer c (find key c.order) now)
      × (c'.order ≡ take c.max (record { key = key; stamp = now } ∷ remove_element key c.order))

  missed : find key c.order ≡ none → Called (add c key now, false)
  missed gone = (
    rw gone refl,
    rw (remove_absent key c.order (rw gone refl))
        (add-take c key now v.linked v.bounded (rw gone refl)),
  )

  refreshed :
      (en : Entry)
      → find key c.order ≡ some en
      → ltb now (en.stamp + c.ttl) ≡ true
      → Called (
        record c { order = record { key = key; stamp = now } ∷ remove_element key c.order },
        true,
      )
  refreshed en found fresh = (
    rw found (sym fresh),
    sym (
        take_of_length-le c.max (record { key = key; stamp = now } ∷ remove_element key c.order)
          (omega (arith, length-remove key c.order (rw found refl), v.bounded))),
  )

  renewed :
      (en : Entry)
      → find key c.order ≡ some en
      → ltb now (en.stamp + c.ttl) ≡ false
      → Called (add (remove c en) key now, false)
  renewed en found stale =
      let same : en.key ≡ key = find-key key c.order en found in
      let gone : has key (remove_element key c.order) ≡ false =
        rw (find-remove_self key c.order v.linked.distinct) refl in
      let shorter : length (remove_element key c.order) + 1 ≡ length c.order =
        length-remove key c.order (rw found refl) in
      (
        rw found (sym stale),
        rw
            (add-take (remove c en) key now (remove-IsLinked c en v.linked)
              (unfold remove in rw same (omega (arith, shorter, v.bounded)))
              (unfold remove in rw same gone))
            (unfold remove in rw same refl),
      )

  -- On a valid cache a call of SeenOrAdd answers true exactly if the key has an entry younger than
  -- the TTL; the window then holds the key first, stamped with the time of the call, and behind it
  -- the other entries in their order, as many as fit: only the oldest entries are evicted.
  pub seen_or_add_lem :
      ((seen_or_add c key now).1 ≡ answer c (find key c.order) now)
      × ((seen_or_add c key now).0.order
          ≡ take c.max (record { key = key; stamp = now } ∷ remove_element key c.order))
  unfolding seen_or_add is_fresh
  seen_or_add_lem = elim (Option-cases (find key c.order)) [
    | inl gone ↦ rw (element-find c key v.linked ∙ gone, seen_or_add) (missed gone)
    | inr (en, found) ↦ elim (Bool-cases (ltb now (en.stamp + c.ttl))) [
      | inl fresh ↦
          rw (element-find c key v.linked ∙ found, fresh, seen_or_add) (refreshed en found fresh)
      | inr stale ↦
          rw (element-find c key v.linked ∙ found, stale, seen_or_add) (renewed en found stale)
    ]
  ]
