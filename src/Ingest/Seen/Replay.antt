-- ===== src/Ingest/Seen/Replay.antt =====
-- The replay window over any sequence of deliveries (seen/lru.go).
use cisync.Prelude.{
  ℕ, zero, suc, ◌+◌, ◌<◌, ◌≡◌, refl, sym, subst, String, true, some, List, [], ◌∷◌, string_eq, ◌==◌,
  ltb, arith, Bool-cases, Option-cases, inl, inr, ap, ◌∙◌, take, Memᴰ, All, beq_refl,
}
use cisync.Prelude.Int.{ℤ}
use cisync.Ingest.Seen.{Time, Entry, Cache, new, find, remove_element, seen_or_add}
use cisync.Ingest.Seen.Laws.{IsValid, find-key, seen_or_add-IsValid, seen_or_add-ttl, new-IsValid}
use cisync.Ingest.Seen.Window.{answer, seen_or_add_lem}

-- The cache after a sequence of calls, each a key at a time.
unfoldable pub run : Cache → List (String × Time) → Cache
run c [] = c
run c ((key, now) ∷ calls) = run (seen_or_add c key now).0 calls

pub run-IsValid : (c : Cache) (calls : List (String × Time)) → IsValid c → IsValid (run c calls)
unfolding run
run-IsValid c [] v = v
run-IsValid c ((key, now) ∷ calls) v =
    run-IsValid (seen_or_add c key now).0 calls (seen_or_add-IsValid c key now v)

module _ (P : Entry → Type 0) where
  All-take : (n : ℕ) (es : List Entry) → All P es → All P (take n es)
  All-take zero es h = tt
  All-take (suc n) [] h = tt
  All-take (suc n) (e ∷ es) (here, rest) = (here, All-take n es rest)

  All-remove : (key : String) (es : List Entry) → All P es → All P (remove_element key es)
  unfolding remove_element
  All-remove key [] h = tt
  All-remove key (e ∷ es) (here, rest) = elim (Bool-cases (e.key == key)) [
    | inl p ↦ rw (p, remove_element) rest
    | inr n ↦ rw (n, remove_element) (here, All-remove key es rest)
  ]

  All-find : (key : String) (es : List Entry) {e : Entry} → All P es → find key es ≡ some e → P e
  unfolding find
  All-find key [] h p = absurd (ground arith)
  All-find key (f ∷ es) {e} (here, rest) p = elim (Bool-cases (f.key == key)) [
    | inl q ↦ subst P (ground arith) here
    | inr n ↦ All-find key es rest (ground arith)
  ]

run-All :
    (P : Entry → Type 0) (c : Cache) (calls : List (String × Time))
    → IsValid c
    → All P c.order
    → ((key : String) (now : Time) → Memᴰ (key, now) calls → P (record { key = key; stamp = now }))
    → All P (run c calls).order
unfolding run
run-All P c [] v h new_ones = h
run-All P c ((key, now) ∷ calls) v h new_ones =
    let e = (seen_or_add_lem c key now v).1 in
    run-All P (seen_or_add c key now).0 calls (seen_or_add-IsValid c key now v)
      (rw e (
        All-take P c.max (record { key = key; stamp = now } ∷ remove_element key c.order)
          (new_ones key now (Memᴰ.head refl), All-remove P key c.order h)))
      (λ k t m. new_ones k t (Memᴰ.tail m))

run-ttl : (c : Cache) (calls : List (String × Time)) → IsValid c → (run c calls).ttl ≡ c.ttl
unfolding run
run-ttl c [] v = refl
run-ttl c ((key, now) ∷ calls) v =
    run-ttl (seen_or_add c key now).0 calls (seen_or_add-IsValid c key now v)
    ∙ seen_or_add-ttl c key now v

-- A delivery is called a duplicate suspect only if a delivery of the same content class was seen
-- less than the TTL before: for any cache limits and any sequence of calls on a new cache, a true
-- answer comes with an earlier call of the same key at such a time.
pub suspect_was_seen :
    (max_entries ttl : ℤ) (calls : List (String × Time)) (key : String) (now : Time)
    → (seen_or_add (run (new max_entries ttl) calls) key now).1 ≡ true
    → (t : Time) × Memᴰ (key, t) calls × (now < t + (new max_entries ttl).ttl)
suspect_was_seen max_entries ttl calls key now h =
    let c = new max_entries ttl in
    let c' = run c calls in
    let v : IsValid c' = run-IsValid c calls (new-IsValid max_entries ttl) in
    let seen : answer c' (find key c'.order) now ≡ true =
      sym (seen_or_add_lem c' key now v).0 ∙ h in
    elim (Option-cases (find key c'.order)) [
      | inl gone ↦ absurd (ground arith)
      | inr (e, found) ↦
          let written : Memᴰ (e.key, e.stamp) calls =
            All-find (λ e. Memᴰ (e.key, e.stamp) calls) key c'.order
              (run-All (λ e. Memᴰ (e.key, e.stamp) calls) c calls (new-IsValid max_entries ttl)
                (unfold new in tt) (λ k t m. m))
              found in
          (
            e.stamp,
            subst (λ k. Memᴰ (k, e.stamp) calls) (find-key key c'.order e found) written,
            ground (arith, run-ttl c calls (new-IsValid max_entries ttl)),
          )
    ]

take_front :
    (n : ℕ) (key : String) (t : Time) (es : List Entry)
    → 0 < n
    → find key (take n (record { key = key; stamp = t } ∷ es))
      ≡ some (record { key = key; stamp = t })
unfolding find
take_front zero key t es h = absurd (omega arith)
take_front (suc n) key t es h = rw (beq_refl key) refl

-- A key that was just seen or added is a suspect exactly within the TTL.
pub seen_again :
    (c : Cache) (key : String) (t now : Time)
    → IsValid c
    → (seen_or_add (seen_or_add c key t).0 key now).1 ≡ ltb now (t + c.ttl)
seen_again c key t now v =
    let c' = (seen_or_add c key t).0 in
    let kept : find key c'.order ≡ some (record { key = key; stamp = t }) =
      ap (find key) (seen_or_add_lem c key t v).1
      ∙ take_front c.max key t (remove_element key c.order) v.positive in
    (seen_or_add_lem c' key now (seen_or_add-IsValid c key t v)).0
    ∙ ap (λ o. answer c' o now) kept
    ∙ ap (λ ttl. ltb now (t + ttl)) (seen_or_add-ttl c key t v)
