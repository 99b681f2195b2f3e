-- ===== src/Ingest/Seen/Laws.antt =====
-- The invariant of the cache of seen/lru.go, and its operations.
use cisync.Prelude.{
  ℕ, zero, suc, ◌+◌, ◌≤◌, ◌<◌, ◌≡◌, ◌≢◌, refl, sym, String, Bool, true, false, none, some, List, [],
  ◌∷◌, string_eq, ◌==◌, if◌then◌else◌, ltb, length, contains, arith, Bool-cases, Option-cases, inl,
  inr, eq_iff, is_some, ◌∙◌,
}
use cisync.Prelude.Int.{ℤ}
use cisync.Ingest.Seen.{
  Time, Entry, Cache, new, find, remove_element, delete, grown, remove, back, evict, add, is_fresh,
  element, seen_or_add,
}

-- A key has an entry in the list.
abbrev pub has : String → List Entry → Bool
has key es = is_some (find key es)

abbrev pub Distinct : List Entry → Type 0
Distinct [] = Unit
Distinct (e ∷ es) = (has e.key es ≡ false) × Distinct es

pub record IsLinked (c : Cache) : Type 0 where
  pub indexed : (q : String) → contains c.items q ≡ has q c.order
  pub distinct : Distinct c.order

pub record IsValid (c : Cache) : Type 0 where
  pub linked : IsLinked c
  pub bounded : length c.order ≤ c.max
  pub positive : 0 < c.max

pub apart : (a b : String) → (a == b) ≡ false → a ≢ b
apart a b n = λ h. ground (arith, (eq_iff a b).1 h)

contains-delete :
    (key q : String) (ks : List String)
    → contains (delete key ks) q ≡ (if key == q then false else contains ks q)
unfolding delete
contains-delete key q [] = ground arith
contains-delete key q (k ∷ ks) =
    ground (arith, eq_iff k key, eq_iff key q, eq_iff k q, contains-delete key q ks)

pub find-remove_ne :
    (key q : String) (es : List Entry) → key ≢ q → find q (remove_element key es) ≡ find q es
unfolding find remove_element
find-remove_ne key q [] h = refl
find-remove_ne key q (e ∷ es) h =
    ground (arith, eq_iff e.key key, eq_iff e.key q, find-remove_ne key q es)

pub find-remove_self :
    (key : String) (es : List Entry) → Distinct es → find key (remove_element key es) ≡ none
unfolding find remove_element
find-remove_self key [] d = refl
find-remove_self key (e ∷ es) d =
    ground (arith, eq_iff e.key key, find-remove_self key es, Option-cases (find key es))

pub find-key : (q : String) (es : List Entry) (e : Entry) → find q es ≡ some e → e.key ≡ q
unfolding find
find-key q [] e h = cc
find-key q (f ∷ es) e h = ground (arith, eq_iff f.key q, find-key q es e)

pub Distinct-remove :
    (key : String) (es : List Entry) → Distinct es → Distinct (remove_element key es)
unfolding remove_element
Distinct-remove key [] d = tt
Distinct-remove key (e ∷ es) d = elim (Bool-cases (e.key == key)) [
  | inl p ↦ rw (p, remove_element) d.1
  | inr n ↦
      rw (n, remove_element)
        (
          rw (find-remove_ne key e.key es (λ h. apart e.key key n (sym h))) d.0,
          Distinct-remove key es d.1,
        )
]

pub remove-IsLinked : (c : Cache) (en : Entry) → IsLinked c → IsLinked (remove c en)
unfolding remove
remove-IsLinked c en l = record {
  indexed = λ q. elim (Bool-cases (en.key == q)) [
    | inl p ↦
        rw (contains-delete en.key q c.items, p, ← (eq_iff en.key q).0 p)
          (rw (find-remove_self en.key c.order l.distinct))
    | inr n ↦
        rw (contains-delete en.key q c.items, n, find-remove_ne en.key q c.order (apart en.key q n))
          (l.indexed q)
  ];
  distinct = Distinct-remove en.key c.order l.distinct;
}

pub length-remove :
    (key : String) (es : List Entry)
    → has key es ≡ true
    → length (remove_element key es) + 1 ≡ length es
unfolding find remove_element
length-remove key [] h = cc
length-remove key (e ∷ es) h = ground (arith, length-remove key es)

pub has-back : (es : List Entry) (e : Entry) → back es ≡ some e → has e.key es ≡ true
unfolding back find
has-back [] e h = cc
has-back (f ∷ []) e h = ground (arith, (eq_iff f.key e.key).1)
has-back (f ∷ g ∷ es) e h = ground (arith, has-back (g ∷ es) e)

pub back-ne-none : (es : List Entry) → 0 < length es → back es ≢ none
unfolding back
back-ne-none [] h = absurd (omega arith)
back-ne-none (e ∷ []) h = λ p. cc
back-ne-none (e ∷ f ∷ es) h = back-ne-none (f ∷ es) (omega arith)

pub record Evicted (c c' : Cache) : Type 0 where
  pub linked : IsLinked c'
  pub bounded : length c'.order ≤ c'.max
  pub same_max : c'.max ≡ c.max
  pub same_ttl : c'.ttl ≡ c.ttl

evict-Evicted :
    (fuel : ℕ) (c : Cache) → IsLinked c → length c.order ≤ fuel → Evicted c (evict fuel c)
unfolding evict
evict-Evicted zero c l h = record {
  linked = l;
  bounded = omega arith;
  same_max = refl;
  same_ttl = refl;
}
evict-Evicted (suc fuel) c l h = elim (Bool-cases (ltb c.max (length c.order))) [
  | inr fits ↦
      rw (fits, evict)
        (record { linked = l; bounded = ground arith; same_max = refl; same_ttl = refl })
  | inl over ↦ elim (Option-cases (back c.order)) [
    | inl gone ↦ absurd (back-ne-none c.order (ground arith) gone)
    | inr (e, last) ↦
        let r : Evicted (remove c e) (evict fuel (remove c e)) =
          evict-Evicted fuel (remove c e) (remove-IsLinked c e l) (
            unfold remove in
            omega (arith, length-remove e.key c.order (has-back c.order e last))) in
        rw (over, last, evict)
          (record {
            linked = r.linked;
            bounded = r.bounded;
            same_max = unfold remove in r.same_max;
            same_ttl = unfold remove in r.same_ttl;
          })
  ]
]

pub grown-IsLinked :
    (c : Cache) (key : String) (now : Time)
    → IsLinked c
    → has key c.order ≡ false
    → IsLinked (grown c key now)
unfolding find
grown-IsLinked c key now l absent = record {
  indexed = λ q. ground (arith, contains-delete key q c.items, l.indexed q);
  distinct = (absent, l.distinct);
}

pub add-Evicted :
    (c : Cache) (key : String) (now : Time)
    → IsLinked c
    → has key c.order ≡ false
    → Evicted c (add c key now)
unfolding add
add-Evicted c key now l absent =
    let g = grown c key now in
    let r = evict-Evicted (length g.order) g (grown-IsLinked c key now l absent) (omega arith) in
    record { linked = r.linked; bounded = r.bounded; same_max = r.same_max; same_ttl = r.same_ttl }

pub moved-IsLinked :
    (c : Cache) (key : String) (now : Time)
    → IsLinked c
    → has key c.order ≡ true
    → IsLinked (record c { order = record { key = key; stamp = now } ∷ remove_element key c.order })
unfolding find
moved-IsLinked c key now l present = record {
  indexed = λ q. elim (Bool-cases (key == q)) [
    | inl p ↦ rw p (rw (← (eq_iff key q).0 p) (l.indexed key ∙ present))
    | inr n ↦ rw (n, find-remove_ne key q c.order (apart key q n)) (l.indexed q)
  ];
  distinct =
      (rw (find-remove_self key c.order l.distinct) refl, Distinct-remove key c.order l.distinct);
}

-- What `items[key]` points to is the entry of the key.
pub element-find : (c : Cache) (key : String) → IsLinked c → element c key ≡ find key c.order
unfolding element
element-find c key l = ground (arith, l.indexed key, Option-cases (find key c.order))

Evicted-IsValid : (c c' : Cache) → 0 < c.max → Evicted c c' → IsValid c'
Evicted-IsValid c c' h r = record {
  linked = r.linked;
  bounded = r.bounded;
  positive = rw r.same_max h;
}

-- Every call of SeenOrAdd keeps the cache valid: the map and the list name the same keys, no key
-- stands twice, and the number of entries never passes the bound.
pub seen_or_add-IsValid :
    (c : Cache) (key : String) (now : Time) → IsValid c → IsValid (seen_or_add c key now).0
unfolding seen_or_add
seen_or_add-IsValid c key now v = elim (Option-cases (find key c.order)) [
  | inl gone ↦
      rw (element-find c key v.linked ∙ gone, seen_or_add)
        (Evicted-IsValid c (add c key now) v.positive
          (add-Evicted c key now v.linked (rw gone refl)))
  | inr (en, found) ↦
      let present : has key c.order ≡ true = rw found refl in
      let same : en.key ≡ key = find-key key c.order en found in
      elim (Bool-cases (is_fresh c en now)) [
        | inl fresh ↦
            rw (element-find c key v.linked ∙ found, fresh, seen_or_add)
              (record {
                linked = moved-IsLinked c key now v.linked present;
                bounded = omega (arith, length-remove key c.order present, v.bounded);
                positive = v.positive;
              })
        | inr stale ↦
            let c' = remove c en in
            let gone : has key (remove_element key c.order) ≡ false =
              rw (find-remove_self key c.order v.linked.distinct) refl in
            rw (element-find c key v.linked ∙ found, stale, seen_or_add)
              (Evicted-IsValid c' (add c' key now) (unfold remove in v.positive) (
                add-Evicted c' key now (remove-IsLinked c en v.linked)
                  (unfold remove in rw same gone)))
      ]
]

-- The TTL is never changed.
pub seen_or_add-ttl :
    (c : Cache) (key : String) (now : Time) → IsValid c → (seen_or_add c key now).0.ttl ≡ c.ttl
unfolding seen_or_add remove
seen_or_add-ttl c key now v = elim (Option-cases (find key c.order)) [
  | inl gone ↦
      rw (element-find c key v.linked ∙ gone, seen_or_add)
        (add-Evicted c key now v.linked (rw gone refl)).same_ttl
  | inr (en, found) ↦
      let same : en.key ≡ key = find-key key c.order en found in
      elim (Bool-cases (is_fresh c en now)) [
        | inl fresh ↦ rw (element-find c key v.linked ∙ found, fresh, seen_or_add) refl
        | inr stale ↦
            rw (element-find c key v.linked ∙ found, stale, seen_or_add)
              (add-Evicted (remove c en) key now (remove-IsLinked c en v.linked) (
                unfold remove in
                rw same (rw (find-remove_self key c.order v.linked.distinct) refl))).same_ttl
      ]
]

-- A new cache is valid, whatever limits it is given.
pub new-IsValid : (max_entries ttl : ℤ) → IsValid (new max_entries ttl)
unfolding new find
new-IsValid max_entries ttl = record {
  linked = record { indexed = λ q. refl; distinct = tt };
  bounded = ground arith;
  positive = ground arith;
}
