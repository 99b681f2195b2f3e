-- ===== src/Connector/Rerun/Once.antt =====
-- Sequences of calls of `Dedupe` (rerun/budget.go).
use cisync.Prelude.{
  ℕ, ◌+◌, ◌≤◌, ◌≡◌, refl, ap, ◌∙◌, String, true, false, some, List, [], ◌∷◌, string_eq, arith,
  Option-cases, inl, inr, eq_iff, All,
}
use cisync.Prelude.Maps.{lookup, lookup-insert, lookup-insert_self}
use cisync.Connector.Rerun.{Time, Dedupe, prune, first_seen}

-- A call: the key and the two readings of the clock.
pub record Call : Type 0 where
  pub key : String
  pub now : Time
  pub stamp : Time

unfoldable pub run : Dedupe → List Call → Dedupe
run d [] = d
run d (c ∷ cs) = run (first_seen d c.key c.now c.stamp).0 cs

prune-keeps :
    (ttl : ℕ) (now t : Time) (key : String) (m : List (String × Time))
    → now ≤ t + ttl
    → lookup key m ≡ some t
    → lookup key (prune ttl now m) ≡ some t
unfolding prune
prune-keeps ttl now t key [] le h = h
prune-keeps ttl now t key ((k, at) ∷ m) le h = ground (arith, prune-keeps ttl now t key m le)

-- A stamp within its window survives a call and is not replaced.
call_keeps :
    (d : Dedupe) (c : Call) (key : String) (t : Time)
    → c.now ≤ t + d.ttl
    → lookup key d.seen ≡ some t
    → (lookup key (first_seen d c.key c.now c.stamp).0.seen ≡ some t)
      × ((first_seen d c.key c.now c.stamp).0.ttl ≡ d.ttl)
unfolding first_seen
call_keeps d c key t le h =
    let kept : lookup key (prune d.ttl c.now d.seen) ≡ some t =
      prune-keeps d.ttl c.now t key d.seen le h in
    elim (Option-cases (lookup c.key (prune d.ttl c.now d.seen))) [
      | inr (at, found) ↦ rw (found, first_seen) (kept, refl)
      | inl gone ↦
          rw (gone, first_seen)
            (
              lookup-insert c.key key c.stamp (prune d.ttl c.now d.seen)
                  ∙ ground (
                    arith,
                    eq_iff c.key key,
                    ap (λ k. lookup k (prune d.ttl c.now d.seen)) {x = c.key} {y = key},
                  ),
              refl,
            )
    ]

run_keeps :
    (d : Dedupe) (cs : List Call) (key : String) (t ttl : ℕ)
    → d.ttl ≡ ttl
    → All (λ c. c.now ≤ t + ttl) cs
    → lookup key d.seen ≡ some t
    → (lookup key (run d cs).seen ≡ some t) × ((run d cs).ttl ≡ ttl)
unfolding run
run_keeps d [] key t ttl e le h = (h, e)
run_keeps d (c ∷ cs) key t ttl e (here, rest) h =
    let (h', e') = call_keeps d c key t (omega (arith, e, here)) h in
    run_keeps (first_seen d c.key c.now c.stamp).0 cs key t ttl (e' ∙ e) rest h'

stored :
    (d : Dedupe) (key : String) (now stamp : Time)
    → (first_seen d key now stamp).1 ≡ true
    → (lookup key (first_seen d key now stamp).0.seen ≡ some stamp)
      × ((first_seen d key now stamp).0.ttl ≡ d.ttl)
unfolding first_seen
stored d key now stamp h = elim (Option-cases (lookup key (prune d.ttl now d.seen))) [
  | inr (at, found) ↦ absurd (ground arith)
  | inl gone ↦ rw (gone, first_seen) (lookup-insert_self key stamp (prune d.ttl now d.seen), refl)
]

refused :
    (d : Dedupe) (key : String) (t now stamp : Time)
    → now ≤ t + d.ttl
    → lookup key d.seen ≡ some t
    → (first_seen d key now stamp).1 ≡ false
unfolding first_seen
refused d key t now stamp le h = rw (prune-keeps d.ttl now t key d.seen le h, first_seen) refl

-- A key that was reported as new is not new again before its window has passed, whatever other keys
-- are asked for in between: `t` is its stamp, and no call reads a clock past `t` plus the TTL.
pub new_once :
    (d : Dedupe) (key : String) (now t : Time) (cs : List Call) (later stamp : Time)
    → (first_seen d key now t).1 ≡ true
    → All (λ c. c.now ≤ t + d.ttl) cs
    → later ≤ t + d.ttl
    → (first_seen (run (first_seen d key now t).0 cs) key later stamp).1 ≡ false
new_once d key now t cs later stamp h within le =
    let (at, e) = stored d key now t h in
    let (at', e') = run_keeps (first_seen d key now t).0 cs key t d.ttl e within at in
    refused (run (first_seen d key now t).0 cs) key t later stamp (omega (arith, e', le)) at'
