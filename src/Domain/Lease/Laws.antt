-- ===== src/Domain/Lease/Laws.antt =====
-- What holds of a lease through `Apply` and `Renew` (domain/lease.go).
use cisync.Prelude.{
  ◌≡◌, refl, Bool, true, List, [], ◌∷◌, String, arith, none, some, every, string_eq, is_some, ◌+◌,
  ◌*◌, ◌⊎◌, same, same-true, ◌||◌, Bool-cases, nat_eq, inl, inr,
}
use cisync.Prelude.Int.{ℤ, pos, pos_part, lt_int, ◌≤ℤ◌}
use cisync.Domain.Common.{Time}
use cisync.Domain.Machine.{
  Result, ok, err, next_state, post_terminal, validation_failed, illegal_transition, TransitionRule,
  Error, DomainError,
}
use cisync.Domain.Machine.Laws.{moved-rule}
use cisync.Domain.Lease.{
  Lease, LeaseState, lease_state_eq, requested, granted, terminal, lease_transitions, conclude,
  apply, renew, extend, ends, second,
}

-- The operations that change a lease.
pub data Op : Type 0 where
  trigger : String → Time → Op
  renewal : ℤ → Time → Op

unfoldable pub perform : Lease → Op → Lease
perform l (trigger t now) = (apply l t now).0
perform l (renewal ttl now) = (renew l ttl now).0

unfoldable pub run : Lease → List Op → Lease
run l [] = l
run l (o ∷ os) = run (perform l o) os

abbrev pub IsReleasedRight : Lease → Type 0
IsReleasedRight l = is_some l.released_at ≡ terminal l.state

-- The triggers that end a lease are those whose target is terminal.
abbrev ends_right : String × TransitionRule LeaseState → Bool
ends_right (t, r) = same (terminal r.to) (ends t)

all_ends_right : every ends_right lease_transitions ≡ true
unfolding lease_transitions terminal ends
all_ends_right = refl

apply-IsReleasedRight :
    (l : Lease) (t : String) (now : Time) → IsReleasedRight l → IsReleasedRight (apply l t now).0
unfolding apply
apply-IsReleasedRight l t now inv = go (next_state terminal lease_transitions l.state t) refl
  where
    go :
        (o : Result LeaseState)
        → next_state terminal lease_transitions l.state t ≡ o
        → IsReleasedRight (conclude l t o now).0
    go (err e) p = inv
    go (ok s) p =
        let (r, right, m, to, live) =
          moved-rule terminal lease_transitions ends_right l.state t all_ends_right p in
        ground (arith, same-true (terminal r.to) (ends t))

extend-IsReleasedRight :
    (l : Lease) (e : Error) (ttl : ℤ) (now : Time)
    → IsReleasedRight l
    → IsReleasedRight (extend (l, e) ttl now).0
unfolding extend
extend-IsReleasedRight l (some e) ttl now inv = inv
extend-IsReleasedRight l none ttl now inv = ground arith

perform-IsReleasedRight : (l : Lease) (o : Op) → IsReleasedRight l → IsReleasedRight (perform l o)
unfolding perform renew
perform-IsReleasedRight l (trigger t now) inv = apply-IsReleasedRight l t now inv
perform-IsReleasedRight l (renewal ttl now) inv =
    let (l', e) = apply l "lease.renewed" now in
    extend-IsReleasedRight l' e ttl now (apply-IsReleasedRight l "lease.renewed" now inv)

-- Over any sequence of triggers and renewals, `released_at` stays set exactly in the released,
-- expired and revoked states, if it was so at the start.
pub run-IsReleasedRight :
    (l : Lease) (os : List Op) → IsReleasedRight l → IsReleasedRight (run l os)
unfolding run
run-IsReleasedRight l [] inv = inv
run-IsReleasedRight l (o ∷ os) inv =
    run-IsReleasedRight (perform l o) os (perform-IsReleasedRight l o inv)

renewed :
    (s : LeaseState)
    → ((s ≡ granted) × (next_state terminal lease_transitions s "lease.renewed" ≡ ok granted))
      ⊎ ((e : DomainError) × (next_state terminal lease_transitions s "lease.renewed" ≡ err e))
unfolding next_state terminal lease_transitions
renewed granted = inl (refl, refl)
renewed requested = inr (illegal_transition, refl)
renewed _ = inr (post_terminal, refl)

-- `Renew` either returns an error and leaves the lease unchanged, or the lease was granted, the TTL
-- lies within 30 and 3600 seconds, and only the window and the count change: the lease now ends
-- that many seconds after the call, and one more renewal is counted.
pub renew_cases :
    (l : Lease) (ttl : ℤ) (now : Time)
    → ((e : DomainError) × (renew l ttl now ≡ (l, some e)))
      ⊎ ((l.state ≡ granted)
          × (pos 30 ≤ℤ ttl)
          × (ttl ≤ℤ pos 3600)
          × (renew l ttl now ≡ (
            record l {
              ttl_expires_at = now + pos_part ttl * second;
              renewal_count = l.renewal_count + 1;
            },
            none,
          )))
unfolding renew apply extend
renew_cases l ttl now = elim (renewed l.state) [
  | inl (g, p) ↦ elim (Bool-cases (lt_int ttl (pos 30) || lt_int (pos 3600) ttl)) [
    | inl out ↦ inl (validation_failed, rw p (ground arith))
    | inr within ↦ inr (g, ground arith, ground arith, rw p (ground arith))
  ]
  | inr (e, p) ↦ rw p (inl (e, refl))
]
