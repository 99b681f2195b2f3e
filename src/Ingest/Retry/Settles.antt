-- ===== src/Ingest/Retry/Settles.antt =====
-- The scans of retry/worker.go bring every delivery to an end.
use mathlib.Core.List.{append_assoc}
use cisync.Prelude.{
  ℕ, zero, suc, ◌+◌, ◌-◌, ◌≤◌, ◌≡◌, refl, sym, ap, ◌∙◌, String, Bool, true, false, not, ◌||◌,
  Option, none, some, List, [], ◌∷◌, ◌++◌, map, Bool-cases, arith, if◌then◌else◌, ltb, leb, ◌==◌,
  string_eq, eq_iff, beq_refl, length, inl, inr,
}
use cisync.Ingest.Deliveries.{
  Delivery, Store, Forward, has_id, is_due, due_loop, due_deliveries, update_loop, set_forward,
}
use cisync.Ingest.Retry.{
  World, SendResult, accepted, unavailable, rejected, attempt_loop, outcome, forward_of, write,
  process_one, scan_loop, scan_once, due_age, is_unavailable, failed_with, forward_if,
}

-- The context does not end while the delivery is processed.
pub record IsCalm (w : World) : Type 0 where
  pub goes_on : (n : ℕ) → w.over_after n ≡ false
  pub waits : (n : ℕ) → w.ends_in_wait n ≡ false
  pub lasts : w.over_at_end ≡ false

-- No two deliveries have one id.
abbrev pub Distinct : Store → Type 0
Distinct [] = Unit
Distinct (d ∷ m) = (has_id d.id m ≡ false) × Distinct m

attempt_loop-some :
    (w : World)
    → IsCalm w
    → (rounds attempt : ℕ) → (r : SendResult) × (attempt_loop w rounds attempt ≡ some r)
unfolding attempt_loop
attempt_loop-some w calm zero attempt = (unavailable, refl)
attempt_loop-some w calm (suc rounds) attempt =
    let (r, e) = attempt_loop-some w calm rounds (attempt + 1) in
    elim (Bool-cases (not (is_unavailable (w.sends attempt)) || w.over_after attempt)) [
      | inl ends ↦ (w.sends attempt, rw (ends, attempt_loop) refl)
      | inr again ↦ elim (Bool-cases (ltb attempt 3)) [
        | inl waits ↦ (r, rw (again, waits, calm.waits attempt, attempt_loop) e)
        | inr last ↦ (r, rw (again, last, attempt_loop) e)
      ]
    ]

forward_of-attempts :
    (max now : ℕ) (d : Delivery) (r : SendResult)
    → ((forward_of max now d r).attempts ≡ d.attempts + 3)
      × ((forward_of max now d r).last_attempt_at ≡ some now)
unfolding forward_of
forward_of-attempts max now d accepted = (refl, refl)
forward_of-attempts max now d unavailable = (refl, refl)
forward_of-attempts max now d rejected = (refl, refl)

-- A calm pass writes one more burst of attempts, at the time at which it is done.
outcome-some :
    (w : World) (max : ℕ) (d : Delivery)
    → IsCalm w
    → (f : Forward) × (outcome w max d ≡ some f)
      × (f.attempts ≡ d.attempts + 3)
      × (f.last_attempt_at ≡ some w.done_at)
unfolding outcome
outcome-some w max d calm =
    pick w.redacts w.done_at (attempt_loop w 3 1) (attempt_loop-some w calm 3 1)
  where
    pick :
        (redacts : Bool) (now : ℕ) (o : Option SendResult)
        → (r : SendResult) × (o ≡ some r)
        → (f : Forward) × ((if not redacts
              then some (failed_with (d.attempts + 3) now)
              else forward_if max now d o)
            ≡ some f)
          × (f.attempts ≡ d.attempts + 3)
          × (f.last_attempt_at ≡ some now)
    pick false now o sent = (failed_with (d.attempts + 3) now, refl, refl, refl)
    pick true now o (r, e) =
        let (a, l) = forward_of-attempts max now d r in
        (forward_of max now d r, ap (forward_if max now d) e, a, l)

-- What a calm pass makes of one delivery.
unfoldable pub after : World → ℕ → Delivery → Delivery
after w max d = elim (outcome w max d) [ none ↦ d | some f ↦ set_forward f d ]

module _ (worlds : String → World) (max now : ℕ) where
  unfoldable pub step : Delivery → Delivery
  step d = if is_due now due_age max d then after (worlds d.id) max d else d

  due_all : Store → List Delivery
  due_all [] = []
  due_all (d ∷ m) = let rest = due_all m in if is_due now due_age max d then d ∷ rest else rest

  due_loop-all :
      (left : ℕ) (m : Store) → length m ≤ left → due_loop now due_age max left m ≡ due_all m
  unfolding due_loop due_all
  due_loop-all left [] h = refl
  due_loop-all left (d ∷ m) h = elim (Bool-cases (is_due now due_age max d)) [
    | inr early ↦ rw (early, due_loop, due_all) (due_loop-all left m (omega arith))
    | inl due ↦ elim (Bool-cases (leb left 1)) [
      | inr more ↦
          rw (due, more, due_loop, due_all)
            (ap (λ rest. d ∷ rest) (due_loop-all (left - 1) m (ground arith)))
      | inl full ↦ rw (due, full, due_loop, due_all) (none_left m (ground arith))
    ]
  ]
    where
      none_left : (rest : Store) → length rest ≤ 0 → (d ∷ []) ≡ d ∷ due_all rest
      none_left [] k = refl
      none_left (x ∷ rest) k = absurd (omega arith)

  -- The delivery of an id that no delivery in front has.
  update-append :
      (id : String) (f : Forward) (m rest : Store)
      → has_id id m ≡ false
      → update_loop id f (m ++ rest) ≡ m ++ update_loop id f rest
  unfolding update_loop has_id
  update-append id f [] rest h = refl
  update-append id f (d ∷ m) rest h =
      let other : (d.id == id) ≡ false = ground arith in
      rw (other, update_loop) (ap (λ r. d ∷ r) (update-append id f m rest (ground arith)))

  has_id-append :
      (id : String) (m rest : Store) → has_id id (m ++ rest) ≡ (has_id id m || has_id id rest)
  unfolding has_id
  has_id-append id [] rest = refl
  has_id-append id (d ∷ m) rest = ground (arith, has_id-append id m rest)

  -- The deliveries in front, which the pass is done with, have other ids than those behind.
  abbrev Apart : Store → Store → Type 0
  Apart front [] = Unit
  Apart front (d ∷ m) = (has_id d.id front ≡ false) × Apart front m

  Apart-snoc :
      (x : Delivery) (front m : Store)
      → has_id x.id m ≡ false
      → Apart front m
      → Apart (front ++ x ∷ []) m
  unfolding has_id
  Apart-snoc x front [] h a = tt
  Apart-snoc x front (e ∷ m) h (here, rest) = (
    has_id-append e.id front (x ∷ []) ∙ ground (arith, here, eq_iff e.id x.id, eq_iff x.id e.id),
    Apart-snoc x front m (ground arith) rest,
  )

  process_one-step :
      (w : World) (d : Delivery) (front m : Store)
      → IsCalm w
      → has_id d.id front ≡ false
      → process_one w max d (front ++ (d ∷ m)) ≡ front ++ (after w max d ∷ m)
  unfolding process_one after update_loop
  process_one-step w d front m calm new =
      let (f, e, _, _) = outcome-some w max d calm in
      rw (e, write, after) (update-append d.id f front (d ∷ m) new ∙ rw (beq_refl d.id) refl)

  pub after-id : (w : World) (d : Delivery) → (after w max d).id ≡ d.id
  unfolding after set_forward
  after-id w d = by_outcome (outcome w max d)
    where
      by_outcome :
          (o : Option Forward)
          → (elim o as (λ o'. Delivery) [ none ↦ d | some f ↦ set_forward f d ]).id ≡ d.id
      by_outcome none = refl
      by_outcome (some f) = refl

  -- A calm pass adds three attempts and the time at which it is done.
  pub after-attempts :
      (w : World) (d : Delivery)
      → IsCalm w
      → ((after w max d).attempts ≡ d.attempts + 3)
        × ((after w max d).last_attempt_at ≡ some w.done_at)
  unfolding after set_forward
  after-attempts w d calm = let (f, e, a, l) = outcome-some w max d calm in rw (e, after) (a, l)

  scan_loop-cons :
      (d : Delivery) (due : List Delivery) (m : Store)
      → (worlds d.id).over_at_end ≡ false
      → scan_loop worlds max (d ∷ due) m
        ≡ scan_loop worlds max due (process_one (worlds d.id) max d m)
  unfolding scan_loop
  scan_loop-cons d due m lasts =
      let done = process_one (worlds d.id) max d m in
      ap (λ b. if b then done else scan_loop worlds max due done) lasts

  scan_loop-step :
      (calm : (id : String) → IsCalm (worlds id)) (front m : Store)
      → Distinct m
      → Apart front m
      → scan_loop worlds max (due_all m) (front ++ m) ≡ front ++ map step m
  unfolding due_all step
  scan_loop-step calm front [] dist apart = unfold scan_loop in refl
  scan_loop-step calm front (d ∷ m) dist apart = elim (Bool-cases (is_due now due_age max d)) [
    | inr early ↦
        rw (early, due_all, step)
          (ap (scan_loop worlds max (due_all m)) (sym (append_assoc front (d ∷ []) m))
            ∙ scan_loop-step calm (front ++ d ∷ []) m dist.1 (Apart-snoc d front m dist.0 apart.1)
            ∙ append_assoc front (d ∷ []) (map step m))
    | inl due ↦
        let w = worlds d.id in
        let d' = after w max d in
        rw (due, due_all, step)
          (scan_loop-cons d (due_all m) (front ++ (d ∷ m)) (calm d.id).lasts
            ∙ ap (scan_loop worlds max (due_all m))
                (process_one-step w d front m (calm d.id) apart.0)
            ∙ ap (scan_loop worlds max (due_all m)) (sym (append_assoc front (d' ∷ []) m))
            ∙ scan_loop-step calm (front ++ d' ∷ []) m dist.1
                (Apart-snoc d' front m (ap (λ i. has_id i m) (after-id w d) ∙ dist.0) apart.1)
            ∙ append_assoc front (d' ∷ []) (map step m))
  ]

  -- A calm scan of a store with at most 100 deliveries of different ids treats each due delivery once
  -- and leaves the others alone.
  pub scan_once-step :
      (m : Store)
      → ((id : String) → IsCalm (worlds id))
      → length m ≤ 100
      → Distinct m
      → scan_once worlds max now m ≡ map step m
  unfolding scan_once due_deliveries
  scan_once-step m calm few dist =
      ap (λ due. scan_loop worlds max due m) (due_loop-all 100 m few)
      ∙ scan_loop-step calm [] m dist (apart_none m)
    where
      apart_none : (m : Store) → Apart [] m
      apart_none [] = tt
      apart_none (d ∷ m) = (refl, apart_none m)
