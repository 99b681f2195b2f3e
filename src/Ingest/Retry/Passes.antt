-- ===== src/Ingest/Retry/Passes.antt =====
-- What one pass of the worker of retry/worker.go makes of a waiting delivery.
use cisync.Prelude.{
  ◌<◌, ◌⊎◌, List, leb, if◌then◌else◌, ℕ, suc, ◌+◌, ◌*◌, ◌≤◌, ◌≡◌, refl, sym, ap, ◌∙◌, subst, String,
  Bool, true, false, none, some, [], ◌∷◌, map, All, &&-true, Bool-cases, arith, string_eq, length,
  inl, inr,
}
use cisync.Ingest.Deliveries.{Delivery, Store, has_id, is_due, is_retryable, cutoff_of}
use cisync.Ingest.Retry.{World, scan_once, due_age}
use cisync.Ingest.Retry.Settles.{IsCalm, Distinct, step, after, after-id, after-attempts}

-- A pass of the worker: the clock at its start, what happens to the deliveries in it, and a time that no
-- reading of the clock in it is after.
pub record Pass : Type 0 where
  pub at : ℕ
  pub worlds : String → World
  pub ends : ℕ

unfoldable pub passes : ℕ → List Pass → Store → Store
unfolding scan_once
passes max [] m = m
passes max (p ∷ ps) m = passes max ps (scan_once p.worlds max p.at m)

abbrev pub later : ℕ → ℕ → ℕ
later a b = if leb a b then b else a

-- The passes that count: those that start 30 seconds or more after every reading of the clock up to the
-- last one that counted, `since`; `latest` is the last reading so far. The passes between them, which
-- the ticker starts more often, may process some of the deliveries too.
unfoldable pub rounds : ℕ → ℕ → List Pass → ℕ
rounds since latest [] = 0
rounds since latest (p ∷ ps) =
    let now = later latest p.ends in
    let counted = rounds now now ps in
    let rest = rounds since now ps in if leb (since + due_age) p.at then suc counted else rest

-- The pass is not cancelled, and no reading of the clock in it is after its end.
abbrev pub IsCalmPass : Pass → Type 0
IsCalmPass p = (id : String) → IsCalm (p.worlds id) × ((p.worlds id).done_at ≤ p.ends)

-- A delivery that may be retried was last tried at `latest` at most. It has had `bursts` bursts of
-- attempts and was last tried at `since` at most, or it has had one more.
abbrev pub IsWaiting : ℕ → ℕ → ℕ → ℕ → Delivery → Type 0
IsWaiting max since latest bursts d =
    is_retryable max d ≡ true
    → (cutoff_of d ≤ latest)
      × (((cutoff_of d ≤ since) × (3 * bursts ≤ d.attempts)) ⊎ (3 * (bursts + 1) ≤ d.attempts))

clash : {b : Bool} → b ≡ false → b ≡ true → ⊥
clash h k = absurd (cc)

cutoff-some : (d : Delivery) {now : ℕ} → d.last_attempt_at ≡ some now → cutoff_of d ≡ now
cutoff-some d e = ap (λ o. elim o as (λ o'. ℕ) [ none ↦ d.received_at | some t ↦ t ]) e

is_due-retryable :
    (max now : ℕ) (d : Delivery) → is_due now due_age max d ≡ true → is_retryable max d ≡ true
unfolding is_due
is_due-retryable max now d h = (&&-true (is_retryable max d) _ h).0

waiting-is_due :
    (max now : ℕ) (d : Delivery)
    → is_retryable max d ≡ true
    → cutoff_of d + due_age ≤ now
    → is_due now due_age max d ≡ true
unfolding is_due
waiting-is_due max now d r h = rw r (ground arith)

pub attempts_over :
    (max n : ℕ) (d : Delivery) → max ≤ 3 * n → 3 * n ≤ d.attempts → is_retryable max d ≡ false
unfolding is_retryable
attempts_over max n d enough k = ground arith

pub had_bursts :
    (since latest bursts : ℕ) (d : Delivery)
    → (cutoff_of d ≤ latest)
      × (((cutoff_of d ≤ since) × (3 * bursts ≤ d.attempts)) ⊎ (3 * (bursts + 1) ≤ d.attempts))
    → 3 * bursts ≤ d.attempts
had_bursts since latest bursts d (_, inl (_, had)) = had
had_bursts since latest bursts d (_, inr more) = omega (arith, more)

later-left : (a b : ℕ) → a ≤ later a b
later-left a b = ground arith

later-right : (a b : ℕ) → b ≤ later a b
later-right a b = ground arith

module _ (p : Pass) (max : ℕ) (calm : IsCalmPass p) where
  early_at :
      (d : Delivery)
      → is_retryable max d ≡ true
      → is_due p.at due_age max d ≡ false
      → p.at < cutoff_of d + due_age
  early_at d r early = elim (Bool-cases (leb (cutoff_of d + due_age) p.at)) [
    | inl le ↦ absurd (clash early (waiting-is_due max p.at d r (ground arith)))
    | inr gt ↦ ground arith
  ]

  step-id : (d : Delivery) → (step p.worlds max p.at d).id ≡ d.id
  unfolding step
  step-id d = elim (Bool-cases (is_due p.at due_age max d)) [
    | inl due ↦ rw due (after-id p.worlds max p.at (p.worlds d.id) d)
    | inr early ↦ rw early refl
  ]

  -- What a pass does to a delivery that may still be retried: it was tried once more, or was not due.
  step-cases :
      (d : Delivery)
      → ((is_retryable max d ≡ true)
          × ((step p.worlds max p.at d).attempts ≡ d.attempts + 3)
          × (cutoff_of (step p.worlds max p.at d) ≤ p.ends))
        ⊎ ((step p.worlds max p.at d ≡ d)
            × (is_retryable max d ≡ true → p.at < cutoff_of d + due_age))
  unfolding step
  step-cases d = elim (Bool-cases (is_due p.at due_age max d)) [
    | inl due ↦
        let (tries, last) = after-attempts p.worlds max p.at (p.worlds d.id) d (calm d.id).0 in
        let cut = cutoff-some (after (p.worlds d.id) max d) last in
        let bound = (calm d.id).1 in
        rw due (inl (is_due-retryable max p.at d due, tries, omega (arith, cut, bound)))
    | inr early ↦ rw early (inr (refl, λ r. early_at d r early))
  ]

  has_id-map : (id : String) (m : Store) → has_id id (map (step p.worlds max p.at) m) ≡ has_id id m
  unfolding has_id
  has_id-map id [] = refl
  has_id-map id (d ∷ m) = rw (step-id d, has_id-map id m) refl

  pub Distinct-map : (m : Store) → Distinct m → Distinct (map (step p.worlds max p.at) m)
  Distinct-map [] h = tt
  Distinct-map (d ∷ m) (new, h) = (
    ap (λ i. has_id i (map (step p.worlds max p.at) m)) (step-id d) ∙ has_id-map d.id m ∙ new,
    Distinct-map m h,
  )

  pub length-map : (m : Store) → length (map (step p.worlds max p.at) m) ≡ length m
  length-map [] = refl
  length-map (d ∷ m) = omega (arith, length-map m)

  -- A pass that counts adds a burst.
  pub step-counts :
      (since latest bursts : ℕ) (d : Delivery)
      → since + due_age ≤ p.at
      → IsWaiting max since latest bursts d
      → IsWaiting max
          (later latest p.ends)
          (later latest p.ends)
          (suc bursts)
          (step p.worlds max p.at d)
  step-counts since latest bursts d le h = elim (step-cases d) [
    | inl (again, tries, cut) ↦ λ r.
        let now = later-right latest p.ends in
        let had = had_bursts since latest bursts d (h again) in
        (omega (arith, now, cut), inl (omega (arith, now, cut), omega (arith, tries, had)))
    | inr (same, early) ↦
        subst (IsWaiting max (later latest p.ends) (later latest p.ends) (suc bursts)) (sym same)
          (λ r. (
            omega (arith, later-left latest p.ends, (h r).0),
            elim ((h r).1) [
              | inl (old, _) ↦ absurd (omega (arith, old, early r))
              | inr more ↦
                  inl (omega (arith, later-left latest p.ends, (h r).0), omega (arith, more))
            ],
          ))
  ]

  -- Any other pass keeps what a delivery has.
  pub step-keeps :
      (since latest bursts : ℕ) (d : Delivery)
      → IsWaiting max since latest bursts d
      → IsWaiting max since (later latest p.ends) bursts (step p.worlds max p.at d)
  step-keeps since latest bursts d h = elim (step-cases d) [
    | inl (again, tries, cut) ↦ λ r.
        let had = had_bursts since latest bursts d (h again) in
        (omega (arith, later-right latest p.ends, cut), inr (omega (arith, tries, had)))
    | inr (same, _) ↦
        subst (IsWaiting max since (later latest p.ends) bursts) (sym same)
          (λ r. (omega (arith, later-left latest p.ends, (h r).0), (h r).1))
  ]

  pub All-step :
      (since latest bursts since' latest' bursts' : ℕ) (m : Store)
      → ((d : Delivery)
          → IsWaiting max since latest bursts d
          → IsWaiting max since' latest' bursts' (step p.worlds max p.at d))
      → All (IsWaiting max since latest bursts) m
      → All (IsWaiting max since' latest' bursts') (map (step p.worlds max p.at) m)
  All-step since latest bursts since' latest' bursts' [] one h = tt
  All-step since latest bursts since' latest' bursts' (d ∷ m) one (here, h) =
      (one d here, All-step since latest bursts since' latest' bursts' m one h)
