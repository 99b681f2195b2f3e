-- ===== src/Ingest/Retry/Liveness.antt =====
-- The worker of retry/worker.go over several scans.
use cisync.Prelude.{
  List, leb, ℕ, suc, ◌+◌, ◌*◌, ◌≤◌, ◌≡◌, subst, true, false, [], ◌∷◌, map, All, All-map, Bool-cases,
  arith, string_eq, length, inl, inr,
}
use cisync.Ingest.Deliveries.{Delivery, Store, is_retryable, cutoff_of}
use cisync.Ingest.Retry.{due_age}
use cisync.Ingest.Retry.Settles.{Distinct, step, scan_once-step}
use cisync.Ingest.Retry.Passes.{
  Pass, passes, later, rounds, IsCalmPass, IsWaiting, had_bursts, attempts_over, Distinct-map,
  length-map, step-counts, step-keeps, All-step,
}

passes-IsWaiting :
    (ps : List Pass) (max since latest bursts : ℕ) (m : Store)
    → All IsCalmPass ps
    → length m ≤ 100
    → Distinct m
    → All (IsWaiting max since latest bursts) m
    → (s l : ℕ) × All (IsWaiting max s l (bursts + rounds since latest ps)) (passes max ps m)
unfolding passes rounds
passes-IsWaiting [] max since latest bursts m calm few dist h =
    (since, latest, subst (λ b. All (IsWaiting max since latest b) m) (omega arith) h)
passes-IsWaiting (p ∷ ps) max since latest bursts m (calm, later_calm) few dist h =
    let now = later latest p.ends in
    let m' = map (step p.worlds max p.at) m in
    let stepped = scan_once-step p.worlds max p.at m (λ id. (calm id).0) few dist in
    let few' : length m' ≤ 100 = omega (arith, length-map p max calm m) in
    let dist' = Distinct-map p max calm m dist in
    elim (Bool-cases (leb (since + due_age) p.at)) [
      | inl counts ↦
          let le : since + due_age ≤ p.at = ground arith in
          let (s, l, all) = passes-IsWaiting ps max now now (suc bursts) m' later_calm few' dist' (
            All-step p max calm since latest bursts now now (suc bursts) m
              (λ d. step-counts p max calm since latest bursts d le) h) in
          (
            s,
            l,
            rw (stepped, counts)
                (subst (λ b. All (IsWaiting max s l b) (passes max ps m')) (omega arith) all),
          )
      | inr between ↦
          let (s, l, all) = passes-IsWaiting ps max since now bursts m' later_calm few' dist' (
            All-step p max calm since latest bursts since now bursts m
              (λ d. step-keeps p max calm since latest bursts d) h) in
          (s, l, rw (stepped, between) all)
    ]

-- Every delivery comes to an end, whatever the control plane answers: after passes of the worker that
-- start at any times, none may be retried any more (each is forwarded, rejected or out of attempts),
-- if three attempts in each of the `rounds` among them are the budget at least. `rounds` counts the
-- passes that start 30 seconds or more after `since` and after every clock reading up to the end of
-- the last one counted. The conditions: each delivery that may be retried was received or last tried
-- at `since` at most, the store holds at most 100 deliveries of different ids, and the worker is not
-- cancelled.
pub deliveries_settle :
    (ps : List Pass) (max since : ℕ) (m : Store)
    → All IsCalmPass ps
    → length m ≤ 100
    → Distinct m
    → All (λ d. is_retryable max d ≡ true → cutoff_of d ≤ since) m
    → max ≤ 3 * rounds since since ps
    → All (λ d. is_retryable max d ≡ false) (passes max ps m)
deliveries_settle ps max since m calm few dist old enough =
    let n = rounds since since ps in
    let (s, l, all) =
      passes-IsWaiting ps max since since 0 m calm few dist
        (All-map _ _ (λ d h r. (h r, inl (h r, omega arith))) m old) in
    All-map (IsWaiting max s l (0 + n)) (λ d. is_retryable max d ≡ false) (λ d h. ended d h) _ all
  where
    ended :
        {s l : ℕ} (d : Delivery)
        → IsWaiting max s l (0 + rounds since since ps) d
        → is_retryable max d ≡ false
    ended {s} {l} d h = elim (Bool-cases (is_retryable max d)) [
      | inr over ↦ over
      | inl again ↦
          attempts_over max (rounds since since ps) d enough
            (omega (arith, had_bursts s l (0 + rounds since since ps) d (h again)))
    ]
