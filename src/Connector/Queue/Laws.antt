-- ===== src/Connector/Queue/Laws.antt =====
-- Sequences of operations of the pending writes (queue/pending.go, drainer.go).
use mathlib.Core.Option.{some_inj}
use cisync.Prelude.{
  ℕ, suc, ◌+◌, ◌≤◌, ◌≡◌, ◌≢◌, refl, sym, ap, ◌∙◌, subst, String, true, false, ◌==◌, string_eq,
  Option, none, some, List, [], ◌∷◌, ◌++◌, Memᴰ, All, arith, Bool-cases, Option-cases, inl, inr,
  eq_iff,
}
use cisync.Prelude.Maps.{
  lookup, insert, lookup-insert, lookup-insert_ne, lookup-insert_self, lookup-delete,
}
use cisync.Connector.Gate.{GoError, gate_do}
use cisync.Connector.Queue.Order.{Memᴰ-last, Memᴰ-before, remove_first-mem}
use cisync.Connector.Queue.{
  PendingWrite, MemoryStore, World, put_off, enqueue, by_key, filled, store_write, mark_delivered,
  reschedule, settle, wait_for, deliver_one, deliver_all, due, tick,
}

-- The write, but for the time of its next attempt and the count of those made.
abbrev pub SameWrite : PendingWrite → PendingWrite → Type 0
SameWrite v w =
    (v.id ≡ w.id)
    × (v.key ≡ w.key)
    × (v.installation_id ≡ w.installation_id)
    × (v.repo ≡ w.repo)
    × (v.op ≡ w.op)
    × (v.check_run_id ≡ w.check_run_id)
    × (v.payload ≡ w.payload)
    × (v.created_at ≡ w.created_at)

-- The write is stored under the id, and the order that `Due` goes through lists the id.
abbrev pub Waits : String → PendingWrite → MemoryStore → Type 0
Waits id w m = (v : PendingWrite) × (lookup id m.writes ≡ some v) × SameWrite w v × Memᴰ id m.order

reschedule-Waits :
    (id other : String) (next attempts : ℕ) (w : PendingWrite) (m : MemoryStore)
    → Waits id w m
    → Waits id w (reschedule other next attempts m)
unfolding reschedule
reschedule-Waits id other next attempts w m (v, found, kept, listed) =
    elim (Option-cases (lookup other m.writes)) [
      | inl e ↦ rw (e, reschedule) (v, found, kept, listed)
      | inr (u, e) ↦
          rw (e, reschedule)
            (elim (Bool-cases (other == id)) [
              | inl self ↦
                  let same = (eq_iff other id).0 self in
                  (
                    put_off next attempts u,
                    lookup-insert other id (put_off next attempts u) m.writes ∙ rw self refl,
                    subst (SameWrite w)
                        (some_inj.0 (sym found ∙ ap (λ k. lookup k m.writes) (sym same) ∙ e)) kept,
                    listed,
                  )
              | inr differ ↦ (
                v,
                lookup-insert other id (put_off next attempts u) m.writes ∙ rw differ found,
                kept,
                listed,
              )
            ])
    ]

mark_delivered-Waits :
    (id other : String) (w : PendingWrite) (m : MemoryStore)
    → (other == id) ≡ false
    → Waits id w m
    → Waits id w (mark_delivered other m)
unfolding mark_delivered
mark_delivered-Waits id other w m differ (v, found, kept, listed) = (
  v,
  lookup-delete other id m.writes ∙ rw differ found,
  kept,
  remove_first-mem other m.order differ listed,
)

settle-Waits :
    (id : String) (x : World) (v w : PendingWrite) (m : MemoryStore) (e : Option GoError)
    → ((v.id == id) ≡ true → e ≢ none)
    → Waits id w m
    → Waits id w (settle x v e m)
unfolding settle
settle-Waits id x v w m none fails h = elim (Bool-cases (v.id == id)) [
  | inl self ↦ absurd (fails self refl)
  | inr differ ↦ mark_delivered-Waits id v.id w m differ h
]
settle-Waits id x v w m (some GoError.budget_exhausted) fails h =
    reschedule-Waits id v.id (x.now + wait_for x.retry_in) v.attempts w m h
settle-Waits id x v w m (some (GoError.abuse t)) fails h = reschedule-Waits id v.id _ _ w m h
settle-Waits id x v w m (some GoError.primary_limit) fails h = reschedule-Waits id v.id _ _ w m h
settle-Waits id x v w m (some (GoError.response c t)) fails h = reschedule-Waits id v.id _ _ w m h
settle-Waits id x v w m (some GoError.context_over) fails h = reschedule-Waits id v.id _ _ w m h
settle-Waits id x v w m (some GoError.other) fails h = reschedule-Waits id v.id _ _ w m h

deliver_all-Waits :
    (worlds : String → World) (id : String) (w : PendingWrite) (ws : List PendingWrite)
    (m : MemoryStore)
    → gate_do (worlds id).gate ≢ none
    → Waits id w m
    → Waits id w (deliver_all worlds ws m)
unfolding deliver_all deliver_one
deliver_all-Waits worlds id w [] m fails h = h
deliver_all-Waits worlds id w (v ∷ ws) m fails h =
    deliver_all-Waits worlds id w ws (deliver_one (worlds v.id) v m) fails (
      settle-Waits id (worlds v.id) v w m (gate_do (worlds v.id).gate)
        (λ self e. fails (subst (λ k. gate_do (worlds k).gate ≡ none) ((eq_iff v.id id).0 self) e))
        h)

-- `Enqueue` at a time, or a pass of the drainer at a time in the worlds of its writes.
pub data Step : Type 0 where
  push : ℕ → PendingWrite → Step
  pass : (String → World) → ℕ → Step

unfoldable pub step : (ℕ → ℕ → String) → MemoryStore → Step → MemoryStore
unfolding enqueue tick
step name m (push now w) = enqueue name now w m
step name m (pass worlds now) = tick worlds now m

unfoldable pub run : (ℕ → ℕ → String) → MemoryStore → List Step → MemoryStore
unfolding step
run name m [] = m
run name m (s ∷ steps) = run name (step name m s) steps

-- The step enqueues a write without an id of its own, or does not succeed in delivering `id`.
abbrev pub LeavesAlone : String → Step → Type 0
LeavesAlone id (push now w) = w.id ≡ ""
LeavesAlone id (pass worlds now) = gate_do (worlds id).gate ≢ none

-- What is kept: the write waits, and the numbers handed out are not smaller than its own.
abbrev Kept : String → ℕ → PendingWrite → MemoryStore → Type 0
Kept id number w m = Waits id w m × (number ≤ m.seq)

filled_id :
    (fresh : String) (now : ℕ) (v : PendingWrite) → v.id ≡ "" → (filled fresh now v).id ≡ fresh
unfolding filled
filled_id fresh now v e = rw e refl

reschedule-seq :
    (id : String) (next attempts : ℕ) (m : MemoryStore)
    → (reschedule id next attempts m).seq ≡ m.seq
unfolding reschedule
reschedule-seq id next attempts m = elim (Option-cases (lookup id m.writes)) [
  | inl e ↦ rw (e, reschedule) refl
  | inr (u, e) ↦ rw (e, reschedule) refl
]

settle-seq :
    (x : World) (v : PendingWrite) (e : Option GoError) (m : MemoryStore)
    → (settle x v e m).seq ≡ m.seq
unfolding settle mark_delivered
settle-seq x v none m = refl
settle-seq x v (some GoError.budget_exhausted) m = reschedule-seq v.id _ _ m
settle-seq x v (some (GoError.abuse t)) m = reschedule-seq v.id _ _ m
settle-seq x v (some GoError.primary_limit) m = reschedule-seq v.id _ _ m
settle-seq x v (some (GoError.response c t)) m = reschedule-seq v.id _ _ m
settle-seq x v (some GoError.context_over) m = reschedule-seq v.id _ _ m
settle-seq x v (some GoError.other) m = reschedule-seq v.id _ _ m

deliver_all-seq :
    (worlds : String → World) (ws : List PendingWrite) (m : MemoryStore)
    → (deliver_all worlds ws m).seq ≡ m.seq
unfolding deliver_all deliver_one
deliver_all-seq worlds [] m = refl
deliver_all-seq worlds (v ∷ ws) m =
    deliver_all-seq worlds ws (deliver_one (worlds v.id) v m)
    ∙ settle-seq (worlds v.id) v (gate_do (worlds v.id).gate) m

module _ (name : ℕ → ℕ → String)
    (apart : (now later n k : ℕ) → name now n ≡ name later k → n ≡ k) where
  newer :
      (now made number : ℕ) (v : PendingWrite) (m : MemoryStore)
      → v.id ≡ ""
      → number ≤ m.seq
      → (filled (name now (suc m.seq)) now v).id ≢ name made number
  newer now made number v m unnamed le e =
      let same =
        apart now made (suc m.seq) number
          (sym (filled_id (name now (suc m.seq)) now v unnamed) ∙ e) in
      absurd (omega arith)

  enqueue-Kept :
      (now made number : ℕ) (v w : PendingWrite) (m : MemoryStore)
      → v.id ≡ ""
      → Kept (name made number) number w m
      → Kept (name made number) number w (enqueue name now v m)
  unfolding enqueue filled store_write
  enqueue-Kept now made number v w m unnamed ((u, found, kept, listed), le) =
      elim (Bool-cases (by_key v.key m.writes m.order)) [
        | inl e ↦ rw (e, enqueue) ((u, found, kept, listed), le)
        | inr e ↦
            rw (e, enqueue)
              (
                (
                  u,
                  lookup-insert_ne (filled (name now (suc m.seq)) now v).id (name made number)
                        (filled (name now (suc m.seq)) now v) m.writes
                        (newer now made number v m unnamed le)
                      ∙ found,
                  kept,
                  Memᴰ-before (filled (name now (suc m.seq)) now v).id m.order listed,
                ),
                omega arith,
              )
      ]

  run-Kept :
      (made number : ℕ) (w : PendingWrite) (steps : List Step) (m : MemoryStore)
      → All (LeavesAlone (name made number)) steps
      → Kept (name made number) number w m
      → Kept (name made number) number w (run name m steps)
  unfolding run tick
  run-Kept made number w [] m calm h = h
  run-Kept made number w (push now v ∷ steps) m (unnamed, calm) h =
      run-Kept made number w steps (enqueue name now v m) calm
        (enqueue-Kept now made number v w m unnamed h)
  run-Kept made number w (pass worlds now ∷ steps) m (fails, calm) (h, le) =
      run-Kept made number w steps (tick worlds now m) calm (
        deliver_all-Waits worlds (name made number) w (due now 25 m) m fails h,
        subst (λ k. number ≤ k) (sym (deliver_all-seq worlds (due now 25 m) m)) le,
      )

  -- A write never leaves the queue silently: one that is enqueued without an id and with a new key
  -- waits, stored and listed in the order that `Due` goes through, unchanged but for its next attempt
  -- and its count, after any further enqueues without ids and passes of the drainer in none of which
  -- the gate succeeds for it, if ids differ where their numbers do.
  pub never_dropped :
      (now : ℕ) (w : PendingWrite) (m : MemoryStore) (steps : List Step)
      → w.id ≡ ""
      → by_key w.key m.writes m.order ≡ false
      → All (LeavesAlone (name now (suc m.seq))) steps
      → Waits
          (name now (suc m.seq))
          (filled (name now (suc m.seq)) now w)
          (run name (enqueue name now w m) steps)
  unfolding enqueue store_write
  never_dropped now w m steps unnamed new calm =
      let v = filled (name now (suc m.seq)) now w in
      let at = filled_id (name now (suc m.seq)) now w unnamed in
      (run-Kept now (suc m.seq) v steps (enqueue name now w m) calm (
        rw (new, enqueue)
          (
            (
              v,
              subst (λ k. lookup k (insert v.id v m.writes) ≡ some v) at
                  (lookup-insert_self v.id v m.writes),
              (refl, refl, refl, refl, refl, refl, refl, refl),
              subst (λ k. Memᴰ k (m.order ++ (v.id ∷ []))) at (Memᴰ-last m.order v.id),
            ),
            omega arith,
          ))).0
