-- ===== src/Scheduler/Cancel/Laws.antt =====
-- The origin of a cancellation in the snapshot (scheduler/cancel.go).
use cisync.Prelude.{
  ◌≡◌, refl, sym, subst, String, Bool, true, false, Option, none, some, List, [], ◌∷◌, ◌==◌,
  string_eq, if◌then◌else◌, arith, Bool-cases, Option-cases, inl, inr, ◌⊎◌, eq_iff, Memᴰ,
}
use cisync.Prelude.Maps.{lookup, lookup-insert}
use cisync.Prelude.Texts.{less}
use cisync.Prelude.Sort.{sort_by, sort_by-mem}
use cisync.Scheduler.Cancel.{
  Cause, CancelReason, RelationEdge, RunInfo, ClusterState, RunCancellation, Reasons, set_reason,
  is_live, edge_reason, skips, apply_reason, edge_loop, less_edge, start_reasons, reasons_of,
  run_loop, propagate_cancellation,
}

-- Why a candidate is a target: it is the superseded one, or an edge from it to the superseded one
-- propagates the cause.
abbrev pub Targeted : String → Cause → List RelationEdge → String → Type 0
Targeted id cause es q =
    (q ≡ id)
    ⊎ ((e : RelationEdge) × Memᴰ e es
        × (e.from_candidate_id ≡ q)
        × (e.to_candidate_id ≡ id)
        × ((r : CancelReason) × (edge_reason e.relation cause ≡ some r)))

lookup-set_reason :
    (m : Reasons) (id q : String) (reason r : CancelReason)
    → lookup q (set_reason m id reason) ≡ some r
    → (id ≡ q) ⊎ (lookup q m ≡ some r)
unfolding set_reason
lookup-set_reason m id q reason r h = elim (Bool-cases (id == q)) [
  | inl p ↦ inl ((eq_iff id q).0 p)
  | inr n ↦ inr (ground (arith, lookup-insert id q reason m))
]

abbrev by_run : RunInfo → RunInfo → Bool
by_run a b = less a.run_id b.run_id

abbrev step : String → Cause → Reasons → RelationEdge → Reasons
step id cause m e =
    if skips id e then m else apply_reason m e.from_candidate_id (edge_reason e.relation cause)

abbrev Kept : String → Reasons → Type 0
Kept q m = (x : CancelReason) × (lookup q m ≡ some x)

-- A key that an edge adds is the edge's source.
stepped :
    (id : String) (cause : Cause) (m : Reasons) (e : RelationEdge) (es : List RelationEdge)
    (q : String)
    → Kept q (step id cause m e)
    → Kept q m ⊎ Targeted id cause (e ∷ es) q
stepped id cause m e es q (r, h) = elim (Bool-cases (skips id e)) [
  | inl skip ↦ inl (r, rw skip at h)
  | inr used ↦ go used (edge_reason e.relation cause) refl (rw used at h)
]
  where
    go :
        skips id e ≡ false
        → (o : Option CancelReason) → edge_reason e.relation cause ≡ o
        → lookup q (apply_reason m e.from_candidate_id o) ≡ some r
        → Kept q m ⊎ Targeted id cause (e ∷ es) q
    go used none by at = inl (r, at)
    go used (some why) by at = elim (lookup-set_reason m e.from_candidate_id q why r at) [
      | inr old ↦ inl (r, old)
      | inl source ↦
          inr (
            inr (e, Memᴰ.head refl, source, ground (arith, eq_iff e.to_candidate_id id), (why, by)))
    ]

Targeted-cons :
    (id : String) (cause : Cause) (e : RelationEdge) (es : List RelationEdge) (q : String)
    → Targeted id cause es q
    → Targeted id cause (e ∷ es) q
Targeted-cons id cause e es q (inl self) = inl self
Targeted-cons id cause e es q (inr (x, m, a, b, c)) = inr (x, Memᴰ.tail m, a, b, c)

-- Every key after the loop was there before, or is the source of an edge that propagates.
looped :
    (id : String) (cause : Cause) (m : Reasons) (es : List RelationEdge) (q : String)
    → Kept q (edge_loop id cause m es)
    → Kept q m ⊎ Targeted id cause es q
unfolding edge_loop
looped id cause m [] q k = inl k
looped id cause m (e ∷ es) q k = elim (looped id cause (step id cause m e) es q k) [
  | inr t ↦ inr (Targeted-cons id cause e es q t)
  | inl before ↦ stepped id cause m e es q before
]

started : (id q : String) → Kept q (start_reasons id) → q ≡ id
started id q (r, h) = elim (Bool-cases (id == "")) [
  | inl none_given ↦ absurd (ground arith)
  | inr given ↦ ground (arith, eq_iff id q)
]

reasons-Targeted :
    (s : ClusterState) (id : String) (cause : Cause) (q : String)
    → Kept q (reasons_of s id cause)
    → Targeted id cause s.edges q
unfolding reasons_of
reasons-Targeted s id cause q k =
    elim (looped id cause (start_reasons id) (sort_by less_edge s.edges) q k) [
      | inl self ↦ inl (started id q self)
      | inr t ↦ unsorted t
    ]
  where
    unsorted : Targeted id cause (sort_by less_edge s.edges) q → Targeted id cause s.edges q
    unsorted (inl self) = inl self
    unsorted (inr (x, m, a, b, c)) = inr (x, sort_by-mem less_edge x s.edges m, a, b, c)

-- What a cancellation of a run stands for.
abbrev From : Reasons → List RunInfo → RunCancellation → Type 0
From m rs x =
    (r : RunInfo) × Memᴰ r rs
    × (is_live r.state ≡ true)
    × (x.run_id ≡ r.run_id)
    × (x.fence_token ≡ r.fence_token)
    × (lookup r.candidate_id m ≡ some x.reason)

From-cons :
    (m : Reasons) (r : RunInfo) (rs : List RunInfo) (x : RunCancellation)
    → From m rs x
    → From m (r ∷ rs) x
From-cons m r rs x (y, t, a, b, c, d) = (y, Memᴰ.tail t, a, b, c, d)

abbrev cancellation : RunInfo → CancelReason → RunCancellation
cancellation r reason = record {
  run_id = r.run_id;
  candidate_id = r.candidate_id;
  fence_token = r.fence_token;
  reason = reason;
}

From-head :
    (m : Reasons) (r : RunInfo) (rs : List RunInfo) (x : RunCancellation) (reason : CancelReason)
    → lookup r.candidate_id m ≡ some reason
    → is_live r.state ≡ true
    → (Memᴰ x (run_loop m rs) → From m rs x)
    → Memᴰ x (cancellation r reason ∷ run_loop m rs)
    → From m (r ∷ rs) x
From-head m r rs x reason found live f (Memᴰ.tail t) = From-cons m r rs x (f t)
From-head m r rs x reason found live f (Memᴰ.head e) =
    subst (From m (r ∷ rs)) (sym e) (r, Memᴰ.head refl, live, refl, refl, found)

run_loop-From :
    (m : Reasons) (rs : List RunInfo) (x : RunCancellation) → Memᴰ x (run_loop m rs) → From m rs x
unfolding run_loop
run_loop-From m [] x t = elim t [ ]
run_loop-From m (r ∷ rs) x t = elim (Option-cases (lookup r.candidate_id m)) [
  | inl gone ↦ From-cons m r rs x (run_loop-From m rs x (rw (gone, run_loop) at t))
  | inr (reason, found) ↦ elim (Bool-cases (is_live r.state)) [
    | inr over ↦ From-cons m r rs x (run_loop-From m rs x (rw (found, over, run_loop) at t))
    | inl live ↦
        From-head m r rs x reason found live (run_loop-From m rs x)
          (rw (found, live, run_loop) at t)
  ]
]

-- Every cancellation of a run is for a run of the snapshot that is queued, dispatched or running,
-- carries that run's own fence token, and is due: the run's candidate is the superseded one, or an
-- edge from it to the superseded one propagates the cause.
pub cancellations_due :
    (s : ClusterState) (id : String) (cause : Cause) (x : RunCancellation)
    → Memᴰ x (propagate_cancellation s id cause).runs
    → (r : RunInfo) × Memᴰ r s.runs
      × (is_live r.state ≡ true)
      × (x.run_id ≡ r.run_id)
      × (x.fence_token ≡ r.fence_token)
      × Targeted id cause s.edges r.candidate_id
unfolding propagate_cancellation
cancellations_due s id cause x t =
    let (r, m, live, same, fence, found) =
      run_loop-From (reasons_of s id cause) (sort_by by_run s.runs) x t in
    (
      r,
      sort_by-mem by_run r s.runs m,
      live,
      same,
      fence,
      reasons-Targeted s id cause r.candidate_id (x.reason, found),
    )
