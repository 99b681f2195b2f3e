-- ===== src/Tests/Cancel.antt =====
-- The duplicate of an eligible candidate (control-plane/internal/scheduler/cancel.go).
use cisync.Prelude.{◌≡◌, refl, ℕ, true, [], ◌∷◌, Memᴰ}
use cisync.Prelude.Sort.{place, sort_by}
use cisync.Scheduler.Cancel.{
  eligible, dominated_duplicate, RunInfo, ClusterState, RunCancellation, set_reason, is_live,
  edge_reason, edge_loop, reasons_of, run_loop, propagate_cancellation,
}
use cisync.Scheduler.Cancel.Laws.{Targeted, cancellations_due}

abbrev snapshot : ClusterState
snapshot = record {
  edges = record { from_candidate_id = "b"; to_candidate_id = "a"; relation = "duplicate_of" } ∷ [];
  runs =
      record { run_id = "r2"; candidate_id = "b"; state = "running"; fence_token = 4 }
      ∷ record { run_id = "r1"; candidate_id = "b"; state = "failed"; fence_token = 1 }
      ∷ record { run_id = "r3"; candidate_id = "c"; state = "queued"; fence_token = 2 }
      ∷ [];
}

abbrev killed : RunCancellation
killed = record { run_id = "r2"; candidate_id = "b"; fence_token = 4; reason = dominated_duplicate }

kills : (propagate_cancellation snapshot "a" eligible).runs ≡ killed ∷ []
unfolding propagate_cancellation run_loop reasons_of edge_loop edge_reason set_reason is_live
    sort_by place
kills = refl

cancellations_due_example :
    (r : RunInfo) × Memᴰ r snapshot.runs
    × (is_live r.state ≡ true)
    × ("r2" ≡ r.run_id)
    × (◌≡◌ {A = ℕ} 4 r.fence_token)
    × Targeted "a" eligible snapshot.edges r.candidate_id
unfolding propagate_cancellation run_loop reasons_of edge_loop edge_reason set_reason is_live
    sort_by place
cancellations_due_example = cancellations_due snapshot "a" eligible killed (Memᴰ.head refl)
