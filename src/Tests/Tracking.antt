-- ===== src/Tests/Tracking.antt =====
-- A revision whose decision is replaced, in the store of check reports.
use cisync.Prelude.{◌≡◌, refl, String, false, none, some, map, [], ◌∷◌}
use cisync.Prelude.Int.{pos}
use cisync.Prelude.Sort.{sort_by}
use cisync.Connector.Tracking.{
  Record, MemoryStore, new_memory_store, record_check_report, find_by_decision, open_check_reports,
}

abbrev report : String → Record
report decision_id = record {
  candidate_id = "c1";
  head_sha = "abc";
  repo = "acme/shop";
  check_run_id = pos 7;
  phase = "in_progress";
  conclusion = "";
  decision_id = decision_id;
  last_decision = none;
  stalled = false;
  updated_at = 0;
}

abbrev decided_twice : MemoryStore
decided_twice =
    record_check_report 6 (report "d2") (record_check_report 5 (report "d1") new_memory_store)

old_still_found :
    find_by_decision "d1" decided_twice ≡ some (record (report "d2") { updated_at = 6 })
unfolding find_by_decision record_check_report
old_still_found = refl

still_open : map (λ (r : Record). r.decision_id) (open_check_reports 7 10 decided_twice) ≡ "d2" ∷ []
unfolding open_check_reports record_check_report sort_by
still_open = refl
