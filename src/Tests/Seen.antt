-- ===== src/Tests/Seen.antt =====
-- A cache of two entries that three content classes pass through (ingest/internal/seen/lru.go).
use cisync.Prelude.{take, ◌≡◌, refl, ℕ, String, true, List, [], ◌∷◌}
use cisync.Prelude.Int.{pos}
use cisync.Ingest.Seen.{
  Cache, new, find, remove_element, delete, remove, back, evict, add, is_fresh, element,
  seen_or_add,
}
use cisync.Ingest.Seen.Laws.{IsValid, new-IsValid, seen_or_add-IsValid}
use cisync.Ingest.Seen.Window.{answer, seen_or_add_lem}
use cisync.Ingest.Seen.Replay.{run}

abbrev empty : Cache
empty = new (pos 2) (pos 100)

abbrev deliveries : List (String × ℕ)
deliveries = ("a", 10) ∷ ("b", 20) ∷ ("a", 30) ∷ ("c", 40) ∷ []

abbrev full : Cache
full = run empty deliveries

full_order : full.order ≡ record { key = "c"; stamp = 40 } ∷ record { key = "a"; stamp = 30 } ∷ []
unfolding run seen_or_add element find is_fresh add evict back remove remove_element delete new
full_order = refl

suspect : (seen_or_add full "a" 50).1 ≡ true
unfolding run seen_or_add element find is_fresh add evict back remove remove_element delete new
suspect = refl

seen_or_add_lem_example :
    ((seen_or_add empty "a" 10).1 ≡ answer empty (find "a" empty.order) 10)
    × ((seen_or_add empty "a" 10).0.order
        ≡ take empty.max (record { key = "a"; stamp = 10 } ∷ remove_element "a" empty.order))
seen_or_add_lem_example = seen_or_add_lem empty "a" 10 (new-IsValid (pos 2) (pos 100))

seen_or_add-IsValid_example : IsValid (seen_or_add empty "a" 10).0
seen_or_add-IsValid_example = seen_or_add-IsValid empty "a" 10 (new-IsValid (pos 2) (pos 100))
