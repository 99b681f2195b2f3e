-- ===== src/Tests/Policy.antt =====
-- Patterns and policy resolution at concrete inputs (control-plane/internal/policy).
use cisync.Prelude.{◌≡◌, ◌↔◌, refl, true, false, List, [], ◌∷◌, some, Memᴰ, All, arith}
use cisync.Policy.Document.{Subject, PolicyRecord, records}
use cisync.Policy.DefaultPack.{default_registry, catch_all_pack, default_pack}
use cisync.Policy.Glob.{bytes, split, match_glob, match_one_segment}
use cisync.Policy.Glob.Spec.{MatchesPath}
use cisync.Policy.Glob.Path.{match_glob_lem}
use cisync.Policy.Resolve.{resolve, ok, err, no_active_policy}
use cisync.Policy.Resolve.Laws.{resolve_best, resolve_fails_closed, Applies, NotAbove, resolved}
use cisync.Policy.Compiled.{no_actor_catch_all}

deep_match : match_glob "services/checkout/**" "services/checkout/api/cart.go" ≡ true
unfolding match_glob
deep_match = refl

stars_go_back : match_one_segment (bytes "*ab*c") (bytes "aabxbc") ≡ true
unfolding match_one_segment
stars_go_back = refl

other_root : match_glob "auth/**" "src/auth/key.go" ≡ false
unfolding match_glob
other_root = refl

-- A name with a star of its own: the byte matches the star as itself, and the loop cannot go back.
star_in_name : match_glob "*" "*x" ≡ false
unfolding match_glob
star_in_name = refl

-- The empty name has one segment.
star_on_nothing : match_glob "*" "" ≡ true
unfolding match_glob
star_on_nothing = refl

match_glob_lem_example :
    (match_glob "lib/*.go" "lib/a.go" ≡ true)
    ↔ MatchesPath (split (bytes "lib/*.go")) (split (bytes "lib/a.go"))
match_glob_lem_example = match_glob_lem "lib/*.go" "lib/a.go" (λ e. absurd (cc)) (omega arith)

abbrev checkout : Subject
checkout = record {
  repo = "acme/payments";
  changed_paths = "services/checkout/pay.go" ∷ [];
  risk_class = "high";
  actor = "agent:dev";
}

abbrev packs : List PolicyRecord
packs = catch_all_pack ∷ default_pack ∷ []

payments_govern : resolve checkout (some (records packs)) ≡ ok (resolved default_pack)
unfolding resolve
payments_govern = refl

resolve_best_example :
    (rec : PolicyRecord) × Memᴰ rec packs
    × Applies checkout rec
    × (resolved default_pack ≡ resolved rec)
    × ((other : PolicyRecord) → Memᴰ other packs → Applies checkout other → NotAbove other rec)
resolve_best_example = resolve_best checkout packs payments_govern

resolve_fails_closed_example :
    (resolve checkout (some (records [])) ≡ err no_active_policy)
    ↔ All (λ rec. Applies checkout rec → ⊥) []
resolve_fails_closed_example = resolve_fails_closed checkout []

no_actor_catch_all_example :
    resolve (record checkout { actor = "" }) (some default_registry) ≡ ok (resolved catch_all_pack)
no_actor_catch_all_example = no_actor_catch_all (record checkout { actor = "" }) refl
