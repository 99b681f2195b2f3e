-- ===== src/Policy/Resolve.antt =====
-- services/control-plane/internal/policy/resolve.go: which active policy governs a subject.
pub mod Laws
use cisync.Prelude.{
  ℕ, String, Bool, true, false, not, ◌&&◌, ◌||◌, Option, none, some, List, [], ◌∷◌, if◌then◌else◌,
  ltb, ◌==◌, string_eq, nat_eq, contains,
}
use cisync.Prelude.Int.{ℤ, pos, lt_int, eq_int}
use cisync.Prelude.Texts.{less}
use cisync.Policy.Document.{
  ScopeSelectors, Subject, PolicyRecord, ResolvedPolicy, Answer, failed, records,
}
use cisync.Policy.Glob.{match_glob}

pub data ResolveError : Type 0 where
  no_active_policy registry_failed : ResolveError

pub data Resolution : Type 0 where
  ok : ResolvedPolicy → Resolution
  err : ResolveError → Resolution

unfoldable pub match_any_glob : List String → String → Bool
unfolding match_glob
match_any_glob [] value = false
match_any_glob (p ∷ patterns) value = match_glob p value || match_any_glob patterns value

-- The loop over the changed paths.
unfoldable pub any_path : List String → List String → Bool
unfolding match_any_glob
any_path patterns [] = false
any_path patterns (p ∷ paths) = match_any_glob patterns p || any_path patterns paths

abbrev pub is_empty : List String → Bool
is_empty [] = true
is_empty (x ∷ xs) = false

-- The last `switch` of `matchSpecificity`.
abbrev pub specificity : ScopeSelectors → ℕ
specificity sel = if not (is_empty sel.paths) then 4 else if not (is_empty sel.repos) then 2 else 0

-- `none` is the answer false.
unfoldable pub match_specificity : ScopeSelectors → Subject → Option ℕ
unfolding any_path match_any_glob
match_specificity sel s =
    if not (is_empty sel.repos) && not (match_any_glob sel.repos s.repo)
    then none
    else if not (is_empty sel.paths) && not (any_path sel.paths s.changed_paths)
    then none
    else if not (is_empty sel.risk_classes) && not (contains sel.risk_classes s.risk_class)
    then none
    else if not (is_empty sel.actors.agents) && not (match_any_glob sel.actors.agents s.actor)
    then none
    else if not (is_empty sel.actors.exclude) && match_any_glob sel.actors.exclude s.actor
    then none
    else some (specificity sel)

-- A record with the rank of its match, as the loop holds the best one.
pub record Ranked : Type 0 where
  pub spec : ℕ
  pub rec : PolicyRecord

-- `better`, once there is a best.
unfoldable pub beats : Ranked → Ranked → Bool
beats a b =
    if not (a.spec == b.spec)
    then ltb b.spec a.spec
    else if not (eq_int a.rec.version b.rec.version)
    then lt_int b.rec.version a.rec.version
    else less b.rec.id a.rec.id

unfoldable pub better : Ranked → Option Ranked → Ranked
unfolding beats
better a none = a
better a (some b) = if beats a b then a else b

-- The two `continue`s of the loop.
unfoldable pub candidate : Subject → PolicyRecord → Option Ranked
unfolding match_specificity
candidate s rec =
    if not (rec.status == "active")
      || ((rec.body.policy_id == "") || not (lt_int (pos 0) rec.version))
    then none
    else elim (match_specificity rec.body.scope_selectors s) [
      | none ↦ none
      | some spec ↦ some (record { spec = spec; rec = rec })
    ]

unfoldable pub keep_better : Option Ranked → Option Ranked → Option Ranked
unfolding better
keep_better none best = best
keep_better (some a) best = some (better a best)

unfoldable pub best_loop : Subject → List PolicyRecord → Option Ranked → Option Ranked
unfolding candidate keep_better
best_loop s [] best = best
best_loop s (rec ∷ recs) best = best_loop s recs (keep_better (candidate s rec) best)

unfoldable pub stamp : Option Ranked → Resolution
stamp none = err no_active_policy
stamp (some w) = ok (record { policy_id = w.rec.id; version = w.rec.version; body = w.rec.body })

unfoldable pub answer : Subject → Answer → Resolution
unfolding best_loop stamp
answer s failed = err registry_failed
answer s (records recs) = stamp (best_loop s recs none)

-- The registry may be nil.
unfoldable pub resolve : Subject → Option Answer → Resolution
unfolding answer
resolve s none = err no_active_policy
resolve s (some reg) = answer s reg

unfoldable pub record_less : PolicyRecord → PolicyRecord → Bool
record_less a b = if not (a.id == b.id) then less a.id b.id else lt_int a.version b.version
