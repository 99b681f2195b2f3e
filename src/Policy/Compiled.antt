-- ===== src/Policy/Compiled.antt =====
-- `Resolve` of policy/resolve.go on the compiled-in registry of policy/default_pack.go.
use cisync.Prelude.{
  ◌≡◌, refl, false, none, some, [], ◌∷◌, Option-cases, arith, is_some, if◌then◌else◌, inl, inr, ◌∙◌,
  ap,
}
use cisync.Policy.Document.{Subject}
use cisync.Policy.DefaultPack.{default_registry, catch_all_pack, default_pack}
use cisync.Policy.Resolve.{resolve, keep_better, candidate, match_any_glob, ok}
use cisync.Policy.Resolve.Laws.{resolved, rank, candidate-Applies, Wild}

catch_all_applies : (s : Subject) → candidate s catch_all_pack ≡ some (rank catch_all_pack)
unfolding candidate
catch_all_applies s = refl

-- With the compiled-in packs every subject resolves: to the payments pack where that applies, and
-- to the wildcard pack otherwise.
pub compiled_resolves :
    (s : Subject)
    → resolve s (some default_registry)
      ≡ ok (resolved (if is_some (candidate s default_pack) then default_pack else catch_all_pack))
unfolding resolve
compiled_resolves s = elim (Option-cases (candidate s default_pack)) [
  | inl e ↦ rw (catch_all_applies s, e, keep_better) refl
  | inr (a, e) ↦
      rw (catch_all_applies s, e, (candidate-Applies s default_pack e).1, keep_better) refl
]

no_agent_matches : match_any_glob ("agent:*" ∷ []) "" ≡ false
unfolding match_any_glob
no_agent_matches = refl

no_actor_none : (s : Subject) → s.actor ≡ "" → candidate s default_pack ≡ none
no_actor_none s h = elim (Option-cases (candidate s default_pack)) [
  | inl e ↦ e
  | inr (a, e) ↦
      let f = (candidate-Applies s default_pack e).0.fits.fits_actor in absurd (no_agent f)
]
  where
    no_agent : Wild ("agent:*" ∷ []) (match_any_glob ("agent:*" ∷ []) s.actor) → ⊥
    no_agent (inl e) = absurd (cc)
    no_agent (inr e) =
        absurd (ground (arith, no_agent_matches, ap (match_any_glob ("agent:*" ∷ [])) h))

-- A subject that names no actor is never governed by the payments pack.
pub no_actor_catch_all :
    (s : Subject) → s.actor ≡ "" → resolve s (some default_registry) ≡ ok (resolved catch_all_pack)
no_actor_catch_all s h = compiled_resolves s ∙ rw (no_actor_none s h) refl
