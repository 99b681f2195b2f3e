-- ===== src/Domain/Machine.antt =====
-- The guard that every `Apply` of services/control-plane/internal/domain runs: the terminal test,
-- the lookup of the trigger in the aggregate's transition table, and the test of the `from` states.
pub mod Laws
use cisync.Prelude.{
  Bool, true, false, Option, none, some, List, [], ◌∷◌, String, Eq, string_eq, ◌==◌, if◌then◌else◌,
}
use cisync.Prelude.Maps.{lookup}

-- domain/errors.go, the sentinels that the aggregates return.
pub data DomainError : Type 0 where
  illegal_transition post_terminal unknown_event validation_failed : DomainError

-- `error`: `none` is nil.
abbrev pub Error : Type 0
Error = Option DomainError

pub record TransitionRule (S : Type 0) : Type 0 where
  pub from : List S
  pub to : S

abbrev pub rule : {S : Type 0} → List S → S → TransitionRule S
rule from to = record { from = from; to = to }

abbrev pub Table : Type 0 → Type 0
Table S = List (String × TransitionRule S)

-- A Go pair of a value and an error of which one is set.
pub data Result (S : Type 0) : Type 0 where
  ok : S → Result S
  err : DomainError → Result S

module _ {S : Type 0} ⦃e : Eq S⦄ where
  unfoldable pub matches_state : List S → S → Bool
  matches_state [] cur = false
  matches_state (f ∷ from) cur = if f == cur then true else matches_state from cur

  unfoldable pub try_rule : Option (TransitionRule S) → S → Result S
  unfolding matches_state
  try_rule none cur = err unknown_event
  try_rule (some rule) cur =
      if matches_state rule.from cur then ok rule.to else err illegal_transition

  unfoldable pub next_state : (S → Bool) → Table S → S → String → Result S
  unfolding try_rule
  next_state terminal table cur trigger =
      if terminal cur then err post_terminal else try_rule (lookup trigger table) cur
