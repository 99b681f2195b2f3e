-- ===== src/Domain/FailureCase.antt =====
-- services/control-plane/internal/domain/failure_case.go: the failure case and its classification.
pub mod Laws
use cisync.Prelude.{
  Bool, true, false, Option, none, some, List, [], ◌∷◌, String, Eq, string_eq, eq_of_discrete,
}
use cisync.Domain.Common.{Time, FloatBits}
use cisync.Domain.Machine.{Error, rule, Table, Result, ok, err, next_state}

pub data FailureState : Type 0 where
  open_case classified routed closed : FailureState

pub data Classification : Type 0 where
  infra_transient known_flake probable_flake compile_regression test_expectation_drift
        functional_regression merge_conflict security_policy_violation timeout :
      Classification

pub data RoutedAction : Type 0 where
  retry quarantine_flake repair escalate_human reject no_action : RoutedAction

abbrev pub FailureState-discrete : Discrete FailureState
FailureState-discrete = hlevel

instance abbrev pub failure_state_eq : Eq FailureState
failure_state_eq = eq_of_discrete FailureState-discrete

pub record FailureCase : Type 0 where
  pub id : String
  pub tenant_id : String
  pub candidate_id : String
  pub run_id : String
  pub state : FailureState
  pub signature_digest : String
  pub classification : Option Classification
  pub classification_confidence : FloatBits
  pub reproduction_command : String
  pub suspected_paths : List String
  pub routed_action : RoutedAction
  pub created_at : Time

unfoldable pub new_failure_case :
    String → String → String → String → String → String → List String → Time → FailureCase
new_failure_case id tenant_id candidate_id run_id signature_digest repro_cmd suspected_paths now =
    record {
      id = id;
      tenant_id = tenant_id;
      candidate_id = candidate_id;
      run_id = run_id;
      state = open_case;
      signature_digest = signature_digest;
      classification = none;
      classification_confidence = 0;
      reproduction_command = repro_cmd;
      suspected_paths = suspected_paths;
      routed_action = no_action;
      created_at = now;
    }

unfoldable pub terminal : FailureState → Bool
terminal closed = true
terminal _ = false

unfoldable pub failure_transitions : Table FailureState
failure_transitions =
    ("failure.classified", rule (open_case ∷ []) classified)
    ∷ ("failure.routed", rule (classified ∷ []) routed)
    ∷ ("failure.closed", rule (routed ∷ []) closed)
    ∷ []

unfoldable pub conclude : FailureCase → Result FailureState → FailureCase × Error
conclude f (err e) = (f, some e)
conclude f (ok s) = (record f { state = s }, none)

unfoldable pub apply : FailureCase → String → FailureCase × Error
unfolding conclude
apply f trigger = conclude f (next_state terminal failure_transitions f.state trigger)

unfoldable pub route_for_class : Classification → RoutedAction
route_for_class infra_transient = retry
route_for_class known_flake = quarantine_flake
route_for_class probable_flake = quarantine_flake
route_for_class compile_regression = repair
route_for_class merge_conflict = repair
route_for_class functional_regression = repair
route_for_class security_policy_violation = escalate_human
route_for_class timeout = retry
route_for_class test_expectation_drift = escalate_human

-- `Classify` after the transition.
unfoldable pub stamp_class : FailureCase × Error → Classification → FloatBits → FailureCase × Error
stamp_class (f, some e) c confidence = (f, some e)
stamp_class (f, none) c confidence = (
  record f {
    classification = some c;
    classification_confidence = confidence;
    routed_action = route_for_class c;
  },
  none,
)

unfoldable pub classify : FailureCase → Classification → FloatBits → FailureCase × Error
unfolding apply stamp_class
classify f c confidence = stamp_class (apply f "failure.classified") c confidence
