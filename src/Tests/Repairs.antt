-- ===== src/Tests/Repairs.antt =====
-- Classified logs and authorized repairs on small data, and the witnesses of their theorems.
use cisync.Prelude.{◌≡◌, refl, String, none, some, [], ◌∷◌}
use cisync.Prelude.Int.{pos}
use cisync.Policy.Resolve.Laws.{resolved}
use cisync.Policy.DefaultPack.{catch_all_pack}
use cisync.Failure.Classify.{Patterns, Context, FailureCase, rules, classify, has_text}
use cisync.Failure.Classify.Laws.{classify-Follows, ids, fired, Follows}
use cisync.Failure.Repair.{
  RepairContext, RepairEnvelope, authorize_repair, authorized, denied, security_violation,
}
use cisync.Failure.Repair.Laws.{repair-IsConfined, security_never_repaired, IsConfined}

-- A log stands for what it names: each rule looks for its own id.
abbrev patterns : Patterns
patterns = record {
  matches = λ id log_text. has_text log_text id;
  failing_test = λ log_text. some "TestCart";
  go_package = λ log_text. some "shop/cart";
  shell_line = λ log_text. none;
  paths = λ log_text. "cart.go" ∷ "http/a.go" ∷ "api.go" ∷ "cart.go" ∷ [];
  normalized = λ log_text. log_text;
}

abbrev no_flakes : Context
no_flakes = record { known_flakes = []; corroborated_reruns = pos 0; distinct_environments = pos 0 }

abbrev digest : String → String
digest s = s

abbrev compiled : FailureCase
compiled = classify digest patterns "compile_error flaky_signal" no_flakes

first_decides : compiled.classification ≡ "compile_regression"
unfolding classify
first_decides = refl

both_signal : compiled.causal_signals ≡ "compile_error" ∷ "flaky_signal" ∷ []
unfolding classify
both_signal = refl

paths_once : compiled.suspected_paths ≡ "api.go" ∷ "cart.go" ∷ []
unfolding classify
paths_once = refl

command : compiled.reproduction_command ≡ "go test shop/cart -run '^TestCart$' -count=1"
unfolding classify
command = refl

abbrev intent : RepairContext
intent = record {
  intent_owned_surfaces = "services/cart/**" ∷ "auth/key.go" ∷ [];
  prohibited_paths = "auth/**" ∷ [];
  risk_class = "low";
  failed_assertion = "";
}

abbrev envelope : RepairEnvelope
envelope = record {
  reproduction_command = compiled.reproduction_command;
  failed_assertion = "";
  suspected_diff_hunks = compiled.suspected_paths;
  allowed_paths = "services/cart/**" ∷ [];
  prohibited_paths = "auth/**" ∷ [];
  max_iterations = pos 2;
  required_evidence_after_repair = "hermetic_build" ∷ "selected_unit" ∷ [];
}

repairs : authorize_repair compiled (resolved catch_all_pack) intent ≡ authorized envelope
unfolding authorize_repair classify
repairs = refl

classify-Follows_example :
    (compiled.causal_signals ≡ ids (fired patterns "compile_error flaky_signal" rules))
    × Follows patterns "compile_error flaky_signal" no_flakes compiled
        (fired patterns "compile_error flaky_signal" rules)
classify-Follows_example = classify-Follows digest patterns "compile_error flaky_signal" no_flakes

security_never_repaired_example :
    authorize_repair
      (classify digest patterns "compile_error secret_or_policy_hit" no_flakes)
      (resolved catch_all_pack)
      intent
    ≡ denied security_violation
security_never_repaired_example =
    security_never_repaired digest patterns "compile_error secret_or_policy_hit" no_flakes
      (resolved catch_all_pack) intent refl

repair-IsConfined_example : IsConfined compiled (resolved catch_all_pack) intent envelope
repair-IsConfined_example = repair-IsConfined compiled (resolved catch_all_pack) intent repairs
