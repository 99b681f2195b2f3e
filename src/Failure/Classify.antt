-- ===== src/Failure/Classify.antt =====
-- services/control-plane/internal/failure/classify.go, normalize.go and reproduce.go: the class of a
-- failed run's log. What the regular expressions find in a log is what `Patterns` answers.
pub mod Laws
use text.Mathlib.Text.{starts_with}
use Prim.Native.String.{◌++◌ as ◌++ₛ◌, [] as empty, ◌∷◌ as ◌∷ₛ◌}
use cisync.Prelude.{
  ℕ, String, Bool, true, false, not, ◌&&◌, ◌||◌, Option, none, some, List, [], ◌∷◌, if◌then◌else◌,
  leb, ◌==◌, string_eq, contains, take, ◌++◌,
}
use cisync.Prelude.Int.{ℤ, pos, lt_int}
use cisync.Policy.Document.{float}
use cisync.Evidence.Digests.{sort_strings}

-- `matches id log` says whether the expression of the rule finds something; `failing_test`,
-- `go_package` and `shell_line` are the first group of the first match, `paths` all matches, and
-- `normalized` the log after the replacements of `NormalizeLog`, its fields joined.
pub record Patterns : Type 0 where
  pub matches : String → String → Bool
  pub failing_test : String → Option String
  pub go_package : String → Option String
  pub shell_line : String → Option String
  pub paths : String → List String
  pub normalized : String → String

-- The confidence is a float64.
pub record Rule : Type 0 where
  pub id : String
  pub class : String
  pub conf : ℤ

abbrev pub rules : List Rule
rules =
    record {
      id = "secret_or_policy_hit";
      class = "security_policy_violation";
      conf = float 4_458_563_631_096_791 52;
    }
    ∷ record {
      id = "merge_marker";
      class = "merge_conflict";
      conf = float 4_368_491_638_549_381 52;
    }
    ∷ record {
      id = "compile_error";
      class = "compile_regression";
      conf = float 8_376_695_306_909_123 53;
    }
    ∷ record {
      id = "golden_mismatch";
      class = "test_expectation_drift";
      conf = float 7_656_119_366_529_843 53;
    }
    ∷ record {
      id = "infra_failure";
      class = "infra_transient";
      conf = float 8_106_479_329_266_893 53;
    }
    ∷ record { id = "budget_deadline"; class = "timeout"; conf = float 8_106_479_329_266_893 53 }
    ∷ record { id = "flaky_signal"; class = ""; conf = pos 0 }
    ∷ record {
      id = "assertion_failure";
      class = "functional_regression";
      conf = float 8_106_479_329_266_893 53;
    }
    ∷ []

pub record Context : Type 0 where
  pub known_flakes : List String
  pub corroborated_reruns : ℤ
  pub distinct_environments : ℤ

pub record FailureCase : Type 0 where
  pub signature_digest : String
  pub classification : String
  pub classification_confidence : ℤ
  pub rule_id : String
  pub reproduction_command : String
  pub causal_signals : List String
  pub suspected_paths : List String

unfoldable pub or_empty : Option String → String
or_empty none = ""
or_empty (some s) = s

unfoldable pub extract_failing_test : Patterns → String → String
unfolding or_empty
extract_failing_test p log_text = or_empty (p.failing_test log_text)

unfoldable pub shell_command : Option String → String
unfolding or_empty
shell_command line = or_empty line

unfoldable pub command_for : String → Option String → Option String → String
unfolding shell_command
command_for test none line = shell_command line
command_for test (some pkg) line =
    if not (test == "")
    then "go test " ++ₛ pkg ++ₛ " -run '^" ++ₛ test ++ₛ "$' -count=1"
    else shell_command line

unfoldable pub reproduction_command : Patterns → String → String
unfolding extract_failing_test command_for
reproduction_command p log_text =
    command_for (extract_failing_test p log_text) (p.go_package log_text) (p.shell_line log_text)

unfoldable pub signature_digest : (String → String) → Patterns → String → String
signature_digest sha256 p log_text = "sha256:" ++ₛ sha256 (p.normalized log_text)

-- `strings.Contains(s, sub)`
abbrev pub has_text : String → String → Bool
has_text empty sub = starts_with empty sub
has_text (c ∷ₛ s) sub = starts_with (c ∷ₛ s) sub || has_text s sub

-- The keys of the set.
unfoldable pub path_set : List String → List String → List String
path_set set [] = set
path_set set (p ∷ matches) =
    if has_text p "http" || contains set p then path_set set matches else path_set (p ∷ set) matches

unfoldable pub suspected_paths : Patterns → String → List String
unfolding path_set sort_strings
suspected_paths p log_text = take 10 (sort_strings (path_set [] (p.paths log_text)))

unfoldable pub is_known : String → String → List String → Bool
is_known digest test_name [] = false
is_known digest test_name (k ∷ known) =
    ((k == digest) || (not (test_name == "") && (k == test_name)))
    || is_known digest test_name known

unfoldable pub flake_branch : Patterns → String → String → Context → String × ℤ
unfolding is_known extract_failing_test
flake_branch p digest log_text ctx =
    if is_known digest (extract_failing_test p log_text) ctx.known_flakes
    then ("known_flake", float 4_278_419_646_001_971 52)
    else if not (lt_int ctx.corroborated_reruns (pos 2))
        && not (lt_int ctx.distinct_environments (pos 2))
    then ("probable_flake", float 7_656_119_366_529_843 53)
    else ("probable_flake", float 2_476_979_795_053_773 52)

-- The class and the confidence that a decisive rule sets.
unfoldable pub ruling : Patterns → String → String → Context → Rule → String × ℤ
unfolding flake_branch
ruling p digest log_text ctx r =
    if r.class == "" then flake_branch p digest log_text ctx else (r.class, r.conf)

-- The variables of the loop; `decisive` is the id of the decisive rule.
pub record State : Type 0 where
  pub signals : List String
  pub verdict : String × ℤ
  pub decisive : String
  pub matched_any : Bool

abbrev pub start : State
start = record { signals = []; verdict = ("", pos 0); decisive = ""; matched_any = false }

unfoldable pub take_rule : Patterns → String → String → Context → Rule → State → State
unfolding ruling
take_rule p digest log_text ctx r s =
    if (s.decisive == "") && not s.matched_any
    then record {
      signals = s.signals ++ (r.id ∷ []);
      verdict = ruling p digest log_text ctx r;
      decisive = r.id;
      matched_any = true;
    }
    else record s { signals = s.signals ++ (r.id ∷ []); matched_any = true }

unfoldable pub rule_loop : Patterns → String → String → Context → List Rule → State → State
unfolding take_rule
rule_loop p digest log_text ctx [] s = s
rule_loop p digest log_text ctx (r ∷ rs) s =
    if not (p.matches r.id log_text)
    then rule_loop p digest log_text ctx rs s
    else rule_loop p digest log_text ctx rs (take_rule p digest log_text ctx r s)

unfoldable pub conclude : Patterns → String → String → State → FailureCase
unfolding reproduction_command suspected_paths
conclude p digest log_text s =
    let fallback = s.decisive == "" in
    record {
      signature_digest = digest;
      classification = if fallback then "functional_regression" else s.verdict.0;
      classification_confidence = if fallback then float 5_404_319_552_844_595 54 else s.verdict.1;
      rule_id = if fallback then "unclassified_fallback" else s.decisive;
      reproduction_command = reproduction_command p log_text;
      causal_signals = s.signals;
      suspected_paths = suspected_paths p log_text;
    }

unfoldable pub classify : (String → String) → Patterns → String → Context → FailureCase
unfolding rule_loop conclude signature_digest
classify sha256 p log_text ctx =
    let digest = signature_digest sha256 p log_text in
    conclude p digest log_text (rule_loop p digest log_text ctx rules start)
