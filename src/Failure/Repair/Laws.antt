-- ===== src/Failure/Repair/Laws.antt =====
-- `AuthorizeRepair` of failure/repair.go: what an envelope allows, and what is never repaired.
use mathlib.Core.List.{reverse_aux}
use cisync.Prelude.{
  ◌≡◌, refl, subst, String, Bool, true, false, not, Option, some, none, List, [], ◌∷◌, ◌≢◌, Memᴰ,
  All, All-map, Bool-cases, inl, inr, arith, ◌==◌, string_eq, contains, contains-mem, if◌then◌else◌,
}
use cisync.Prelude.Int.{ℤ, pos, lt_int, ◌≤ℤ◌}
use cisync.Prelude.Maps.{lookup}
use cisync.Prelude.Texts.{less}
use cisync.Policy.Document.{ResolvedPolicy}
use cisync.Policy.Resolve.{match_any_glob}
use cisync.Evidence.Digests.{sift, sift_all, sort_strings}
use cisync.Failure.Classify.{Patterns, Context, FailureCase, classify}
use cisync.Failure.Classify.Laws.{security_first}
use cisync.Failure.Repair.{
  RepairContext, RepairEnvelope, RepairAuthorization, DenyReason, denied, authorized,
  security_violation, filter_loop, filter_prohibited, capped_iterations, envelope_of, confine,
  authorize_class, authorize_repair,
}

module _ {κ} (P : String → Type κ) where
  All-sift : (x : String) (ys : List String) → P x → All P ys → All P (sift x ys)
  unfolding sift
  All-sift x [] px h = (px, tt)
  All-sift x (y ∷ ys) px (py, h) = elim (Bool-cases (less x y)) [
    | inl e ↦ rw e (py, All-sift x ys px h)
    | inr e ↦ rw e (px, (py, h))
  ]

  All-sift_all : (done xs : List String) → All P done → All P xs → All P (sift_all done xs)
  unfolding sift_all
  All-sift_all done [] hd h = hd
  All-sift_all done (x ∷ xs) hd (px, h) = All-sift_all (sift x done) xs (All-sift x done px hd) h

  All-reverse_onto : (xs ys : List String) → All P xs → All P ys → All P (reverse_aux xs ys)
  All-reverse_onto [] ys hx hy = hy
  All-reverse_onto (x ∷ xs) ys (px, hx) hy = All-reverse_onto xs (x ∷ ys) hx (px, hy)

  All-sort_strings : (xs : List String) → All P xs → All P (sort_strings xs)
  unfolding sort_strings
  All-sort_strings xs h = All-reverse_onto (sift_all [] xs) [] (All-sift_all [] xs tt h) tt

-- A surface of the intent that no prohibited pattern matches.
abbrev pub IsAllowed : RepairContext → String → Type 0
IsAllowed rc path =
    Memᴰ path rc.intent_owned_surfaces × (match_any_glob rc.prohibited_paths path ≡ false)

filter_loop-All :
    (prohibited surfaces : List String)
    → All
        (λ s. Memᴰ s surfaces × (match_any_glob prohibited s ≡ false))
        (filter_loop prohibited surfaces)
unfolding filter_loop
filter_loop-All prohibited [] = tt
filter_loop-All prohibited (s ∷ surfaces) =
    let rest =
      All-map (λ t. Memᴰ t surfaces × (match_any_glob prohibited t ≡ false))
        (λ t. Memᴰ t (s ∷ surfaces) × (match_any_glob prohibited t ≡ false))
        (λ t h. (Memᴰ.tail h.0, h.1)) (filter_loop prohibited surfaces)
        (filter_loop-All prohibited surfaces) in
    elim (Bool-cases (match_any_glob prohibited s)) [
      | inl e ↦ rw e rest
      | inr e ↦ rw e ((Memᴰ.head refl, e), rest)
    ]

capped_iterations-bounds :
    (granted : ℤ) → (pos 1 ≤ℤ capped_iterations granted) × (capped_iterations granted ≤ℤ pos 2)
unfolding capped_iterations
capped_iterations-bounds granted = ground arith

-- What holds of an envelope that `AuthorizeRepair` grants.
pub record IsConfined (fc : FailureCase) (rp : ResolvedPolicy) (rc : RepairContext)
    (e : RepairEnvelope) : Type 0 where
  pub autonomous : pos 3 ≤ℤ rp.body.autonomy.level
  pub repairable : Memᴰ fc.classification rp.body.autonomy.auto_repair_classes
  pub allowed : All (IsAllowed rc) e.allowed_paths
  pub some_allowed : e.allowed_paths ≢ []
  pub prohibited : e.prohibited_paths ≡ rc.prohibited_paths
  pub at_least_one : pos 1 ≤ℤ e.max_iterations
  pub at_most_two : e.max_iterations ≤ℤ pos 2
  pub evidence :
      lookup rc.risk_class rp.body.required_evidence_by_risk ≡ some e.required_evidence_after_repair

-- The gates before the last two.
gates :
    (security below repairs : Bool) (a b c : DenyReason) (rest : RepairAuthorization)
    {e : RepairEnvelope}
    → (if security
        then denied a
        else if below
        then denied b
        else if not repairs
        then denied c
        else rest)
      ≡ authorized e
    → (below ≡ false) × (repairs ≡ true) × (rest ≡ authorized e)
gates security below repairs a b c rest h = ground arith

confined :
    (fc : FailureCase) (rp : ResolvedPolicy) (rc : RepairContext) (required paths : List String)
    {e : RepairEnvelope}
    → confine fc rp rc required paths ≡ authorized e
    → (paths ≢ []) × (envelope_of fc rp rc required paths ≡ e)
unfolding confine
confined fc rp rc required [] h = absurd (cc)
confined fc rp rc required (s ∷ paths) h = (λ e. absurd (cc), ground arith)

class_confined :
    (fc : FailureCase) (rp : ResolvedPolicy) (rc : RepairContext) (found : Option (List String))
    {e : RepairEnvelope}
    → authorize_class fc rp rc found ≡ authorized e
    → (required : List String) × (found ≡ some required)
      × (filter_prohibited rc.intent_owned_surfaces rc.prohibited_paths ≢ [])
      × (envelope_of fc rp rc required
            (filter_prohibited rc.intent_owned_surfaces rc.prohibited_paths)
          ≡ e)
unfolding authorize_class
class_confined fc rp rc none h = absurd (cc)
class_confined fc rp rc (some required) h =
    let (some_left, e) =
      confined fc rp rc required (filter_prohibited rc.intent_owned_surfaces rc.prohibited_paths)
        h in
    (required, refl, some_left, e)

filter_prohibited-All :
    (rc : RepairContext)
    → All (IsAllowed rc) (filter_prohibited rc.intent_owned_surfaces rc.prohibited_paths)
unfolding filter_prohibited
filter_prohibited-All rc =
    All-sort_strings (IsAllowed rc) (filter_loop rc.prohibited_paths rc.intent_owned_surfaces)
      (filter_loop-All rc.prohibited_paths rc.intent_owned_surfaces)

-- An authorized repair is confined: the autonomy level is at least 3, the class is one that the policy
-- repairs, every allowed path is a surface of the intent that no prohibited pattern matches and there
-- is one, the prohibited list and the evidence of the risk class are passed on, and there are one or
-- two iterations, whatever the policy grants.
pub repair-IsConfined :
    (fc : FailureCase) (rp : ResolvedPolicy) (rc : RepairContext) {e : RepairEnvelope}
    → authorize_repair fc rp rc ≡ authorized e
    → IsConfined fc rp rc e
unfolding authorize_repair envelope_of
repair-IsConfined fc rp rc {e = e} h =
    let (level, class, granted) =
      gates (fc.classification == "security_policy_violation")
        (lt_int rp.body.autonomy.level (pos 3))
        (contains rp.body.autonomy.auto_repair_classes fc.classification) _ _ _
        (authorize_class fc rp rc (lookup rc.risk_class rp.body.required_evidence_by_risk)) h in
    let (required, known, some_left, same) =
      class_confined fc rp rc (lookup rc.risk_class rp.body.required_evidence_by_risk) granted in
    let capped = capped_iterations-bounds rp.body.budgets.per_candidate.repair_attempts in
    subst (IsConfined fc rp rc) same (record {
      autonomous = ground arith;
      repairable = contains-mem rp.body.autonomy.auto_repair_classes fc.classification class;
      allowed = filter_prohibited-All rc;
      some_allowed = some_left;
      prohibited = refl;
      at_least_one = capped.0;
      at_most_two = capped.1;
      evidence = known;
    })

-- A failure whose log the rule for secrets and policies matches is never repaired, whatever else the
-- log shows and whatever the policy allows.
pub security_never_repaired :
    (sha256 : String → String) (p : Patterns) (log_text : String) (ctx : Context)
    (rp : ResolvedPolicy) (rc : RepairContext)
    → p.matches "secret_or_policy_hit" log_text ≡ true
    → authorize_repair (classify sha256 p log_text ctx) rp rc ≡ denied security_violation
unfolding authorize_repair
security_never_repaired sha256 p log_text ctx rp rc h =
    rw (security_first sha256 p log_text ctx h) refl
