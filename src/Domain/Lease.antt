-- ===== src/Domain/Lease.antt =====
-- services/control-plane/internal/domain/lease.go: the lease, its table, `Apply`, `Renew`, `Expired`.
pub mod Laws
use cisync.Prelude.{
  Bool, true, false, Option, none, some, List, [], ◌∷◌, ◌&&◌, ◌||◌, String, Eq, string_eq, ◌==◌,
  ltb, eq_of_discrete, if◌then◌else◌, ℕ, ◌+◌, ◌*◌, contains,
}
use cisync.Prelude.Int.{ℤ, pos, lt_int, pos_part}
use cisync.Domain.Common.{Time, BudgetValues}
use cisync.Domain.Machine.{
  Error, rule, Table, Result, ok, err, next_state, DomainError, validation_failed,
}

pub data LeaseState : Type 0 where
  requested granted released expired revoked : LeaseState

pub data LeaseScopeKind : Type 0 where
  change_scope environment : LeaseScopeKind

abbrev pub LeaseState-discrete : Discrete LeaseState
LeaseState-discrete = hlevel

instance abbrev pub lease_state_eq : Eq LeaseState
lease_state_eq = eq_of_discrete LeaseState-discrete

pub record LeaseScope : Type 0 where
  pub kind : LeaseScopeKind
  pub surfaces : List String
  pub env_template : String

pub record Lease : Type 0 where
  pub id : String
  pub tenant_id : String
  pub intent_id : String
  pub state : LeaseState
  pub scope : LeaseScope
  pub holder : String
  pub budget : BudgetValues
  pub ttl_expires_at : Time
  pub renewal_count : ℕ
  pub queue_position : Option ℕ
  pub eta_seconds : Option ℕ
  pub required_evidence : List String
  pub created_at : Time
  pub released_at : Option Time

-- `ttl` is a duration in nanoseconds, not negative.
unfoldable pub new_lease :
    String → String → String → LeaseScope → String → BudgetValues → ℕ → List String → Time → Lease
new_lease id tenant_id intent_id scope holder budget ttl required_evidence now = record {
  id = id;
  tenant_id = tenant_id;
  intent_id = intent_id;
  state = granted;
  scope = scope;
  holder = holder;
  budget = budget;
  ttl_expires_at = now + ttl;
  renewal_count = 0;
  queue_position = none;
  eta_seconds = none;
  required_evidence = required_evidence;
  created_at = now;
  released_at = none;
}

unfoldable pub terminal : LeaseState → Bool
terminal released = true
terminal expired = true
terminal revoked = true
terminal _ = false

unfoldable pub lease_transitions : Table LeaseState
lease_transitions =
    ("lease.granted", rule (requested ∷ []) granted)
    ∷ ("lease.renewed", rule (granted ∷ []) granted)
    ∷ ("lease.released", rule (granted ∷ []) released)
    ∷ ("lease.expired", rule (granted ∷ []) expired)
    ∷ ("lease.revoked", rule (granted ∷ []) revoked)
    ∷ []

-- The test that precedes the stamp of `ReleasedAt`.
unfoldable pub ends : String → Bool
ends trigger =
    trigger == "lease.released" || (trigger == "lease.expired" || trigger == "lease.revoked")

unfoldable pub conclude : Lease → String → Result LeaseState → Time → Lease × Error
unfolding ends
conclude l trigger (err e) now = (l, some e)
conclude l trigger (ok s) now =
    (record l { released_at = if ends trigger then some now else l.released_at; state = s }, none)

unfoldable pub apply : Lease → String → Time → Lease × Error
unfolding conclude
apply l trigger now = conclude l trigger (next_state terminal lease_transitions l.state trigger) now

abbrev pub second : ℕ
second = 1000000000

-- `Renew` after the transition: the bounds on the TTL, then the new window.
unfoldable pub extend : Lease × Error → ℤ → Time → Lease × Error
extend (l, some e) ttl_seconds now = (l, some e)
extend (l, none) ttl_seconds now =
    if lt_int ttl_seconds (pos 30) || lt_int (pos 3600) ttl_seconds
    then (l, some validation_failed)
    else (
      record l {
        ttl_expires_at = now + pos_part ttl_seconds * second;
        renewal_count = l.renewal_count + 1;
      },
      none,
    )

unfoldable pub renew : Lease → ℤ → Time → Lease × Error
unfolding apply extend
renew l ttl_seconds now = extend (apply l "lease.renewed" now) ttl_seconds now

unfoldable pub has_expired : Lease → Time → Bool
has_expired l now = l.state == granted && ltb l.ttl_expires_at now
