-- ===== src/Tenant/Machine.antt =====
-- TransitionSpec and LifecycleStateMachine of services/tenancy/tenantctl/state_machine.py, and the
-- machine that contracts/tenancy/TENANT_LIFECYCLE_CONTRACT_V1.yaml describes.
use observability_kit.Prelude.{String, Bool, true, false, List, Option, none, some, elem}
use observability_kit.Prelude.Dict.{Dict, lookup}
pub mod Loader
pub mod Loaded

pub record Spec : Type 0 where
  pub name : String
  pub from_states : List String
  pub to_state : String
  pub idempotent : Bool
  pub approval_risk_class : Option String
  pub audit_required_fields : List String

abbrev pub is_destructive : Spec → Bool
is_destructive spec = elim spec.approval_risk_class [ none ↦ false | some _ ↦ true ]

pub record Machine : Type 0 where
  pub states : List String
  pub initial_state : String
  pub terminal_states : List String
  pub transitions : Dict Spec

unfoldable pub find_spec : Machine → String → Option Spec
unfolding lookup
find_spec m name = lookup name m.transitions

unfoldable pub is_state : Machine → String → Bool
is_state m value = elem value m.states
