-- ===== src/Tenant/Service/Legal.antt =====
-- What a transition that succeeds has passed, and what it leaves behind.
use observability_kit.Prelude.{ℕ, String, Option, none, some, true, ◌≡◌, refl, elem, arith, eq_iff}
use observability_kit.Prelude.Exec.{ok}
use observability_kit.Json.{Json, str, obj, Fields, get_item}
use observability_kit.Tenant.Store.{Store, load_tenant_record}
use observability_kit.Tenant.Document.{validate_tenant_document}
use observability_kit.Tenant.Machine.{Machine, Spec, find_spec, is_state}
use observability_kit.Tenant.Request.{Request, parse_transition_request, approval_payload, text_at}
use observability_kit.Tenant.Approval.{ApprovalRecord, validate_approval}
use observability_kit.Tenant.Service.Gates.{
  Times, check_scope, require_record, approval_gate, current_state,
}
use observability_kit.Tenant.Service.Transition.{Admitted, admit}

-- The caller may address the tenant.
abbrev pub InScope : Option String → String → Type 0
InScope none t = Unit
InScope (some scope) t = scope ≡ t

pub check_scope-InScope :
    (scope : Option String) (t : String) → check_scope scope t ≡ ok tt → InScope scope t
unfolding check_scope
check_scope-InScope none t h = tt
check_scope-InScope (some scope) t h = ground (arith, eq_iff scope t)

-- A transition with a risk class has a valid approval.
abbrev pub GateHeld : Option String → Request → ℕ → Option ApprovalRecord → Type 0
GateHeld none q now a = a ≡ none
GateHeld (some risk) q now a =
    (r : ApprovalRecord) × (a ≡ some r) × (validate_approval (approval_payload q) risk now ≡ ok r)

-- What the gates establish of the state before.
pub record IsAdmitted (m : Machine) (name t : String) (payload : Json) (scope : Option String)
    (times : Times) (s : Store) (a : Admitted) : Type 0 where
  pub scoped : InScope scope t
  pub spec : find_spec m name ≡ some a.spec
  pub request : parse_transition_request name payload ≡ ok a.request
  pub stored : load_tenant_record s t ≡ some a.tenant
  pub valid : validate_tenant_document (obj a.tenant.document) ≡ ok tt
  pub state : get_item "lifecycle_state" a.tenant.document ≡ str a.state
  pub known : elem a.state m.states ≡ true
  pub gate : GateHeld a.spec.approval_risk_class a.request times.approval a.approval

gate-GateHeld :
    (o : Option String) (spec : Spec) (q : Request) (now : ℕ) (a : Option ApprovalRecord)
    → spec.approval_risk_class ≡ o
    → approval_gate spec q now ≡ ok a
    → GateHeld o q now a
unfolding approval_gate
gate-GateHeld none spec q now a e h = ground arith
gate-GateHeld (some risk) spec q now none e h = ground arith
gate-GateHeld (some risk) spec q now (some r) e h = (r, refl, ground arith)

current_state-eq-ok :
    (m : Machine) (t : String) (fs : Fields) (x : String)
    → current_state m t fs ≡ ok x
    → (get_item "lifecycle_state" fs ≡ str x) × (elem x m.states ≡ true)
unfolding current_state text_at is_state
current_state-eq-ok m t fs x h = (ground arith, ground arith)

module _ (m : Machine) (name t : String) (payload : Json) (scope : Option String) (times : Times)
    (s : Store) where
  pub admit-IsAdmitted :
      (a : Admitted)
      → admit m name t payload scope times s ≡ ok a
      → IsAdmitted m name t payload scope times s a
  unfolding admit require_record
  admit-IsAdmitted a h = record {
    scoped = check_scope-InScope scope t (ground arith);
    spec = ground arith;
    request = ground arith;
    stored = ground arith;
    valid = ground arith;
    state = (current_state-eq-ok m t a.tenant.document a.state (ground arith)).0;
    known = (current_state-eq-ok m t a.tenant.document a.state (ground arith)).1;
    gate =
        gate-GateHeld a.spec.approval_risk_class a.spec a.request times.approval a.approval refl
          (ground arith);
  }
