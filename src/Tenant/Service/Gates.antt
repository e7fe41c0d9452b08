-- ===== src/Tenant/Service/Gates.antt =====
-- The gates and helpers of TenantControlPlaneService.
use observability_kit.Prelude.{
  ℕ, ◌+◌, ◌*◌, String, Bool, true, false, ◌||◌, Option, none, some, ◌==◌, ltb, pos, if◌then◌else◌,
}
use Prim.Native.Nat.{max}
use observability_kit.Prelude.Exec.{Result, ok, raised}
use observability_kit.Prelude.Raise
use observability_kit.Prelude.Raise.{or_raise}
use observability_kit.Json.{Json, str, int, arr, obj, Items, nil, cons, Fields, get_item, is_text}
use observability_kit.Regex.Patterns.{is_tenant_id}
use observability_kit.Time.{day, end_of_time, floor_second}
use observability_kit.Tenant.Errors.{
  Message, bad_tenant_id, identity_mismatch, no_document, unknown_state, cross_tenant,
  region_not_allowed, not_offboarded, no_window, window_open, legal_hold, validation_failed,
  tenant_not_found, precondition_failed, cross_tenant_access_denied, Exception, crashed, deny,
  deny_for, overflow_error, type_error,
}
use observability_kit.Tenant.Machine.{Machine, Spec, is_state}
use observability_kit.Tenant.Request.{Request, approval_payload, text_at}
use observability_kit.Tenant.Approval.{ApprovalRecord, validate_approval}
use observability_kit.Tenant.Store.{
  TenantRecord, Completed, Store, load_tenant_record, load_transition_record,
}

-- The readings of the clocks in one request: validate_approval's own `now`, `_now_iso` at the start
-- of _apply or _replay, the purge precondition's, the retention window's, and the denial's.
pub record Times : Type 0 where
  pub approval : ℕ
  pub started : ℕ
  pub checked : ℕ
  pub retention : ℕ
  pub denied : ℕ

unfoldable pub check_tenant_id : String → Result Exception (Unit {0})
check_tenant_id t = if is_tenant_id t then ok tt else raised (deny validation_failed bad_tenant_id)

unfoldable pub check_document_identity : String → Fields → Result Exception (Unit {0})
check_document_identity t fs =
    if is_text t (get_item "tenant_id" fs)
    then ok tt
    else raised (deny_for t validation_failed (identity_mismatch (get_item "tenant_id" fs) t))

-- A caller with a scope addresses its own tenant only.
unfoldable pub check_scope : Option String → String → Result Exception (Unit {0})
check_scope none t = ok tt
check_scope (some scope) t =
    if scope == t then ok tt else raised (deny_for t cross_tenant_access_denied cross_tenant)

unfoldable pub require_record : String → Store → Result Exception TenantRecord
require_record t s = or_raise (load_tenant_record s t) (deny_for t tenant_not_found no_document)

-- The approval gate: a transition with a risk class wants a valid approval record.
unfoldable pub approval_gate : Spec → Request → ℕ → Result Exception (Option ApprovalRecord)
approval_gate spec request now = elim spec.approval_risk_class [
  | none ↦ ok none
  | some risk ↦
      Raise.◌>>=◌ (validate_approval (approval_payload request) risk now) (λ a. ok (some a))
]

-- `document["lifecycle_state"]`, which has to be a state of the machine.
unfoldable pub current_state : Machine → String → Fields → Result Exception String
current_state m t fs = Raise.◌>>=◌ (text_at fs "lifecycle_state") λ state.
    if is_state m state then ok state else raised (deny_for t tenant_not_found unknown_state)

-- `region in allowed`
unfoldable pub in_items : Json → Items → Bool
in_items j nil = false
in_items (str s) (cons x xs) = is_text s x || in_items (str s) xs
in_items j (cons x xs) = in_items j xs

abbrev object_at : String → Fields → Result Exception Fields
object_at key fs = elim (get_item key fs) [ obj gs ↦ ok gs | _ ↦ raised (crashed type_error) ]

abbrev region_allowed : Json → Json → Bool
region_allowed region (arr xs) = in_items region xs
region_allowed region _ = true

unfoldable pub check_provision : String → Fields → Result Exception (Unit {0})
check_provision t fs = Raise.◌>>=◌ (object_at "residency" fs) λ residency.
    if region_allowed (get_item "region" residency) (get_item "allowed_regions" residency)
    then ok tt
    else raised (deny_for t precondition_failed region_not_allowed)

abbrev failed : String → Message → Result Exception (Unit {0})
failed t m = raised (deny_for t precondition_failed m)

-- With the offboard record at hand: the recorded window has ended, and there is no hold.
unfoldable pub check_window : String → Bool → ℕ → Option ℕ → Result Exception (Unit {0})
check_window t hold now none = failed t no_window
check_window t hold now (some ends_at) =
    if ltb now ends_at
    then failed t (window_open ends_at)
    else if hold
    then failed t legal_hold
    else ok tt

unfoldable pub check_purge : String → Bool → ℕ → Option Completed → Result Exception (Unit {0})
check_purge t hold now none = failed t not_offboarded
check_purge t hold now (some offboarded) =
    check_window t hold now offboarded.retention_window_ends_at

unfoldable pub check_preconditions :
    Spec → String → TenantRecord → ℕ → Store → Result Exception (Unit {0})
check_preconditions spec t r now s =
    Raise.◌>>=◌ (if spec.name == "provision" then check_provision t r.document else ok tt) λ _.
      if spec.name == "purge"
      then check_purge t r.legal_hold now (load_transition_record s t "offboard")
      else ok tt

abbrev days_at : String → Fields → Result Exception ℕ
days_at key fs = elim (get_item key fs) [
  | int n ↦ elim n [ pos k ↦ ok k | _ ↦ raised (crashed type_error) ]
  | _ ↦ raised (crashed type_error)
]

-- The instant that _retention_window_end writes: the longest retention after now, in whole
-- seconds.
unfoldable pub retention_window_end : Fields → ℕ → Result Exception ℕ
retention_window_end fs now = Raise.◌>>=◌ (object_at "quotas" fs) λ quotas.
    Raise.◌>>=◌ (object_at "retention" quotas) λ retention.
      Raise.◌>>=◌ (days_at "logs_days" retention) λ logs.
        Raise.◌>>=◌ (days_at "metrics_days" retention) λ metrics.
          Raise.◌>>=◌ (days_at "traces_days" retention) λ traces.
            let ends = now + max (max logs metrics) traces * day in
            if ltb ends end_of_time then ok (floor_second ends) else raised (crashed overflow_error)
