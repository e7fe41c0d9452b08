-- ===== src/Tenant/Service/Transition.antt =====
-- transition and _transition_inner of TenantControlPlaneService.
use observability_kit.Prelude.{
  ℕ, String, false, [], ◌∷◌, Option, none, some, ◌==◌, elem, if◌then◌else◌,
}
use observability_kit.Prelude.Exec.{Exec, Result, ok, raised, raise, lift, ◌>>=◌, ◌>>◌}
use observability_kit.Prelude.Raise
use observability_kit.Prelude.Raise.{or_raise}
use observability_kit.Json.{Json, str, obj, get_item}
use observability_kit.Time.{floor_second}
use observability_kit.Tenant.Errors.{
  error_code, unknown_transition, not_legal_from, illegal_transition, Denial, Exception, denied,
  crashed, deny_for,
}
use observability_kit.Tenant.Document.{validate_tenant_document}
use observability_kit.Tenant.Machine.{Machine, Spec, find_spec}
use observability_kit.Tenant.Request.{Request, parse_transition_request}
use observability_kit.Tenant.Approval.{ApprovalRecord}
use observability_kit.Tenant.Store.{
  text, message, TenantRecord, Completed, Store, load_transition_record,
}
use observability_kit.Tenant.Audit.{Attempt, emit_audit}
use observability_kit.Tenant.Renders.{Builders}
use observability_kit.Tenant.Service.Gates.{
  Times, check_tenant_id, check_scope, check_document_identity, require_record, approval_gate,
  current_state,
}
use observability_kit.Tenant.Service.Extras.{Outcome}
use observability_kit.Tenant.Service.Apply.{apply}
use observability_kit.Tenant.Service.Replay.{replay}

-- What the gates of _transition_inner have established.
pub record Admitted : Type 0 where
  pub spec : Spec
  pub request : Request
  pub tenant : TenantRecord
  pub approval : Option ApprovalRecord
  pub state : String

-- `payload.get("actor")` of an object, if that is a text and not empty
abbrev pub actor_or_unknown : Json → String
actor_or_unknown (str s) = if s == "" then "unknown" else s
actor_or_unknown _ = "unknown"

abbrev pub actor_of : Json → String
actor_of (obj fs) = actor_or_unknown (get_item "actor" fs)
actor_of _ = "unknown"

unfoldable pub denial_attempt : String → String → Json → ℕ → Denial → Attempt
denial_attempt name t payload now d = record {
  tenant_id = t;
  transition = name;
  actor = actor_of payload;
  replay = false;
  outcome = "denied";
  recorded_at = floor_second now;
  extra_fields = ("error_code", text (error_code d.code)) ∷ ("message", message d.message) ∷ [];
  required_fields = none;
}

abbrev pub tenant_or : Option String → String → Option String
tenant_or none t = some t
tenant_or (some u) t = some u

-- The except clause: the denial is audited, and raised with the record's number.
unfoldable pub audit_denial : String → String → Json → ℕ → Denial → Exec Exception Store Outcome
audit_denial name t payload now d = do
  (n, r) ← emit_audit (denial_attempt name t payload now d)
  raise (denied (record d { audit_record_id = some n; tenant_id = tenant_or d.tenant_id t }))

abbrev pub on_denial :
    Result Exception Outcome
    → (Denial → Exec Exception Store Outcome)
    → Exec Exception Store Outcome
on_denial (ok r) h s = (ok r, s)
on_denial (raised (denied d)) h s = h d s
on_denial (raised (crashed c)) h s = (raised (crashed c), s)

module _ (m : Machine) where
  -- The reads and checks of _transition_inner, in order. None of them writes.
  unfoldable pub admit :
      String → String → Json → Option String → Times → Store → Result Exception Admitted
  admit name t payload scope times s = Raise.◌>>=◌ (check_scope scope t) λ _.
      Raise.◌>>=◌
        (or_raise (find_spec m name) (deny_for t illegal_transition (unknown_transition name)))
        λ spec. Raise.◌>>=◌ (parse_transition_request name payload) λ request.
          Raise.◌>>=◌ (require_record t s) λ tenant.
            Raise.◌>>=◌ (check_document_identity t tenant.document) λ _.
              Raise.◌>>=◌ (approval_gate spec request times.approval) λ approval.
                Raise.◌>>=◌ (validate_tenant_document (obj tenant.document)) λ _.
                  Raise.◌>>=◌ (current_state m t tenant.document) λ state. ok (record {
                    spec = spec;
                    request = request;
                    tenant = tenant;
                    approval = approval;
                    state = state;
                  })

  module _ (b : Builders) where
    -- The transition is legal from the current state, or denied.
    unfoldable pub apply_if_legal : String → Admitted → Times → Exec Exception Store Outcome
    apply_if_legal t a times =
        if elem a.state a.spec.from_states
        then apply b a.spec t a.tenant a.request a.approval a.state times
        else raise (deny_for t illegal_transition (not_legal_from a.state a.spec.from_states))

    -- A completed transition in its end state is replayed.
    unfoldable pub dispatch :
        String → Admitted → Times → Option Completed → Exec Exception Store Outcome
    dispatch t a times none = apply_if_legal t a times
    dispatch t a times (some completed) =
        if a.state == a.spec.to_state
        then replay b a.spec t a.tenant.document a.request a.approval completed times
        else apply_if_legal t a times

    unfoldable pub transition_inner :
        String → String → Json → Option String → Times → Exec Exception Store Outcome
    transition_inner name t payload scope times = do
      a ← (λ s. lift (admit name t payload scope times s) s)
      (λ s. dispatch t a times (load_transition_record s t name) s)

    unfoldable pub audited :
        String → String → Json → Option String → Times → Exec Exception Store Outcome
    audited name t payload scope times s =
        let (r, s') = transition_inner name t payload scope times s in
        on_denial r (audit_denial name t payload times.denied) s'

    unfoldable pub transition :
        String → String → Json → Option String → Times → Exec Exception Store Outcome
    transition name t payload scope times = do
      lift (check_tenant_id t)
      audited name t payload scope times
