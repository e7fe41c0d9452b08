-- ===== src/Tenant/Samples.antt =====
-- One tenant and the machine of contracts/tenancy/TENANT_LIFECYCLE_CONTRACT_V1.yaml.
use observability_kit.Prelude.{ℕ, ◌+◌, ◌*◌, String, true, false, List, [], ◌∷◌, none, some, pos}
use observability_kit.Json.{Json, bool, int, str, arr, obj, nil, cons, Fields, end, field}
use observability_kit.Time.{day}
use observability_kit.Tenant.Machine.{Machine, Spec}
use observability_kit.Tenant.Store.{Store, Completed}
use observability_kit.Tenant.Renders.{Builders, ◌⧺◌}
use observability_kit.Tenant.Service.Gates.{Times}

abbrev base_fields : List String
base_fields = "tenant_id" ∷ "transition" ∷ "actor" ∷ "requested_at" ∷ "completed_at" ∷ "replay" ∷ []

abbrev provision : Spec
provision = record {
  name = "provision";
  from_states = "provisioning" ∷ [];
  to_state = "active";
  idempotent = true;
  approval_risk_class = none;
  audit_required_fields = base_fields;
}

abbrev suspend : Spec
suspend = record {
  name = "suspend";
  from_states = "active" ∷ [];
  to_state = "suspended";
  idempotent = true;
  approval_risk_class = none;
  audit_required_fields = "tenant_id" ∷ "actor" ∷ "trigger_type" ∷ "reason" ∷ "replay" ∷ [];
}

abbrev purge : Spec
purge = record {
  name = "purge";
  from_states = "offboarding" ∷ [];
  to_state = "purged";
  idempotent = true;
  approval_risk_class = some "write.critical";
  audit_required_fields =
      "approval_id" ∷ "change_ticket" ∷ "evidence_artifact_refs" ∷ "purged_at" ∷ "replay" ∷ [];
}

abbrev pub machine : Machine
machine = record {
  states = "provisioning" ∷ "active" ∷ "suspended" ∷ "offboarding" ∷ "purged" ∷ [];
  initial_state = "provisioning";
  terminal_states = "purged" ∷ [];
  transitions = ("provision", provision) ∷ ("suspend", suspend) ∷ ("purge", purge) ∷ [];
}

abbrev pub builders : Builders
builders = record {
  tenant_values = λ fs. "values";
  appset_element = λ fs. "element";
  descriptor_digest = λ fs. "sha256:1";
  overlay_message = λ fs. "provision";
  overlay_manifest = λ digest files. digest ⧺ " manifest";
  opensearch_roles = λ fs. "roles";
  role_mappings = λ fs. "mappings";
  dashboard_space = λ fs. "space";
  vector_index = λ fs. "index";
  graph_artifact = λ fs. "graph";
  isolation_digest = λ files. "sha256:2";
  isolation_manifest = λ digest files. digest ⧺ " manifest";
  isolation_message = λ t files. t;
}

abbrev contact : Json
contact = obj (field "role" (str "technical") (field "email" (str "ops@acme.io") end))

abbrev days : ℕ → Json
days n = int (pos n)

abbrev quotas : Fields
quotas = field "ingest" (obj (field "max_gb_per_day" (int (pos 5)) end)) (
    field "retention"
      (obj (
        field "logs_days" (days 7)
          (field "metrics_days" (days 14) (field "traces_days" (days 3) end))))
      end)

abbrev residency : Fields
residency =
    field "region" (str "eu-west-1")
      (field "data_residency_required" (bool false) (field "pool" (str "dedicated") end))

abbrev document_named : String → String → Fields
document_named display_name state = field "tenant_id" (str "acme") (
    field "display_name" (str display_name) (
      field "tier" (str "premium") (
        field "isolation_class" (str "dedicated-stack") (
          field "residency" (obj residency) (
            field "lifecycle_state" (str state) (
              field "owner" (obj (field "name" (str "Ada") (field "email" (str "ada@acme.io") end)))
                (field "contacts" (arr (cons contact nil)) (
                  field "quotas" (obj quotas)
                    (field "created_at" (str "2026-01-01T00:00:00Z") end)))))))))

abbrev pub document : String → Fields
document state = document_named "Acme" state

abbrev pub renamed : Fields
renamed = document_named "Acme GmbH" "active"

-- 2026-06-01T12:00:00Z
abbrev pub now : ℕ
now = 63915912000000000

abbrev pub clocks : Times
clocks = record { approval = now; started = now; checked = now; retention = now; denied = now }

abbrev offboarded : Completed
offboarded = record {
  transition = "offboard";
  applied_at = 63913190400000000;
  actor = "ops";
  requested_at = none;
  completed_at = none;
  retention_window_ends_at = some (63913190400000000 + 14 * day);
  trigger_type = none;
  purged_at = none;
  evidence_artifact_refs = none;
  approval_id = some "APR-1";
  change_ticket = none;
}

abbrev pub empty_store : Store
empty_store = record {
  tenants = [];
  transitions = [];
  audits = [];
  evidence = [];
  commits = [];
  tree = [];
}

abbrev pub store_in : String → Store
store_in state = record empty_store {
  tenants = ("acme", record { document = document state; legal_hold = false }) ∷ [];
  transitions = ("acme", ("offboard", offboarded) ∷ []) ∷ [];
}

abbrev pub approval : Fields
approval = field "approval_id" (str "APR-2") (
    field "approver" (str "grace") (
      field "decision" (str "approved") (
        field "decided_at" (str "2026-06-01T11:00:00Z") (field "change_ticket" (str "CHG-9") end))))

abbrev pub purge_payload : Json
purge_payload = obj (field "actor" (str "ops") (field "approval" (obj approval) end))

abbrev pub suspend_payload : Json
suspend_payload = obj (
    field "actor" (str "ops")
      (field "trigger_type" (str "operator") (field "reason" (str "unpaid") end)))
