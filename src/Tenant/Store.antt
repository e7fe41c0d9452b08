-- ===== src/Tenant/Store.antt =====
-- services/tenancy/tenantctl/store.py: the files of the control plane, as the dictionaries that
-- they stand for, with the rendered tree beside them. A timestamp is the instant that its text
-- denotes.
use observability_kit.Prelude.{
  ℕ, suc, String, Bool, List, [], ◌∷◌, Option, none, some, length, ◌=?◌, if◌then◌else◌,
}
use observability_kit.Prelude.Dict.{Dict, lookup, put, without}
use observability_kit.Json.{Fields}
use observability_kit.Tenant.Errors.{Message}

pub record TenantRecord : Type 0 where
  pub document : Fields
  pub legal_hold : Bool

-- A completed-transition record; an absent key is `none`.
pub record Completed : Type 0 where
  pub transition : String
  pub applied_at : ℕ
  pub actor : String
  pub requested_at : Option ℕ
  pub completed_at : Option ℕ
  pub retention_window_ends_at : Option ℕ
  pub trigger_type : Option String
  pub purged_at : Option ℕ
  pub evidence_artifact_refs : Option (List String)
  pub approval_id : Option String
  pub change_ticket : Option String

-- A value of an audit record's field.
pub data Value : Type 0 where
  text : String → Value
  flag : Bool → Value
  time : ℕ → Value
  refs : List String → Value
  message : Message → Value

abbrev pub AuditRecord : Type 0
AuditRecord = Dict Value

pub record Evidence : Type 0 where
  pub category : String
  pub tenant_id : String
  pub captured_at : ℕ
  pub recorded : Bool
  pub overlay_path : Option String
  pub commit_ref : Option String

pub record Store : Type 0 where
  pub tenants : Dict TenantRecord
  pub transitions : Dict (Dict Completed)
  -- audit/audit-<n>.json by its number
  pub audits : List (ℕ × AuditRecord)
  pub evidence : Dict (Dict Evidence)
  pub commits : Dict (Dict String)
  -- the files that the renderer writes, by path
  pub tree : Dict String

-- The files of one tenant's directory.
unfoldable pub directory {ℓ} : {V : Type ℓ} → String → Dict (Dict V) → Dict V
directory t d = elim (lookup t d) [ none ↦ [] | some files ↦ files ]

unfoldable pub load_tenant_record : Store → String → Option TenantRecord
load_tenant_record s t = lookup t s.tenants

unfoldable pub save_tenant_record : String → TenantRecord → Store → Store
save_tenant_record t r s = record s { tenants = put t r s.tenants }

unfoldable pub load_transition_record : Store → String → String → Option Completed
load_transition_record s t name = lookup name (directory t s.transitions)

unfoldable pub save_transition_record : String → String → Completed → Store → Store
save_transition_record t name r s = record s {
  transitions = put t (put name r (directory t s.transitions)) s.transitions;
}

unfoldable pub clear_transition_records : String → Store → Store
clear_transition_records t s = record s { transitions = without t s.transitions }

-- Writing a file of the audit directory replaces one of the same name.
unfoldable pub write_audit : ℕ → AuditRecord → List (ℕ × AuditRecord) → List (ℕ × AuditRecord)
write_audit n r [] = (n, r) ∷ []
write_audit n r ((m, q) ∷ files) = if m =? n then (n, r) ∷ files else (m, q) ∷ write_audit n r files

-- The new record's number, and the store after the write.
unfoldable pub append_audit : AuditRecord → Store → ℕ × Store
append_audit r s =
    let sequence = suc (length s.audits) in
    (sequence, record s { audits = write_audit sequence r s.audits })

unfoldable pub save_evidence : String → String → Evidence → Store → Store
save_evidence t category e s = record s {
  evidence = put t (put category e (directory t s.evidence)) s.evidence;
}

unfoldable pub save_prepared_commit : String → String → String → Store → Store
save_prepared_commit t name content s = record s {
  commits = put t (put name content (directory t s.commits)) s.commits;
}
