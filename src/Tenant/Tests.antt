-- ===== src/Tenant/Tests.antt =====
-- Runs of the control plane on one tenant.
use observability_kit.Prelude.{
  true, false, [], ◌∷◌, ◌++◌, none, some, ◌≡◌, ◌⊎◌, refl, all, codes, eq_iff, arith,
}
use observability_kit.Prelude.Exec.{Result, ok, raised}
use observability_kit.Prelude.Dict.{lookup, put, without, update}
use observability_kit.Json.{set_item}
use observability_kit.Regex.{nullable, cat, join, deriv, matches, up_to, times, full_match}
use observability_kit.Regex.Patterns.{
  between, is_slug_end, is_slug_char, tenant_id_pattern, is_space, is_mail_char, email_pattern,
  is_digit, datetime_pattern, is_tenant_id, is_email, is_datetime,
}
use observability_kit.Time.{floor_second, ordinal, from_isoformat, to_utc}
use observability_kit.Render.{is_current, changed_from, changed_paths, write_from, write_files}
use observability_kit.Tenant.Errors.{error_code, http_status}
use observability_kit.Tenant.Document.{
  validate_residency, validate_ingest, validate_retention, validate_quotas, validate_owner,
  validate_contact, validate_contact_items, validate_contacts, validate_scalars,
  document_violations, validate_tenant_document, check_days,
}
use observability_kit.Tenant.Document.Checks.{
  missing_keys, unknown_keys, check_keys, text_violations, require_str, value_violations,
}
use observability_kit.Tenant.Request.{
  require_texts, reject_body, parse_common, text_at, parse_transition_request,
}
use observability_kit.Tenant.Machine.{find_spec, is_state}
use observability_kit.Tenant.Approval.{
  approval_flow, parse_decided_at, check_timeout, field_problems, minus, unknown_problems,
  reject_problems, check_fields, check_payload, validate_approval,
}
use observability_kit.Tenant.Store.{
  directory, load_tenant_record, save_tenant_record, load_transition_record, save_transition_record,
  clear_transition_records, write_audit, append_audit, save_evidence, save_prepared_commit,
}
use observability_kit.Tenant.Audit.{
  missing_fields, ensure_required_fields, ensure_base_invariants, build_record, verify_record,
  emit_audit,
}
use observability_kit.Tenant.Renders.{
  overlay_dir, isolation_dir, render_manifest_path, removal_ref, removal_message, commit_ref,
  plan_overlay_render, isolation_plan, execute_isolation_renders, remove_dir, is_dir,
  remove_overlay,
}
use observability_kit.Tenant.Service.Gates.{
  check_tenant_id, check_document_identity, check_scope, require_record, approval_gate,
  current_state, in_items, check_provision, check_window, check_purge, check_preconditions,
  retention_window_end,
}
use observability_kit.Tenant.Service.Extras.{offboard_extras, purge_extras, audit_extras}
use observability_kit.Tenant.Service.Apply.{
  evidence_for, record_evidence, execute_purge, execute_provision, apply_provision, apply_kept,
  apply_purge, apply_named, finish, apply,
}
use observability_kit.Tenant.Service.Replay.{
  converge_overlay, replay_provision, replay_purge, replay_named, replay,
}
use observability_kit.Tenant.Service.Transition.{
  denial_attempt, audit_denial, admit, apply_if_legal, dispatch, transition_inner, audited,
  transition,
}
use observability_kit.Tenant.Service.Crud.{
  release_id, create_fields, create_object, create_tenant, get_tenant, insert_sorted,
  list_tenant_ids, list_documents, list_tenants, check_immutable, update_document, update_tenant,
  set_legal_hold,
}
use observability_kit.Tenant.Store.{TenantRecord}
use observability_kit.Tenant.Store.{Store, Completed, text, flag, time, message}
use observability_kit.Tenant.Errors.{
  cross_tenant, Denial, Exception, denied, illegal_transition, not_legal_from,
}
use observability_kit.Json.{obj}
use observability_kit.Tenant.Audit.{Attempt}
use observability_kit.Tenant.Audit.Laws.{
  append_audit-grows, NumberedFrom, emit_audit-AllPresent, AllPresent,
}
use observability_kit.Tenant.Approval.{Flow, ApprovalRecord}
use observability_kit.Tenant.Approval.Laws.{IsApproved, validate_approval-IsApproved}
use observability_kit.Tenant.Document.Spec.{IsTenantDocument}
use observability_kit.Tenant.Document.Valid.{accepted-IsTenantDocument}
use observability_kit.Tenant.Service.Extras.{Outcome, not_applicable, only_action}
use observability_kit.Tenant.Service.Transition.{Admitted}
use observability_kit.Tenant.Service.Legal.{IsAdmitted}
use observability_kit.Tenant.Service.Applied.{IsApplied, IsReplayed, transition-IsAdmitted}
use observability_kit.Tenant.Service.DenialRecord.{denial_record}
use observability_kit.Tenant.Service.Audited.{transition-IsAudited}
use observability_kit.Tenant.Service.Scope.{foreign, transition-foreign, is_id_char, tenant_id-all}
use observability_kit.Tenant.Service.Records.{
  IsUpdate, update_tenant-IsUpdate, IsCreation, create_tenant-IsCreation,
}
use observability_kit.Json.{Fields}
use observability_kit.Tenant.Service.Purge.{NamesSpecs, IsPurgeable, purge-IsPurgeable}
use observability_kit.Tenant.Samples.{
  machine, builders, clocks, store_in, empty_store, document, renamed, approval, now, purge_payload,
  suspend_payload,
}
mod History

program : Unit {0}
unfolding lookup put without update set_item nullable cat join deriv matches up_to times full_match
    between is_slug_end is_slug_char tenant_id_pattern is_space is_mail_char email_pattern is_digit
    datetime_pattern is_tenant_id is_email is_datetime ordinal from_isoformat to_utc is_current
    changed_from changed_paths write_from write_files error_code http_status validate_residency
    validate_ingest validate_retention validate_quotas validate_owner validate_contact
    validate_contact_items validate_contacts validate_scalars document_violations
    validate_tenant_document missing_keys unknown_keys check_keys text_violations require_str
    require_texts reject_body parse_common text_at parse_transition_request find_spec is_state
    approval_flow parse_decided_at check_timeout field_problems minus unknown_problems
    reject_problems check_fields check_payload validate_approval directory load_tenant_record
    save_tenant_record load_transition_record save_transition_record clear_transition_records
    write_audit append_audit save_evidence save_prepared_commit missing_fields
    ensure_required_fields ensure_base_invariants build_record verify_record emit_audit overlay_dir
    isolation_dir render_manifest_path removal_ref removal_message commit_ref plan_overlay_render
    isolation_plan execute_isolation_renders remove_dir is_dir remove_overlay check_tenant_id
    check_document_identity check_scope require_record approval_gate current_state in_items
    check_provision check_window check_purge check_preconditions retention_window_end
    offboard_extras purge_extras audit_extras evidence_for record_evidence execute_purge
    execute_provision apply_provision apply_kept apply_purge apply_named finish apply
    converge_overlay replay_provision replay_purge replay_named replay denial_attempt audit_denial
    admit apply_if_legal dispatch transition_inner audited transition release_id create_fields
    create_object create_tenant get_tenant insert_sorted list_tenant_ids list_documents list_tenants
    check_immutable update_document update_tenant set_legal_hold value_violations check_days
program = tt

machine_names : NamesSpecs machine
unfolding find_spec lookup
machine_names name spec h =
    ground (arith, eq_iff "provision" name, eq_iff "suspend" name, eq_iff "purge" name)

purge-IsPurgeable_example :
    (r : TenantRecord) × IsPurgeable (store_in "offboarding") "acme" r clocks.checked
unfolding program
purge-IsPurgeable_example =
    purge-IsPurgeable machine builders "acme" purge_payload none clocks (store_in "offboarding") _ _
      machine_names refl refl

abbrev pub active : Store
active = store_in "active"

abbrev no_outcome : Outcome
no_outcome = record {
  tenant_id = "";
  transition = "";
  from_state = "";
  lifecycle_state = "";
  replay = false;
  audit = (0, []);
  gitops_render = only_action not_applicable;
}

abbrev outcome_of : Result Exception Outcome → Outcome
outcome_of (ok x) = x
outcome_of (raised e) = no_outcome

abbrev pub suspension : Result Exception Outcome × Store
suspension =
    transition machine builders "suspend" "acme" suspend_payload (some "acme") clocks active

transition-IsAdmitted_example :
    (a : Admitted) × IsAdmitted machine "suspend" "acme" suspend_payload
      (some "acme")
      clocks
      active
      a
    × (IsApplied builders "acme" a clocks active suspension.1 (outcome_of suspension.0)
        ⊎ (((c : Completed) × (load_transition_record active "acme" "suspend" ≡ some c))
            × IsReplayed builders "acme" a active suspension.1 (outcome_of suspension.0)))
unfolding program
transition-IsAdmitted_example =
    transition-IsAdmitted machine builders "suspend" "acme" suspend_payload (some "acme") clocks
      active suspension.1 (outcome_of suspension.0) refl

abbrev not_legal : Denial
not_legal = record {
  code = illegal_transition;
  message = not_legal_from "active" ("offboarding" ∷ []);
  tenant_id = some "acme";
  audit_record_id = none;
}

transition-IsAudited_example :
    transition machine builders "purge" "acme" purge_payload none clocks active ≡ (
      raised (denied (record not_legal { audit_record_id = some 1 })),
      record active {
        audits =
            write_audit 1 (denial_record "purge" "acme" purge_payload clocks.denied not_legal) [];
      },
    )
unfolding program
transition-IsAudited_example =
    transition-IsAudited machine builders "purge" "acme" purge_payload none clocks active not_legal
      refl refl refl

transition-foreign_example :
    transition machine builders "purge" "acme" purge_payload (some "globex") clocks active ≡ (
      raised (denied (record (foreign "acme") { audit_record_id = some 1 })),
      record active {
        audits =
            write_audit 1
              (("tenant_id", text "acme")
                ∷ ("transition", text "purge")
                ∷ ("actor", text "ops")
                ∷ ("replay", flag false)
                ∷ ("outcome", text "denied")
                ∷ ("recorded_at", time (floor_second clocks.denied))
                ∷ ("error_code", text "cross-tenant-access-denied")
                ∷ ("message", message cross_tenant)
                ∷ [])
              [];
      },
    )
unfolding program
transition-foreign_example =
    transition-foreign machine builders "purge" "acme" "globex" purge_payload clocks active refl
      refl refl

tenant_id-all_example : all is_id_char (codes "acme-7") ≡ true
unfolding program
tenant_id-all_example = tenant_id-all "acme-7" refl

update_tenant-IsUpdate_example :
    IsUpdate "acme"
      (obj renamed)
      none
      active
      (update_tenant "acme" (obj renamed) none active).1
      renamed
unfolding program
update_tenant-IsUpdate_example =
    update_tenant-IsUpdate "acme" (obj renamed) none active
      (update_tenant "acme" (obj renamed) none active).1 renamed refl

create_tenant-IsCreation_example :
    IsCreation machine
      (obj (document "provisioning"))
      (some "acme")
      empty_store
      (create_tenant machine (obj (document "provisioning")) (some "acme") empty_store).1
      (document "provisioning")
unfolding program
create_tenant-IsCreation_example =
    create_tenant-IsCreation machine (obj (document "provisioning")) (some "acme") empty_store
      (create_tenant machine (obj (document "provisioning")) (some "acme") empty_store).1
      (document "provisioning") refl

accepted-IsTenantDocument_example :
    (fs : Fields) × (obj (document "active") ≡ obj fs) × IsTenantDocument fs
unfolding program
accepted-IsTenantDocument_example = accepted-IsTenantDocument (obj (document "active")) refl

abbrev approved : ApprovalRecord
approved = record {
  approval_id = "APR-2";
  approver = "grace";
  decision = "approved";
  decided_at = "2026-06-01T11:00:00Z";
  change_ticket = some "CHG-9";
}

validate_approval-IsApproved_example :
    (flow : Flow) × (fs : Fields) × (approval_flow "write.critical" ≡ some flow)
    × (obj approval ≡ obj fs)
    × IsApproved fs flow now approved
unfolding program
validate_approval-IsApproved_example =
    validate_approval-IsApproved (obj approval) "write.critical" now approved refl

abbrev attempt : Attempt
attempt = record {
  tenant_id = "acme";
  transition = "suspend";
  actor = "ops";
  replay = false;
  outcome = "applied";
  recorded_at = now;
  extra_fields = ("reason", text "unpaid") ∷ [];
  required_fields = some ("actor" ∷ "reason" ∷ []);
}

append_audit-grows_example :
    ((append_audit (build_record attempt) active).1.audits ≡ [] ++ (1, build_record attempt) ∷ [])
    × NumberedFrom 1 (append_audit (build_record attempt) active).1.audits
unfolding program
append_audit-grows_example = append_audit-grows (build_record attempt) active tt

emit_audit-AllPresent_example : AllPresent (build_record attempt) ("actor" ∷ "reason" ∷ [])
unfolding program
emit_audit-AllPresent_example =
    emit_audit-AllPresent attempt active 1 (build_record attempt) ("actor" ∷ "reason" ∷ []) refl
      refl
