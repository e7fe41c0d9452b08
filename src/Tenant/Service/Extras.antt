-- ===== src/Tenant/Service/Extras.antt =====
-- TransitionResult, GitOpsRenderReference and _audit_extras.
use observability_kit.Prelude.{ℕ, String, Bool, [], ◌∷◌, Option, none, some, if◌then◌else◌}
use observability_kit.Prelude.Exec.{Result, ok}
use observability_kit.Prelude.Raise
use observability_kit.Prelude.Raise.{or_raise}
use observability_kit.Tenant.Errors.{Exception, crashed, assertion_error, key_error}
use observability_kit.Tenant.Request.{
  Request, provision_request, suspend_request, resume_request, offboard_request, purge_request,
}
use observability_kit.Tenant.Approval.{ApprovalRecord}
use observability_kit.Tenant.Store.{text, time, refs, AuditRecord, Completed}

pub data RenderAction : Type 0 where
  rendered retained removed not_applicable replayed_no_diff : RenderAction

-- GitOpsRenderReference
pub record RenderRef : Type 0 where
  pub render_action : RenderAction
  pub overlay_path : Option String
  pub commit_ref : Option String

-- TransitionResult; `audit` has the number of the record and the record.
pub record Outcome : Type 0 where
  pub tenant_id : String
  pub transition : String
  pub from_state : String
  pub lifecycle_state : String
  pub replay : Bool
  pub audit : ℕ × AuditRecord
  pub gitops_render : RenderRef

abbrev pub only_action : RenderAction → RenderRef
only_action a = record { render_action = a; overlay_path = none; commit_ref = none }

-- `d.get(key, now)` of a completed record, and `d[key]`
abbrev or_now : Option ℕ → ℕ → ℕ
or_now none now = now
or_now (some t) now = t

abbrev required_approval : Option ApprovalRecord → Result Exception ApprovalRecord
required_approval a = or_raise a (crashed assertion_error)

unfoldable pub offboard_extras :
    Option ApprovalRecord → String → Completed → Result Exception AuditRecord
offboard_extras a reason c = Raise.◌>>=◌ (required_approval a) λ approval.
    Raise.◌>>=◌ (or_raise c.retention_window_ends_at (crashed key_error)) λ ends_at. ok (
      ("approval_id", text approval.approval_id)
      ∷ ("reason", text reason)
      ∷ ("retention_window_ends_at", time ends_at)
      ∷ [])

unfoldable pub purge_extras : Option ApprovalRecord → Completed → Result Exception AuditRecord
purge_extras a c = Raise.◌>>=◌ (required_approval a) λ approval.
    Raise.◌>>=◌ (or_raise approval.change_ticket (crashed assertion_error)) λ ticket.
      Raise.◌>>=◌ (or_raise c.evidence_artifact_refs (crashed key_error)) λ evidence.
        Raise.◌>>=◌ (or_raise c.purged_at (crashed key_error)) λ purged_at. ok (
          ("approval_id", text approval.approval_id)
          ∷ ("change_ticket", text ticket)
          ∷ ("evidence_artifact_refs", refs evidence)
          ∷ ("purged_at", time purged_at)
          ∷ [])

-- _audit_extras
unfoldable pub audit_extras :
    Request → Option ApprovalRecord → Completed → ℕ → Bool → Result Exception AuditRecord
audit_extras (provision_request _ _) a c now replay = ok (
    ("requested_at", time (if replay then or_now c.requested_at now else now))
    ∷ ("completed_at", time (if replay then or_now c.completed_at now else now))
    ∷ [])
audit_extras (suspend_request _ trigger reason) a c now replay =
    ok (("trigger_type", text trigger) ∷ ("reason", text reason) ∷ [])
audit_extras (resume_request _ reason) a c now replay = ok (("reason", text reason) ∷ [])
audit_extras (offboard_request _ reason _) a c now replay = offboard_extras a reason c
audit_extras (purge_request _ _ _) a c now replay = purge_extras a c
