-- ===== src/Tenant/Service/Apply.antt =====
-- _apply, _execute_provision and _execute_purge of TenantControlPlaneService.
use observability_kit.Prelude.{
  ℕ, String, Bool, false, ◌||◌, ◌&&◌, not, List, [], ◌∷◌, Option, none, some, ◌==◌, if◌then◌else◌,
}
use observability_kit.Prelude.Exec.{Exec, ok, pure, lift, modify, ◌>>=◌, ◌>>◌}
use observability_kit.Prelude.Raise
use observability_kit.Prelude.Raise.{or_raise}
use observability_kit.Json.{str, Fields, set_item}
use observability_kit.Time.{floor_second}
use observability_kit.Render.{write_files}
use observability_kit.Tenant.Errors.{Exception}
use observability_kit.Tenant.Machine.{Spec}
use observability_kit.Tenant.Request.{Request, actor, suspend_request}
use observability_kit.Tenant.Approval.{ApprovalRecord}
use observability_kit.Tenant.Store.{
  TenantRecord, Completed, Evidence, Store, save_tenant_record, save_transition_record,
  save_evidence, save_prepared_commit,
}
use observability_kit.Tenant.Audit.{emit_audit}
use observability_kit.Tenant.Renders.{
  Builders, ◌⧺◌, overlay_dir, is_dedicated, removal_ref, removal_message, commit_ref,
  plan_overlay_render, execute_isolation_renders, remove_overlay,
}
use observability_kit.Tenant.Service.Gates.{Times, check_preconditions, retention_window_end}
use observability_kit.Tenant.Service.Extras.{
  rendered, retained, removed, not_applicable, RenderRef, Outcome, only_action, audit_extras,
}

-- transition_record as it is first built
abbrev blank : String → ℕ → String → Completed
blank name now who = record {
  transition = name;
  applied_at = now;
  actor = who;
  requested_at = none;
  completed_at = none;
  retention_window_ends_at = none;
  trigger_type = none;
  purged_at = none;
  evidence_artifact_refs = none;
  approval_id = none;
  change_ticket = none;
}

-- `if isinstance(request, SuspendRequest)`
abbrev trigger_of : Request → Option String
trigger_of (suspend_request _ t _) = some t
trigger_of _ = none

abbrev pub with_approval : Option ApprovalRecord → Completed → Completed
with_approval none c = c
with_approval (some a) c = record c {
  approval_id = some a.approval_id;
  change_ticket = a.change_ticket;
}

abbrev pub evidence_categories : List String
evidence_categories =
    "opensearch_indices" ∷ "security_roles_and_mappings" ∷ "dashboard_spaces" ∷ "vector_indices"
    ∷ "graph_database" ∷ "gitops_overlay" ∷ []

unfoldable pub evidence_for : String → Bool → ℕ → String → Evidence
evidence_for t dedicated now category =
    let overlay = category == "gitops_overlay" in
    record {
      category = category;
      tenant_id = t;
      captured_at = now;
      recorded = not overlay || dedicated;
      overlay_path = if overlay && dedicated then some (overlay_dir t) else none;
      commit_ref = if overlay && dedicated then some (removal_ref t) else none;
    }

-- The loop over the evidence categories: the refs that save_evidence returns.
unfoldable pub record_evidence :
    String → Bool → ℕ → List String → Exec Exception Store (List String)
record_evidence t dedicated now [] s = (ok [], s)
record_evidence t dedicated now (c ∷ cs) s =
    let (rest, s') =
      record_evidence t dedicated now cs (save_evidence t c (evidence_for t dedicated now c) s) in
    (Raise.◌>>=◌ rest (λ more. ok (("evidence/" ⧺ t ⧺ "/" ⧺ c ⧺ ".json") ∷ more)), s')

unfoldable pub execute_purge : String → Bool → ℕ → Exec Exception Store (RenderRef × List String)
execute_purge t dedicated now = do
  ref ←
      if dedicated
      then (do
        remove_overlay t
        modify (save_prepared_commit t "purge" (removal_message t))
        pure (record {
          render_action = removed;
          overlay_path = some (overlay_dir t);
          commit_ref = some (removal_ref t);
        }))
      else pure (only_action not_applicable)
  evidence ← record_evidence t dedicated now evidence_categories
  pure (ref, evidence)

module _ (b : Builders) where
  unfoldable pub execute_provision : String → Fields → Exec Exception Store RenderRef
  execute_provision t fs = do
    execute_isolation_renders b t fs
    if is_dedicated fs
        then (do
          let plan = plan_overlay_render b t fs
          modify (λ s. record s { tree = write_files plan s.tree })
          modify (save_prepared_commit t "provision" plan.commit_message)
          pure (record {
            render_action = rendered;
            overlay_path = some (overlay_dir t);
            commit_ref = some (commit_ref plan);
          }))
        else pure (only_action not_applicable)

  -- The overlay stays as it is on suspend, resume and offboard.
  abbrev kept : String → Bool → RenderRef
  kept t dedicated =
      if dedicated
      then record {
        render_action = retained;
        overlay_path = some (overlay_dir t);
        commit_ref = none;
      }
      else only_action not_applicable

  unfoldable pub apply_provision :
      String → TenantRecord → Completed → ℕ → Exec Exception Store (RenderRef × Completed)
  apply_provision t r c now = do
    ref ← execute_provision t r.document
    pure (ref, record c { requested_at = some now; completed_at = some now })

  unfoldable pub apply_kept :
      Spec
      → String
      → TenantRecord
      → Request
      → Completed
      → ℕ
      → Exec Exception Store (RenderRef × Completed)
  apply_kept spec t r request c now = do
    ends_at ←
        if spec.name == "offboard"
        then lift (Raise.◌>>=◌ (retention_window_end r.document now) (λ ends. ok (some ends)))
        else pure none
    pure (
      kept t (is_dedicated r.document),
      record c { retention_window_ends_at = ends_at; trigger_type = trigger_of request },
    )

  unfoldable pub apply_purge :
      String → TenantRecord → Completed → ℕ → Exec Exception Store (RenderRef × Completed)
  apply_purge t r c now = do
    (ref, evidence) ← execute_purge t (is_dedicated r.document) now
    pure (ref, record c { purged_at = some now; evidence_artifact_refs = some evidence })

  -- The branches of _apply on the transition's name.
  unfoldable pub apply_named :
      Spec → String → TenantRecord → Request → Times → Exec Exception Store (RenderRef × Completed)
  apply_named spec t r request times =
      let now = floor_second times.started in
      let c = blank spec.name now (actor request) in
      if spec.name == "provision"
      then apply_provision t r c now
      else if spec.name == "suspend" || spec.name == "resume" || spec.name == "offboard"
      then apply_kept spec t r request c times.retention
      else apply_purge t r c now

  -- The writes that follow: the tenant record, the transition record, the audit record.
  unfoldable pub finish :
      Spec
      → String
      → TenantRecord
      → Request
      → Option ApprovalRecord
      → String
      → ℕ
      → RenderRef
      → Completed
      → Exec Exception Store Outcome
  finish spec t r request a from now ref c = do
    modify (
        save_tenant_record t
          (record r { document = set_item "lifecycle_state" (str spec.to_state) r.document }))
    modify (save_transition_record t spec.name (with_approval a c))
    extra ← lift (audit_extras request a (with_approval a c) now false)
    audit ← emit_audit (record {
      tenant_id = t;
      transition = spec.name;
      actor = actor request;
      replay = false;
      outcome = "applied";
      recorded_at = now;
      extra_fields = extra;
      required_fields = some spec.audit_required_fields;
    })
    pure (record {
      tenant_id = t;
      transition = spec.name;
      from_state = from;
      lifecycle_state = spec.to_state;
      replay = false;
      audit = audit;
      gitops_render = ref;
    })

  unfoldable pub apply :
      Spec
      → String
      → TenantRecord
      → Request
      → Option ApprovalRecord
      → String
      → Times
      → Exec Exception Store Outcome
  apply spec t r request a from times = do
    (λ s. lift (check_preconditions spec t r times.checked s) s)
    (ref, c) ← apply_named spec t r request times
    finish spec t r request a from (floor_second times.started) ref c
