-- ===== src/Tenant/Service/Replay.antt =====
-- _replay of TenantControlPlaneService: an audited no-op, except that a provision replay converges
-- drifted files and a purge replay removes a leftover overlay.
use observability_kit.Prelude.{
  String, Bool, true, false, ◌&&◌, not, Option, none, some, ◌==◌, null, if◌then◌else◌,
}
use observability_kit.Prelude.Exec.{Exec, pure, lift, gets, modify, ◌>>=◌, ◌>>◌}
use observability_kit.Json.{Fields}
use observability_kit.Time.{floor_second}
use observability_kit.Render.{changed_paths, write_files}
use observability_kit.Tenant.Errors.{Exception}
use observability_kit.Tenant.Machine.{Spec}
use observability_kit.Tenant.Request.{Request, actor}
use observability_kit.Tenant.Approval.{ApprovalRecord}
use observability_kit.Tenant.Store.{Completed, Store, save_prepared_commit}
use observability_kit.Tenant.Audit.{emit_audit}
use observability_kit.Tenant.Renders.{
  Builders, overlay_dir, is_dedicated, removal_ref, commit_ref, plan_overlay_render,
  execute_isolation_renders, remove_overlay,
}
use observability_kit.Tenant.Service.Gates.{Times}
use observability_kit.Tenant.Service.Extras.{
  RenderAction, rendered, removed, replayed_no_diff, RenderRef, Outcome, audit_extras,
}

abbrev overlay_path_if : Bool → String → Option String
overlay_path_if true t = some (overlay_dir t)
overlay_path_if false t = none

abbrev no_diff : Bool → String → RenderRef
no_diff with_path t = record {
  render_action = replayed_no_diff;
  overlay_path = overlay_path_if with_path t;
  commit_ref = none;
}

abbrev is_no_diff : RenderAction → Bool
is_no_diff replayed_no_diff = true
is_no_diff _ = false

module _ (b : Builders) where
  -- A dedicated stack's overlay is written again if a file of it differs.
  unfoldable pub converge_overlay : String → Fields → Exec Exception Store RenderRef
  converge_overlay t fs = do
    let plan = plan_overlay_render b t fs
    unchanged ← gets (λ s. null (changed_paths plan s.tree))
    if unchanged then pure (no_diff true t) else (do
      modify (λ s. record s { tree = write_files plan s.tree })
      modify (save_prepared_commit t "provision" plan.commit_message)
      pure (record {
        render_action = rendered;
        overlay_path = some (overlay_dir t);
        commit_ref = some (commit_ref plan);
      }))

  unfoldable pub replay_provision : String → Fields → Exec Exception Store RenderRef
  replay_provision t fs = do
    ref ← if is_dedicated fs then converge_overlay t fs else pure (no_diff false t)
    changed ← execute_isolation_renders b t fs
    pure (
        if not (null changed) && is_no_diff ref.render_action
        then record {
          render_action = rendered;
          overlay_path = overlay_path_if (is_dedicated fs) t;
          commit_ref = none;
        }
        else ref)

  unfoldable pub replay_purge : String → Fields → Exec Exception Store RenderRef
  replay_purge t fs = do
    found ← if is_dedicated fs then remove_overlay t else pure false
    pure (
        if found
        then record {
          render_action = removed;
          overlay_path = some (overlay_dir t);
          commit_ref = some (removal_ref t);
        }
        else no_diff false t)

  -- The branches of _replay on the transition's name.
  unfoldable pub replay_named : Spec → String → Fields → Exec Exception Store RenderRef
  replay_named spec t fs =
      if spec.name == "provision"
      then replay_provision t fs
      else if spec.name == "purge"
      then replay_purge t fs
      else pure (no_diff (is_dedicated fs) t)

  unfoldable pub replay :
      Spec
      → String
      → Fields
      → Request
      → Option ApprovalRecord
      → Completed
      → Times
      → Exec Exception Store Outcome
  replay spec t fs request a completed times = do
    let now = floor_second times.started
    ref ← replay_named spec t fs
    extra ← lift (audit_extras request a completed now true)
    audit ← emit_audit (record {
      tenant_id = t;
      transition = spec.name;
      actor = actor request;
      replay = true;
      outcome = "replayed";
      recorded_at = now;
      extra_fields = extra;
      required_fields = some spec.audit_required_fields;
    })
    pure (record {
      tenant_id = t;
      transition = spec.name;
      from_state = spec.to_state;
      lifecycle_state = spec.to_state;
      replay = true;
      audit = audit;
      gitops_render = ref;
    })
