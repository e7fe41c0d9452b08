-- ===== src/Tenant/Renders.antt =====
-- services/tenancy/tenantctl/renders.py and isolation.py: which files a tenant's overlay and its
-- isolation artifacts are. The texts of the files, the digests and the commit messages are built
-- by functions of those modules that only format text: the record Builders stands for them.
use Prim.Native.String.{◌++◌ as text_append}
use text.Mathlib.Text.{starts_with}
use observability_kit.Prelude.{String, Bool, true, false, ◌||◌, List, [], ◌∷◌, if◌then◌else◌}
use observability_kit.Prelude.Dict.{Dict}
use observability_kit.Prelude.Exec.{Exec, ok}
use observability_kit.Json.{Json, Fields, get_item, is_text}
use observability_kit.Render.{Artifact, Plan, changed_paths, write_files}
use observability_kit.Tenant.Errors.{Exception}
use observability_kit.Tenant.Store.{Store}

pub record Builders : Type 0 where
  -- build_tenant_values, build_appset_element, _descriptor_digest, _render_commit_message
  pub tenant_values : Fields → String
  pub appset_element : Fields → String
  pub descriptor_digest : Fields → String
  pub overlay_message : Fields → String
  pub overlay_manifest : String → List Artifact → String
  -- the builders of isolation.py
  pub opensearch_roles : Fields → String
  pub role_mappings : Fields → String
  pub dashboard_space : Fields → String
  pub vector_index : Fields → String
  pub graph_artifact : Fields → String
  pub isolation_digest : List Artifact → String
  pub isolation_manifest : String → List Artifact → String
  pub isolation_message : String → List Artifact → String

infixr 65 ◌⧺◌
abbrev pub ◌⧺◌ : String → String → String
s ⧺ t = text_append s t

unfoldable pub overlay_dir : String → String
overlay_dir tenant_id = "gitops/overlays/tenants/" ⧺ tenant_id ⧺ "/"

unfoldable pub isolation_dir : String → Bool → String
isolation_dir tenant_id dedicated =
    if dedicated
    then overlay_dir tenant_id ⧺ "isolation/"
    else "gitops/platform/tenants/" ⧺ tenant_id ⧺ "/isolation/"

-- `document["isolation_class"] == ISOLATION_DEDICATED_STACK`
abbrev pub is_dedicated : Fields → Bool
is_dedicated fs = is_text "dedicated-stack" (get_item "isolation_class" fs)

-- store.render_manifest_path, below the root of the control-plane store
unfoldable pub render_manifest_path : String → String
render_manifest_path tenant_id =
    "store:renders/" ⧺ tenant_id ⧺ "/TENANT_OVERLAY_RENDER_MANIFEST.json"

unfoldable pub removal_ref : String → String
removal_ref tenant_id = "prepared:removal:" ⧺ tenant_id

unfoldable pub removal_message : String → String
removal_message tenant_id =
    "tenancy("
    ⧺ tenant_id
    ⧺ "): remove tenant overlay (purge)\n\noverlay "
    ⧺ overlay_dir tenant_id
    ⧺ " removed via git commit per purged_behavior\n\nTenant-Overlay-Contract: "
    ⧺ "contracts/tenancy/TENANT_OVERLAY_GENERATION_CONTRACT_V1.yaml\n"

-- commit_ref_for
unfoldable pub commit_ref : Plan → String
commit_ref plan = "prepared:" ⧺ plan.document_digest

module _ (b : Builders) where
  abbrev overlay_files : String → Fields → List Artifact
  overlay_files tenant_id fs =
      (overlay_dir tenant_id ⧺ "applicationset-element.yaml", b.appset_element fs)
      ∷ (overlay_dir tenant_id ⧺ "tenant-values.yaml", b.tenant_values fs)
      ∷ []

  unfoldable pub plan_overlay_render : String → Fields → Plan
  plan_overlay_render tenant_id fs =
      let files = overlay_files tenant_id fs in
      record {
        document_digest = b.descriptor_digest fs;
        artifacts = files;
        manifest_path = render_manifest_path tenant_id;
        manifest_content = b.overlay_manifest (b.descriptor_digest fs) files;
        commit_message = b.overlay_message fs;
      }

  abbrev graph_file : Json → String
  graph_file class =
      if is_text "shared-partition" class then "graph-access.yaml" else "graph-database.yaml"

  abbrev isolation_files : String → Fields → List Artifact
  isolation_files dir fs =
      (dir ⧺ "opensearch-roles.yaml", b.opensearch_roles fs)
      ∷ (dir ⧺ "opensearch-role-mappings.yaml", b.role_mappings fs)
      ∷ (dir ⧺ "dashboard-space.yaml", b.dashboard_space fs)
      ∷ (dir ⧺ "vector-index.yaml", b.vector_index fs)
      ∷ (dir ⧺ graph_file (get_item "isolation_class" fs), b.graph_artifact fs)
      ∷ []

  -- plan_isolation_renders with mode "provision", and _build_render_plan of what it returns.
  unfoldable pub isolation_plan : String → Fields → Plan
  isolation_plan tenant_id fs =
      let dir = isolation_dir tenant_id (is_dedicated fs) in
      let files = isolation_files dir fs in
      record {
        document_digest = b.isolation_digest files;
        artifacts = files;
        manifest_path = dir ⧺ "render-manifest.json";
        manifest_content = b.isolation_manifest (b.isolation_digest files) files;
        commit_message = b.isolation_message tenant_id files;
      }

  -- execute_isolation_renders: the paths that differed before the write. The planned paths lie in
  -- the tenant's directories by construction, so _validate_artifact_paths accepts them.
  unfoldable pub execute_isolation_renders : String → Fields → Exec Exception Store (List String)
  execute_isolation_renders tenant_id fs s =
      let plan = isolation_plan tenant_id fs in
      (ok (changed_paths plan s.tree), record s { tree = write_files plan s.tree })

-- The files below a directory, taken out of the tree.
unfoldable pub remove_dir : String → Dict String → Dict String
remove_dir dir [] = []
remove_dir dir ((p, c) ∷ more) =
    let rest = remove_dir dir more in if starts_with p dir then rest else (p, c) ∷ rest

unfoldable pub is_dir : String → Dict String → Bool
is_dir dir [] = false
is_dir dir ((p, c) ∷ more) = starts_with p dir || is_dir dir more

-- remove_overlay; the tenant id is one clean path segment where it is called.
unfoldable pub remove_overlay : String → Exec Exception Store Bool
remove_overlay tenant_id s =
    if is_dir (overlay_dir tenant_id) s.tree
    then (ok true, record s { tree = remove_dir (overlay_dir tenant_id) s.tree })
    else (ok false, s)
