-- ===== src/Tenant/Service/Crud.antt =====
-- create_tenant, get_tenant, list_tenants, update_tenant and set_legal_hold of
-- TenantControlPlaneService.
use Prim.Native.String.{compare}
use text.Mathlib.Text.{is_le}
use observability_kit.Prelude.{
  String, Bool, true, false, List, [], ◌∷◌, Option, none, some, ◌==◌, elem, if◌then◌else◌,
}
use observability_kit.Prelude.Dict.{Dict}
use observability_kit.Prelude.Exec.{
  Exec, Result, ok, raised, pure, raise, lift, modify, ◌>>=◌, ◌>>◌,
}
use observability_kit.Json.{Json, null, str, obj, Fields, get_item, is_null, is_text}
use observability_kit.Tenant.Errors.{
  Exception, crashed, type_error, attribute_error, deny_for, validation_failed,
  tenant_already_exists, update_forbidden_field, not_initial_state, already_exists, immutable_field,
}
use observability_kit.Tenant.Document.{validate_tenant_document}
use observability_kit.Tenant.Machine.{Machine}
use observability_kit.Tenant.Request.{text_at}
use observability_kit.Tenant.Store.{
  TenantRecord, Store, load_tenant_record, save_tenant_record, clear_transition_records,
}
use observability_kit.Tenant.Service.Gates.{
  check_tenant_id, check_scope, check_document_identity, require_record,
}

-- `value in texts`, for a value of any type
abbrev pub is_one_of : List String → Json → Bool
is_one_of ts (str s) = elem s ts
is_one_of ts _ = false

module _ (m : Machine) where
  -- An id that is there already is free again only in a terminal state.
  unfoldable pub release_id : String → Option TenantRecord → Exec Exception Store (Unit {0})
  release_id t none = pure tt
  release_id t (some existing) =
      let state = get_item "lifecycle_state" existing.document in
      if is_one_of m.terminal_states state
      then modify (clear_transition_records t)
      else raise (deny_for t tenant_already_exists (already_exists state))

  unfoldable pub create_fields : Fields → Option String → Exec Exception Store Fields
  create_fields fs scope = do
    t ← lift (text_at fs "tenant_id")
    lift (check_scope scope t)
    if is_text m.initial_state (get_item "lifecycle_state" fs)
        then (do
          (λ s. release_id t (load_tenant_record s t) s)
          modify (save_tenant_record t (record { document = fs; legal_hold = false }))
          pure fs)
        else raise (deny_for t validation_failed (not_initial_state m.initial_state))

  unfoldable pub create_object : Json → Option String → Exec Exception Store Fields
  create_object (obj fs) scope = create_fields fs scope
  create_object _ scope = raise (crashed type_error)

  unfoldable pub create_tenant : Json → Option String → Exec Exception Store Fields
  create_tenant document scope = do
    lift (validate_tenant_document document)
    create_object document scope

unfoldable pub get_tenant : String → Option String → Exec Exception Store Fields
get_tenant t scope = do
  lift (check_tenant_id t)
  lift (check_scope scope t)
  r ← (λ s. lift (require_record t s) s)
  pure r.document

-- `sorted` over the stored ids
unfoldable pub insert_sorted : String → List String → List String
insert_sorted x [] = x ∷ []
insert_sorted x (y ∷ ys) = if is_le (compare x y) then x ∷ y ∷ ys else y ∷ insert_sorted x ys

unfoldable pub list_tenant_ids : Dict TenantRecord → List String
list_tenant_ids [] = []
list_tenant_ids ((t, r) ∷ more) = insert_sorted t (list_tenant_ids more)

abbrev in_scope : Option String → String → Bool
in_scope none t = true
in_scope (some scope) t = t == scope

abbrev in_state : Option String → Fields → Bool
in_state none fs = true
in_state (some state) fs = is_text state (get_item "lifecycle_state" fs)

-- The loop over the sorted ids.
unfoldable pub list_documents : Store → Option String → Option String → List String → List Fields
list_documents s state scope [] = []
list_documents s state scope (t ∷ ts) =
    let rest = list_documents s state scope ts in
    if in_scope scope t
    then elim (load_tenant_record s t) [
      | none ↦ rest
      | some r ↦ if in_state state r.document then r.document ∷ rest else rest
    ]
    else rest

unfoldable pub list_tenants : Option String → Option String → Store → List Fields
list_tenants state scope s = list_documents s state scope (list_tenant_ids s.tenants)

abbrev pub immutable_fields : List String
immutable_fields = "tenant_id" ∷ "lifecycle_state" ∷ "created_at" ∷ []

-- `document.get(field) == stored.get(field)`. The stored field of a validated document is a text; any
-- other stored value but null, which only a corrupted store has, counts as different here, and the
-- update is refused in either case, since validation asks for a text.
abbrev pub same_value : Json → Json → Bool
same_value (str s) j = is_text s j
same_value null j = is_null j
same_value _ j = false

unfoldable pub check_immutable :
    String → Fields → Fields → List String → Result Exception (Unit {0})
check_immutable t fs stored [] = ok tt
check_immutable t fs stored (k ∷ ks) =
    let rest = check_immutable t fs stored ks in
    if same_value (get_item k stored) (get_item k fs)
    then rest
    else raised (deny_for t update_forbidden_field (immutable_field k))

-- `document.get` of a body that is no object is an AttributeError, before any validation.
unfoldable pub update_document : String → TenantRecord → Json → Exec Exception Store Fields
update_document t r (obj fs) = do
  lift (check_immutable t fs r.document immutable_fields)
  lift (validate_tenant_document (obj fs))
  modify (save_tenant_record t (record r { document = fs }))
  pure fs
update_document t r _ = raise (crashed attribute_error)

unfoldable pub update_tenant : String → Json → Option String → Exec Exception Store Fields
update_tenant t document scope = do
  lift (check_tenant_id t)
  lift (check_scope scope t)
  r ← (λ s. lift (require_record t s) s)
  lift (check_document_identity t r.document)
  update_document t r document

unfoldable pub set_legal_hold : String → Bool → Exec Exception Store (Unit {0})
set_legal_hold t hold = do
  lift (check_tenant_id t)
  r ← (λ s. lift (require_record t s) s)
  modify (save_tenant_record t (record r { legal_hold = hold }))
