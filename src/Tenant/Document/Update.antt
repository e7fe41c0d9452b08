-- ===== src/Tenant/Document/Update.antt =====
-- Setting the lifecycle state of a valid document to a state of the lifecycle leaves it valid.
use observability_kit.Prelude.{
  String, true, false, ◌||◌, List, [], ◌∷◌, ◌++◌, some, ◌==◌, ◌≡◌, refl, ap, ◌∙◌, inl, inr,
  Bool-cases, elem, ltb, length, codes, eq_iff, eq_refl, arith, if◌then◌else◌,
}
use observability_kit.Prelude.Exec.{ok}
use observability_kit.Json.{Json, str, obj, Fields, end, field, get_item, has_key, set_item}
use observability_kit.Tenant.Errors.{Context, tenant, tenant_document}
use observability_kit.Regex.Patterns.{is_tenant_id, is_datetime}
use observability_kit.Tenant.Document.Checks.{
  Shape, any_text, missing_keys, unknown_keys, check_keys, require_str, value_violations,
  text_violations,
}
use observability_kit.Tenant.Document.{
  document_violations, validate_scalars, validate_tenant_document, lifecycle_states, document_keys,
  tiers, isolation_classes, reject_violations,
}
use observability_kit.Tenant.Document.Spec.{IsTenantDocument}
use observability_kit.Tenant.Document.Valid.{object-IsTenantDocument}

module _ (k : String) (v : Json) where
  pub get_item-set_item_ne :
      (j : String) (fs : Fields) → (k == j) ≡ false → get_item j (set_item k v fs) ≡ get_item j fs
  unfolding set_item
  get_item-set_item_ne j end e = rw e refl
  get_item-set_item_ne j (field i w fs) e = elim (Bool-cases (i == k)) [
    | inl same ↦ rw (same, ap (λ x. x == j) ((eq_iff i k).0 same) ∙ e) refl
    | inr other ↦ rw other (ap (λ x. if i == j then w else x) (get_item-set_item_ne j fs e))
  ]

  pub get_item-set_item : (fs : Fields) → get_item k (set_item k v fs) ≡ v
  unfolding set_item
  get_item-set_item end = rw (eq_refl k) refl
  get_item-set_item (field i w fs) = elim (Bool-cases (i == k)) [
    | inl same ↦ rw (same, same) refl
    | inr other ↦ rw (other, other) (get_item-set_item fs)
  ]

  has_key-set_item :
      (j : String) (fs : Fields) → has_key k fs ≡ true → has_key j (set_item k v fs) ≡ has_key j fs
  unfolding set_item
  has_key-set_item j end h = ground arith
  has_key-set_item j (field i w fs) h = elim (Bool-cases (i == k)) [
    | inl same ↦ rw same refl
    | inr other ↦ rw other (ap (λ x. i == j || x) (has_key-set_item j fs (ground arith)))
  ]

  missing_keys-set_item :
      (fs : Fields) (ks : List String) (ctx : Context)
      → has_key k fs ≡ true
      → missing_keys (set_item k v fs) ks ctx ≡ missing_keys fs ks ctx
  unfolding missing_keys
  missing_keys-set_item fs [] ctx h = refl
  missing_keys-set_item fs (j ∷ js) ctx h =
      rw (has_key-set_item j fs h, missing_keys-set_item fs js ctx h) refl

  unknown_keys-set_item :
      (allowed : List String) (fs : Fields) (ctx : Context)
      → has_key k fs ≡ true
      → unknown_keys allowed (set_item k v fs) ctx ≡ unknown_keys allowed fs ctx
  unfolding unknown_keys set_item
  unknown_keys-set_item allowed end ctx h = ground arith
  unknown_keys-set_item allowed (field i w fs) ctx h = elim (Bool-cases (i == k)) [
    | inl same ↦ rw same refl
    | inr other ↦ rw (other, unknown_keys-set_item allowed fs ctx (ground arith)) refl
  ]

  check_keys-set_item :
      (fs : Fields) (required optional : List String) (ctx : Context)
      → has_key k fs ≡ true
      → check_keys (set_item k v fs) required optional ctx ≡ check_keys fs required optional ctx
  unfolding check_keys
  check_keys-set_item fs required optional ctx h =
      rw
        (
          missing_keys-set_item fs required ctx h,
          unknown_keys-set_item (required ++ optional) fs ctx h,
        )
        refl

  require_str-set_item :
      (fs : Fields) (key : String) (ctx : Context) (shape : Shape)
      → (k == key) ≡ false
      → require_str (set_item k v fs) key ctx shape ≡ require_str fs key ctx shape
  unfolding require_str
  require_str-set_item fs key ctx shape e = rw (get_item-set_item_ne key fs e) refl

-- A text among the choices is accepted.
choice-accepted :
    (fs : Fields) (key s : String) (ctx : Context) (choices : List String)
    → get_item key fs ≡ str s
    → elem s choices ≡ true
    → require_str fs key ctx (record any_text { choices = some choices }) ≡ []
unfolding require_str value_violations text_violations
choice-accepted fs key s ctx choices e h =
    let not_short : ltb (length (codes s)) 0 ≡ false = ground arith in rw (e, h, not_short) refl

validate_scalars-set_state :
    (fs : Fields) (s : String)
    → IsTenantDocument fs
    → has_key "lifecycle_state" fs ≡ true
    → elem s lifecycle_states ≡ true
    → validate_scalars (set_item "lifecycle_state" (str s) fs) ≡ validate_scalars fs
unfolding validate_scalars
validate_scalars-set_state fs s d there h =
    let new = str s in
    let (old, is_old, known) = d.lifecycle_state in
    rw
      (
        check_keys-set_item "lifecycle_state" new fs document_keys [] tenant_document there,
        require_str-set_item "lifecycle_state" new fs "tenant_id" tenant
            (record any_text { pattern = is_tenant_id }) refl,
        require_str-set_item "lifecycle_state" new fs "display_name" tenant
            (record any_text { min_length = 1; max_length = some 128 }) refl,
        require_str-set_item "lifecycle_state" new fs "tier" tenant
            (record any_text { choices = some tiers }) refl,
        require_str-set_item "lifecycle_state" new fs "isolation_class" tenant
            (record any_text { choices = some isolation_classes }) refl,
        require_str-set_item "lifecycle_state" new fs "created_at" tenant
            (record any_text { pattern = is_datetime }) refl,
        choice-accepted (set_item "lifecycle_state" new fs) "lifecycle_state" s tenant
            lifecycle_states (get_item-set_item "lifecycle_state" new fs) h,
        choice-accepted fs "lifecycle_state" old tenant lifecycle_states is_old known,
      )
      refl

document_violations-set_state :
    (fs : Fields) (s : String)
    → IsTenantDocument fs
    → elem s lifecycle_states ≡ true
    → document_violations (set_item "lifecycle_state" (str s) fs) ≡ document_violations fs
unfolding document_violations
document_violations-set_state fs s d h =
    let new = str s in
    rw
      (
        validate_scalars-set_state fs s d d.shape.present.1.1.1.1.1.0 h,
        get_item-set_item_ne "lifecycle_state" new "residency" fs refl,
        get_item-set_item_ne "lifecycle_state" new "owner" fs refl,
        get_item-set_item_ne "lifecycle_state" new "contacts" fs refl,
        get_item-set_item_ne "lifecycle_state" new "quotas" fs refl,
        get_item-set_item_ne "lifecycle_state" new "isolation_class" fs refl,
      )
      refl

-- A document that validate_tenant_document accepts is accepted with any other lifecycle state too.
pub validate-set_state :
    (fs : Fields) (s : String)
    → validate_tenant_document (obj fs) ≡ ok tt
    → elem s lifecycle_states ≡ true
    → validate_tenant_document (obj (set_item "lifecycle_state" (str s) fs)) ≡ ok tt
unfolding validate_tenant_document
validate-set_state fs s v h =
    ap reject_violations (document_violations-set_state fs s (object-IsTenantDocument fs v) h) ∙ v
