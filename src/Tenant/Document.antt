-- ===== src/Tenant/Document.antt =====
-- validate_tenant_document of services/tenancy/tenantctl/models.py. The list of errors that the
-- Python functions append to is what these return.
pub mod Checks
pub mod Spec
pub mod Reading
pub mod Valid
pub mod Update
use observability_kit.Prelude.{
  ℕ, zero, suc, String, Bool, true, false, ◌||◌, ◌&&◌, not, List, [], ◌∷◌, ◌++◌, Option, none, some,
  ◌==◌, leb, ltb, ℤ, pos, negsuc, length, null, elem, codes, if◌then◌else◌,
}
use observability_kit.Prelude.Exec.{Result, ok, raised}
use observability_kit.Json.{
  Float, zero_float, positive, negative, infinity, minus_infinity, nan, Json, null as null_json,
  bool, int, float, str, arr, obj, Items, nil, cons, Fields, get_item, has_key, is_null, is_text,
  is_nonempty_list, is_nonempty_text,
}
use observability_kit.Regex.Patterns.{is_tenant_id, is_email, is_datetime}
use observability_kit.Tenant.Errors.{
  Context, tenant_document, tenant, residency, quotas, quotas_ingest, quotas_retention, owner,
  contacts, Violation, not_an_object, not_boolean, not_positive_number, not_positive_integer,
  not_in_range, bad_allowed_regions, no_contacts, pool_not_dedicated, document_not_object,
  document_invalid, validation_failed, Exception, deny,
}
use Checks.{Shape, any_text, check_keys, require_str, when}

abbrev pub tiers : List String
tiers = "starter" ∷ "standard" ∷ "premium" ∷ "enterprise" ∷ []

abbrev pub isolation_classes : List String
isolation_classes = "shared-partition" ∷ "dedicated-indices" ∷ "dedicated-stack" ∷ []

abbrev pub lifecycle_states : List String
lifecycle_states = "provisioning" ∷ "active" ∷ "suspended" ∷ "offboarding" ∷ "purged" ∷ []

abbrev pub contact_roles : List String
contact_roles = "technical" ∷ "billing" ∷ "security" ∷ "operations" ∷ []

abbrev pub pools : List String
pools = "shared" ∷ "dedicated" ∷ []

abbrev pub document_keys : List String
document_keys =
    "tenant_id" ∷ "display_name" ∷ "tier" ∷ "isolation_class" ∷ "residency" ∷ "lifecycle_state"
    ∷ "owner" ∷ "contacts" ∷ "quotas" ∷ "created_at" ∷ []

abbrev pub is_bool : Json → Bool
is_bool (bool b) = true
is_bool _ = false

-- `isinstance(value, (int, float)) and not isinstance(value, bool) and not value <= 0`; a NaN is
-- not `<= 0`.
abbrev pub is_positive_number : Json → Bool
is_positive_number (int (pos n)) = ltb 0 n
is_positive_number (float (positive d)) = true
is_positive_number (float infinity) = true
is_positive_number (float nan) = true
is_positive_number _ = false

-- an int, no bool, within the bounds
abbrev pub is_int_within : ℕ → ℕ → Json → Bool
is_int_within lo hi (int (pos n)) = leb lo n && leb n hi
is_int_within lo hi _ = false

abbrev pub is_int_from_one : Json → Bool
is_int_from_one (int (pos n)) = leb 1 n
is_int_from_one _ = false

abbrev pub all_nonempty_text : Items → Bool
all_nonempty_text nil = true
all_nonempty_text (cons x xs) = is_nonempty_text x && all_nonempty_text xs

abbrev pub is_region_list : Json → Bool
is_region_list (arr (cons x xs)) = is_nonempty_text x && all_nonempty_text xs
is_region_list _ = false

unfoldable pub validate_residency : Json → List Violation
validate_residency (obj fs) =
    check_keys fs ("region" ∷ "data_residency_required" ∷ "pool" ∷ []) ("allowed_regions" ∷ [])
      residency
    ++ require_str fs "region" residency (record any_text { min_length = 1 })
    ++ when (not (is_bool (get_item "data_residency_required" fs)))
        (not_boolean residency "data_residency_required")
    ++ require_str fs "pool" residency (record any_text { choices = some pools })
    ++ when
        (not (
          is_null (get_item "allowed_regions" fs)
          || is_region_list (get_item "allowed_regions" fs)))
        bad_allowed_regions
validate_residency _ = not_an_object residency ∷ []

unfoldable pub validate_ingest : Json → List Violation
validate_ingest (obj fs) =
    check_keys fs ("max_gb_per_day" ∷ []) ("max_events_per_second" ∷ []) quotas_ingest
    ++ when (not (is_positive_number (get_item "max_gb_per_day" fs)))
        (not_positive_number quotas_ingest "max_gb_per_day")
    ++ when
        (not (
          is_null (get_item "max_events_per_second" fs)
          || is_int_from_one (get_item "max_events_per_second" fs)))
        (not_positive_integer quotas_ingest "max_events_per_second")
validate_ingest _ = not_an_object quotas_ingest ∷ []

unfoldable pub check_days : Fields → String → List Violation
check_days fs key =
    when (not (is_int_within 1 3650 (get_item key fs))) (not_in_range quotas_retention key)

unfoldable pub validate_retention : Json → List Violation
validate_retention (obj fs) =
    check_keys fs ("logs_days" ∷ "metrics_days" ∷ "traces_days" ∷ []) [] quotas_retention
    ++ check_days fs "logs_days"
    ++ check_days fs "metrics_days"
    ++ check_days fs "traces_days"
validate_retention _ = not_an_object quotas_retention ∷ []

unfoldable pub validate_quotas : Json → List Violation
validate_quotas (obj fs) =
    check_keys fs ("ingest" ∷ "retention" ∷ []) [] quotas
    ++ validate_ingest (get_item "ingest" fs)
    ++ validate_retention (get_item "retention" fs)
validate_quotas _ = not_an_object quotas ∷ []

unfoldable pub validate_owner : Json → List Violation
validate_owner (obj fs) =
    check_keys fs ("name" ∷ "email" ∷ []) ("team" ∷ []) owner
    ++ require_str fs "name" owner (record any_text { min_length = 1 })
    ++ require_str fs "email" owner (record any_text { pattern = is_email })
    ++ (if has_key "team" fs
        then require_str fs "team" owner (record any_text { min_length = 1 })
        else [])
validate_owner _ = not_an_object owner ∷ []

unfoldable pub validate_contact : ℕ → Json → List Violation
validate_contact i (obj fs) =
    check_keys fs ("role" ∷ "email" ∷ []) [] (contacts i)
    ++ require_str fs "role" (contacts i) (record any_text { choices = some contact_roles })
    ++ require_str fs "email" (contacts i) (record any_text { pattern = is_email })
validate_contact i _ = not_an_object (contacts i) ∷ []

unfoldable pub validate_contact_items : ℕ → Items → List Violation
validate_contact_items i nil = []
validate_contact_items i (cons x xs) = validate_contact i x ++ validate_contact_items (suc i) xs

unfoldable pub validate_contacts : Json → List Violation
validate_contacts (arr (cons x xs)) = validate_contact_items 0 (cons x xs)
validate_contacts _ = no_contacts ∷ []

-- `isinstance(residency, Mapping) and residency.get("pool") != "dedicated"`
abbrev pub is_pool_other : Json → Bool
is_pool_other (obj fs) = not (is_text "dedicated" (get_item "pool" fs))
is_pool_other _ = false

-- The fields that stand directly in the document, in the source's order.
unfoldable pub validate_scalars : Fields → List Violation
validate_scalars fs =
    check_keys fs document_keys [] tenant_document
    ++ require_str fs "tenant_id" tenant (record any_text { pattern = is_tenant_id })
    ++ require_str fs "display_name" tenant
        (record any_text { min_length = 1; max_length = some 128 })
    ++ require_str fs "tier" tenant (record any_text { choices = some tiers })
    ++ require_str fs "isolation_class" tenant
        (record any_text { choices = some isolation_classes })
    ++ require_str fs "lifecycle_state" tenant (record any_text { choices = some lifecycle_states })
    ++ require_str fs "created_at" tenant (record any_text { pattern = is_datetime })

unfoldable pub document_violations : Fields → List Violation
document_violations fs =
    validate_scalars fs
    ++ validate_residency (get_item "residency" fs)
    ++ validate_owner (get_item "owner" fs)
    ++ validate_contacts (get_item "contacts" fs)
    ++ validate_quotas (get_item "quotas" fs)
    ++ when
        (is_text "dedicated-stack" (get_item "isolation_class" fs)
          && is_pool_other (get_item "residency" fs))
        pool_not_dedicated

-- `if errors: raise ValidationFailed(...)`
abbrev pub reject_violations : List Violation → Result Exception (Unit {0})
reject_violations [] = ok tt
reject_violations (v ∷ vs) = raised (deny validation_failed (document_invalid (v ∷ vs)))

unfoldable pub validate_tenant_document : Json → Result Exception (Unit {0})
validate_tenant_document (obj fs) = reject_violations (document_violations fs)
validate_tenant_document _ = raised (deny validation_failed document_not_object)
