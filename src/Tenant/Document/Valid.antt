-- ===== src/Tenant/Document/Valid.antt =====
-- What a document that validate_tenant_document accepts has.
use observability_kit.Prelude.{
  ℕ, suc, ◌≤◌, String, true, false, ◌&&◌, List, [], ◌∷◌, some, ltb, ◌≡◌, inl, inr, refl, ap, length,
  codes, arith, append-eq-nil, Bool-cases, eq_iff,
}
use observability_kit.Prelude.Exec.{ok}
use observability_kit.Json.{
  Json, str, arr, obj, Items, nil, cons, Fields, get_item, has_key, is_text,
}
use observability_kit.Tenant.Errors.{Context, Violation}
use observability_kit.Tenant.Document.{
  check_days, is_pool_other, validate_residency, validate_ingest, validate_retention,
  validate_quotas, validate_owner, validate_contact, validate_contact_items, validate_contacts,
  validate_scalars, document_violations, reject_violations, validate_tenant_document,
}
use observability_kit.Tenant.Document.Checks.{any_text, require_str}
use observability_kit.Tenant.Document.Spec.{
  TextField, IsNonempty, IsResidency, IsRetention, IsIngest, IsQuotas, IsOwner, IsContact,
  AreContacts, IsTenantDocument,
}
use observability_kit.Tenant.Document.Reading.{
  when-eq-nil, when-not-eq-nil, check_keys-HasKeys, require_str-Fits, null-cases, is_bool-cases,
  is_int_within-Days, is_int_from_one-cases, IsNonempty-field, choice_field, pattern_field,
  is_positive_number-IsQuota, is_region_list-IsRegionList,
}

residency-IsResidency :
    (j : Json) → validate_residency j ≡ [] → (fs : Fields) × (j ≡ obj fs) × IsResidency fs
unfolding validate_residency
residency-IsResidency (obj fs) h =
    let (h, regions) = append-eq-nil _ _ h in
    let (h, pool) = append-eq-nil _ _ h in
    let (h, required) = append-eq-nil _ _ h in
    let (shape, region) = append-eq-nil _ _ h in
    (
      fs,
      refl,
      record {
        shape = check_keys-HasKeys fs _ _ _ shape;
        region = IsNonempty-field fs _ _ region;
        required = is_bool-cases _ (when-not-eq-nil _ _ required);
        pool = choice_field fs _ _ _ pool;
        regions = elim (null-cases _ _ (when-not-eq-nil _ _ regions)) [
          | inl absent ↦ inl absent
          | inr present ↦ inr (is_region_list-IsRegionList _ present)
        ];
      },
    )
residency-IsResidency _ h = cc

validate_ingest-IsIngest :
    (j : Json) → validate_ingest j ≡ [] → (fs : Fields) × (j ≡ obj fs) × IsIngest fs
unfolding validate_ingest
validate_ingest-IsIngest (obj fs) h =
    let (h, eps) = append-eq-nil _ _ h in
    let (shape, gb) = append-eq-nil _ _ h in
    (
      fs,
      refl,
      record {
        shape = check_keys-HasKeys fs _ _ _ shape;
        max_gb = is_positive_number-IsQuota _ (when-not-eq-nil _ _ gb);
        max_eps = elim (null-cases _ _ (when-not-eq-nil _ _ eps)) [
          | inl absent ↦ inl absent
          | inr present ↦ inr (is_int_from_one-cases _ present)
        ];
      },
    )
validate_ingest-IsIngest _ h = cc

validate_retention-IsRetention :
    (j : Json) → validate_retention j ≡ [] → (fs : Fields) × (j ≡ obj fs) × IsRetention fs
unfolding validate_retention check_days
validate_retention-IsRetention (obj fs) h =
    let (h, traces) = append-eq-nil _ _ h in
    let (h, metrics) = append-eq-nil _ _ h in
    let (shape, logs) = append-eq-nil _ _ h in
    (
      fs,
      refl,
      record {
        shape = check_keys-HasKeys fs _ _ _ shape;
        logs = is_int_within-Days _ (when-not-eq-nil _ _ logs);
        metrics = is_int_within-Days _ (when-not-eq-nil _ _ metrics);
        traces = is_int_within-Days _ (when-not-eq-nil _ _ traces);
      },
    )
validate_retention-IsRetention _ h = cc

quotas-IsQuotas : (j : Json) → validate_quotas j ≡ [] → (fs : Fields) × (j ≡ obj fs) × IsQuotas fs
unfolding validate_quotas
quotas-IsQuotas (obj fs) h =
    let (h, retention) = append-eq-nil _ _ h in
    let (shape, ingest) = append-eq-nil _ _ h in
    (
      fs,
      refl,
      record {
        shape = check_keys-HasKeys fs _ _ _ shape;
        ingest = validate_ingest-IsIngest _ ingest;
        retention = validate_retention-IsRetention _ retention;
      },
    )
quotas-IsQuotas _ h = cc

validate_owner-IsOwner :
    (j : Json) → validate_owner j ≡ [] → (fs : Fields) × (j ≡ obj fs) × IsOwner fs
unfolding validate_owner
validate_owner-IsOwner (obj fs) h =
    let (h, team) = append-eq-nil _ _ h in
    let (h, email) = append-eq-nil _ _ h in
    let (shape, name) = append-eq-nil _ _ h in
    (
      fs,
      refl,
      record {
        shape = check_keys-HasKeys fs _ _ _ shape;
        name = IsNonempty-field fs _ _ name;
        email = pattern_field fs _ _ _ email;
        team = elim (Bool-cases (has_key "team" fs)) [
          | inl here ↦ inr (IsNonempty-field fs _ _ (rw here at team))
          | inr absent ↦ inl absent
        ];
      },
    )
validate_owner-IsOwner _ h = cc

validate_contact-IsContact :
    (i : ℕ) (j : Json) → validate_contact i j ≡ [] → (fs : Fields) × (j ≡ obj fs) × IsContact fs
unfolding validate_contact
validate_contact-IsContact i (obj fs) h =
    let (h, email) = append-eq-nil _ _ h in
    let (shape, role) = append-eq-nil _ _ h in
    (
      fs,
      refl,
      record {
        shape = check_keys-HasKeys fs _ _ _ shape;
        role = choice_field fs _ _ _ role;
        email = pattern_field fs _ _ _ email;
      },
    )
validate_contact-IsContact i _ h = cc

items-AreContacts : (i : ℕ) (xs : Items) → validate_contact_items i xs ≡ [] → AreContacts xs
unfolding validate_contact_items
items-AreContacts i nil h = tt
items-AreContacts i (cons x xs) h =
    let (here, later) = append-eq-nil _ _ h in
    (validate_contact-IsContact i x here, items-AreContacts (suc i) xs later)

contacts-AreContacts :
    (j : Json)
    → validate_contacts j ≡ []
    → (x : Json) × (xs : Items) × (j ≡ arr (cons x xs)) × AreContacts (cons x xs)
unfolding validate_contacts
contacts-AreContacts (arr (cons x xs)) h = (x, xs, refl, items-AreContacts 0 (cons x xs) h)
contacts-AreContacts (arr nil) h = cc
contacts-AreContacts _ h = cc

is_text-eq : (t : String) (j : Json) → is_text t j ≡ true → j ≡ str t
is_text-eq t (str s) h = ap str ((eq_iff s t).0 h)
is_text-eq t _ h = cc

not_ltb→le : (m n : ℕ) → ltb m n ≡ false → n ≤ m
not_ltb→le m n h = ground arith

dedicated_pool :
    (c r : Json)
    → (is_text "dedicated-stack" c && is_pool_other r) ≡ false
    → (gs : Fields) × (r ≡ obj gs)
    → c ≡ str "dedicated-stack"
    → (gs : Fields) × (r ≡ obj gs) × (get_item "pool" gs ≡ str "dedicated")
dedicated_pool c r h (gs, e) d =
    let h' = rw (d, e) at h in (gs, e, is_text-eq "dedicated" (get_item "pool" gs) (ground arith))

display_field :
    (fs : Fields) (ctx : Context)
    → require_str fs "display_name" ctx (record any_text { min_length = 1; max_length = some 128 })
      ≡ []
    → TextField "display_name" (λ s. IsNonempty s × (length (codes s) ≤ 128)) fs
display_field fs ctx h =
    let (s, e, f) =
      require_str-Fits fs "display_name" ctx
        (record any_text { min_length = 1; max_length = some 128 }) h in
    (s, e, (f.0, not_ltb→le 128 (length (codes s)) f.1))

pub violations-IsTenantDocument : (fs : Fields) → document_violations fs ≡ [] → IsTenantDocument fs
unfolding document_violations validate_scalars
violations-IsTenantDocument fs h =
    let (h, dedicated) = append-eq-nil _ _ h in
    let (h, quotas) = append-eq-nil _ _ h in
    let (h, contacts) = append-eq-nil _ _ h in
    let (h, owner) = append-eq-nil _ _ h in
    let (h, residency) = append-eq-nil _ _ h in
    let (h, created) = append-eq-nil _ _ h in
    let (h, state) = append-eq-nil _ _ h in
    let (h, class) = append-eq-nil _ _ h in
    let (h, tier) = append-eq-nil _ _ h in
    let (h, name) = append-eq-nil _ _ h in
    let (shape, id) = append-eq-nil _ _ h in
    let (gs, is_obj, good) = residency-IsResidency _ residency in
    record {
      shape = check_keys-HasKeys fs _ _ _ shape;
      tenant_id = pattern_field fs _ _ _ id;
      display_name = display_field fs _ name;
      tier = choice_field fs _ _ _ tier;
      isolation_class = choice_field fs _ _ _ class;
      lifecycle_state = choice_field fs _ _ _ state;
      created_at = pattern_field fs _ _ _ created;
      residency = (gs, is_obj, good);
      owner = validate_owner-IsOwner _ owner;
      contacts = contacts-AreContacts _ contacts;
      quotas = quotas-IsQuotas _ quotas;
      dedicated = dedicated_pool _ _ (when-eq-nil _ _ dedicated) (gs, is_obj);
    }

accepted-eq-nil : (vs : List Violation) → reject_violations vs ≡ ok tt → vs ≡ []
accepted-eq-nil [] h = refl
accepted-eq-nil (v ∷ vs) h = cc

pub object-IsTenantDocument :
    (fs : Fields) → validate_tenant_document (obj fs) ≡ ok tt → IsTenantDocument fs
unfolding validate_tenant_document
object-IsTenantDocument fs h =
    violations-IsTenantDocument fs (accepted-eq-nil (document_violations fs) h)

-- A document that validate_tenant_document accepts is an object with the ten keys and no other, and its
-- parts have their required keys and no unknown one. Every text that is checked satisfies its pattern,
-- enumeration or length. The retention days are integers from 1 to 3650, the daily quota is a number
-- above 0 or NaN, the quota of events is an integer above 0 or null or absent, and the regions are a
-- list of texts, not empty, or null or absent. There is at least one contact, each with a known role,
-- and a dedicated stack stands only in the dedicated pool.
pub accepted-IsTenantDocument :
    (j : Json)
    → validate_tenant_document j ≡ ok tt
    → (fs : Fields) × (j ≡ obj fs) × IsTenantDocument fs
unfolding validate_tenant_document
accepted-IsTenantDocument (obj fs) h =
    (fs, refl, violations-IsTenantDocument fs (accepted-eq-nil (document_violations fs) h))
accepted-IsTenantDocument _ h = cc
