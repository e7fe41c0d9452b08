-- ===== src/Tenant/Document/Spec.antt =====
-- What an accepted tenant document has, by its fields. The texts match the patterns of models.py, whose
-- `$` admits a newline at the end. Beyond TENANT_CONTRACT_SCHEMA_V1.json the code lets a null stand for
-- an optional quota or region list, and a NaN for the quota max_gb_per_day.
use observability_kit.Prelude.{
  ℕ, ◌≤◌, String, Bool, true, false, List, [], ◌∷◌, ◌++◌, ◌≡◌, ◌⊎◌, pos, length, elem, codes,
}
use observability_kit.Json.{
  positive, infinity, nan, Json, null, bool, int, float, str, arr, obj, Items, nil, cons, Fields,
  get_item, has_key, keys,
}
use observability_kit.Regex.Patterns.{is_tenant_id, is_email, is_datetime}

abbrev pub All {ℓ} : (String → Type ℓ) → List String → Type ℓ
All P [] = Unit
All P (k ∷ ks) = P k × All P ks

-- All required keys are there, and every key is a known one.
pub record HasKeys (required optional : List String) (fs : Fields) : Type 0 where
  pub present : All (λ k. has_key k fs ≡ true) required
  pub known : All (λ k. elem k (required ++ optional) ≡ true) (keys fs)

-- The field is a text with the property.
abbrev pub TextField : String → (String → Type 0) → Fields → Type 0
TextField key P fs = (s : String) × (get_item key fs ≡ str s) × P s

abbrev pub OneOf : List String → String → Type 0
OneOf choices s = elem s choices ≡ true

abbrev pub IsNonempty : String → Type 0
IsNonempty s = 1 ≤ length (codes s)

-- Texts, none of them empty.
abbrev pub AreTexts : Items → Type 0
AreTexts nil = Unit
AreTexts (cons x xs) = ((s : String) × (x ≡ str s) × IsNonempty s) × AreTexts xs

abbrev pub IsRegionList : Json → Type 0
IsRegionList j = (x : Json) × (xs : Items) × (j ≡ arr (cons x xs)) × AreTexts (cons x xs)

-- The numbers that the check of a quota accepts: those above 0, and NaN.
pub data IsQuota : Json → Type 0 where
  whole : (n : ℕ) → 1 ≤ n → IsQuota (int (pos n))
  above : (digits : String) → IsQuota (float (positive digits))
  infinite : IsQuota (float infinity)
  not_a_number : IsQuota (float nan)

abbrev pub Days : Json → Type 0
Days j = (n : ℕ) × (j ≡ int (pos n)) × (1 ≤ n) × (n ≤ 3650)

pub record IsResidency (fs : Fields) : Type 0 where
  pub shape :
      HasKeys ("region" ∷ "data_residency_required" ∷ "pool" ∷ []) ("allowed_regions" ∷ []) fs
  pub region : TextField "region" IsNonempty fs
  pub required : (b : Bool) × (get_item "data_residency_required" fs ≡ bool b)
  pub pool : TextField "pool" (OneOf ("shared" ∷ "dedicated" ∷ [])) fs
  pub regions :
      (get_item "allowed_regions" fs ≡ null) ⊎ IsRegionList (get_item "allowed_regions" fs)

pub record IsRetention (fs : Fields) : Type 0 where
  pub shape : HasKeys ("logs_days" ∷ "metrics_days" ∷ "traces_days" ∷ []) [] fs
  pub logs : Days (get_item "logs_days" fs)
  pub metrics : Days (get_item "metrics_days" fs)
  pub traces : Days (get_item "traces_days" fs)

pub record IsIngest (fs : Fields) : Type 0 where
  pub shape : HasKeys ("max_gb_per_day" ∷ []) ("max_events_per_second" ∷ []) fs
  pub max_gb : IsQuota (get_item "max_gb_per_day" fs)
  pub max_eps :
      (get_item "max_events_per_second" fs ≡ null)
      ⊎ ((n : ℕ) × (get_item "max_events_per_second" fs ≡ int (pos n)) × (1 ≤ n))

-- The field is an object with the property.
abbrev pub ObjectField : String → (Fields → Type 0) → Fields → Type 0
ObjectField key P fs = (gs : Fields) × (get_item key fs ≡ obj gs) × P gs

pub record IsQuotas (fs : Fields) : Type 0 where
  pub shape : HasKeys ("ingest" ∷ "retention" ∷ []) [] fs
  pub ingest : ObjectField "ingest" IsIngest fs
  pub retention : ObjectField "retention" IsRetention fs

pub record IsOwner (fs : Fields) : Type 0 where
  pub shape : HasKeys ("name" ∷ "email" ∷ []) ("team" ∷ []) fs
  pub name : TextField "name" IsNonempty fs
  pub email : TextField "email" (λ s. is_email s ≡ true) fs
  pub team : (has_key "team" fs ≡ false) ⊎ TextField "team" IsNonempty fs

pub record IsContact (fs : Fields) : Type 0 where
  pub shape : HasKeys ("role" ∷ "email" ∷ []) [] fs
  pub role : TextField "role" (OneOf ("technical" ∷ "billing" ∷ "security" ∷ "operations" ∷ [])) fs
  pub email : TextField "email" (λ s. is_email s ≡ true) fs

abbrev pub AreContacts : Items → Type 0
AreContacts nil = Unit
AreContacts (cons x xs) = ((fs : Fields) × (x ≡ obj fs) × IsContact fs) × AreContacts xs

pub record IsTenantDocument (fs : Fields) : Type 0 where
  pub shape :
      HasKeys
        ("tenant_id" ∷ "display_name" ∷ "tier" ∷ "isolation_class" ∷ "residency" ∷ "lifecycle_state"
          ∷ "owner" ∷ "contacts" ∷ "quotas" ∷ "created_at" ∷ [])
        []
        fs
  pub tenant_id : TextField "tenant_id" (λ s. is_tenant_id s ≡ true) fs
  pub display_name : TextField "display_name" (λ s. IsNonempty s × (length (codes s) ≤ 128)) fs
  pub tier : TextField "tier" (OneOf ("starter" ∷ "standard" ∷ "premium" ∷ "enterprise" ∷ [])) fs
  pub isolation_class :
      TextField "isolation_class"
        (OneOf ("shared-partition" ∷ "dedicated-indices" ∷ "dedicated-stack" ∷ []))
        fs
  pub lifecycle_state :
      TextField "lifecycle_state"
        (OneOf ("provisioning" ∷ "active" ∷ "suspended" ∷ "offboarding" ∷ "purged" ∷ []))
        fs
  pub created_at : TextField "created_at" (λ s. is_datetime s ≡ true) fs
  pub residency : ObjectField "residency" IsResidency fs
  pub owner : ObjectField "owner" IsOwner fs
  pub contacts :
      (x : Json) × (xs : Items) × (get_item "contacts" fs ≡ arr (cons x xs))
      × AreContacts (cons x xs)
  pub quotas : ObjectField "quotas" IsQuotas fs
  -- a dedicated stack stands in the dedicated pool
  pub dedicated :
      get_item "isolation_class" fs ≡ str "dedicated-stack"
      → ObjectField "residency" (λ gs. get_item "pool" gs ≡ str "dedicated") fs
