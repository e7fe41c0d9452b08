-- ===== src/AiRuntime/Redaction.antt =====
-- redact of services/ai/airuntime/policy.py: values of secret fields are masked, and records of a
-- restricted domain are dropped. `walk` is the traversal's result, `masked` and `denied` the names
-- that it collects on the way.
use observability_kit.Prelude.{
  String, Bool, true, false, List, [], ◌∷◌, ◌++◌, Option, none, some, elem, if◌then◌else◌,
}
use observability_kit.Json.{
  Json, null, bool, int, float, str, arr, obj, Items, nil, cons, Fields, end, field, get_item,
}
pub mod Domain
pub mod Clean
mod Tests

abbrev pub mask_fields : List String
mask_fields = "secret" ∷ "api_key" ∷ "password" ∷ "token" ∷ []

abbrev pub restricted_domains : List String
restricted_domains = "pii.raw" ∷ "credentials" ∷ "key_material" ∷ []

abbrev pub mask : Json
mask = str "***redacted***"

-- `value in RESTRICTED_DOMAIN_DENY_LIST`
unfoldable pub is_restricted : Json → Bool
is_restricted (str d) = elem d restricted_domains
is_restricted _ = false

-- `key in MASK_FIELDS`
unfoldable pub is_secret : String → Bool
is_secret k = elem k mask_fields

abbrev pub keep_field : String → Option Json → Fields → Fields
keep_field k none fs = fs
keep_field k (some v) fs = field k v fs

-- One turn of the loop over the items of a dict.
abbrev pub put_field : Bool → String → Option Json → Fields → Fields
put_field true k child rest = field k mask rest
put_field false k child rest = keep_field k child rest

abbrev pub keep_item : Option Json → Items → Items
keep_item none xs = xs
keep_item (some x) xs = cons x xs

-- `none` is the sentinel of a node that its parent removes.
unfoldable mutual
  pub walk : Json → Option Json
  walk (arr xs) = some (arr (walk_items xs))
  walk (obj fs) =
      let rest = walk_fields fs in
      if is_restricted (get_item "domain" fs) then none else some (obj rest)
  walk j = some j

  pub walk_items : Items → Items
  walk_items nil = nil
  walk_items (cons x xs) = keep_item (walk x) (walk_items xs)

  pub walk_fields : Fields → Fields
  walk_fields end = end
  walk_fields (field k v fs) = put_field (is_secret k) k (walk v) (walk_fields fs)

unfoldable mutual
  pub masked : Json → List String
  masked (arr xs) = masked_items xs
  masked (obj fs) =
      let rest = masked_fields fs in if is_restricted (get_item "domain" fs) then [] else rest
  masked j = []

  pub masked_items : Items → List String
  masked_items nil = []
  masked_items (cons x xs) = masked x ++ masked_items xs

  pub masked_fields : Fields → List String
  masked_fields end = []
  masked_fields (field k v fs) =
      let rest = masked_fields fs in
      let child = masked v in if is_secret k then k ∷ rest else child ++ rest

abbrev domain_name : Json → List String
domain_name (str d) = d ∷ []
domain_name _ = []

unfoldable mutual
  pub denied : Json → List String
  denied (arr xs) = denied_items xs
  denied (obj fs) =
      let rest = denied_fields fs in
      let domain = get_item "domain" fs in if is_restricted domain then domain_name domain else rest
  denied j = []

  pub denied_items : Items → List String
  denied_items nil = []
  denied_items (cons x xs) = denied x ++ denied_items xs

  pub denied_fields : Fields → List String
  denied_fields end = []
  denied_fields (field k v fs) =
      let rest = denied_fields fs in
      let child = denied v in if is_secret k then rest else child ++ rest

-- The metadata's two constant flags are left out.
pub record Redacted : Type 0 where
  pub value : Json
  pub masked_fields : List String
  pub denied_domains : List String

abbrev pub or_null : Option Json → Json
or_null none = null
or_null (some j) = j

unfoldable pub redact : Json → Redacted
unfolding walk masked denied
redact j = record { value = or_null (walk j); masked_fields = masked j; denied_domains = denied j }
