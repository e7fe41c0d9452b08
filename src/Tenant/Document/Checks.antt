-- ===== src/Tenant/Document/Checks.antt =====
-- _check_keys and _require_str of services/tenancy/tenantctl/models.py.
use observability_kit.Prelude.{
  ℕ, String, Bool, true, false, not, List, [], ◌∷◌, ◌++◌, Option, none, some, ltb, length, elem,
  codes, if◌then◌else◌,
}
use observability_kit.Json.{Json, str, Fields, end, field, get_item, has_key}
use observability_kit.Tenant.Errors.{
  Context, Violation, missing_field, unknown_field, not_a_string, no_pattern_match, not_in_enum,
  too_short, too_long,
}

-- `if b: errors.append(v)`
abbrev pub when : Bool → Violation → List Violation
when b v = if b then v ∷ [] else []

-- The first loop of _check_keys, over the required keys.
unfoldable pub missing_keys : Fields → List String → Context → List Violation
missing_keys fs [] ctx = []
missing_keys fs (k ∷ ks) ctx =
    when (not (has_key k fs)) (missing_field ctx k) ++ missing_keys fs ks ctx

-- The second, over the keys of the payload.
unfoldable pub unknown_keys : List String → Fields → Context → List Violation
unknown_keys allowed end ctx = []
unknown_keys allowed (field k v fs) ctx =
    when (not (elem k allowed)) (unknown_field ctx k) ++ unknown_keys allowed fs ctx

unfoldable pub check_keys : Fields → List String → List String → Context → List Violation
check_keys fs required optional ctx =
    missing_keys fs required ctx ++ unknown_keys (required ++ optional) fs ctx

-- The keyword arguments of _require_str.
pub record Shape : Type 0 where
  pub min_length : ℕ
  pub max_length : Option ℕ
  pub pattern : String → Bool
  pub choices : Option (List String)

-- With no keyword argument every text is accepted.
abbrev pub any_text : Shape
any_text = record { min_length = 0; max_length = none; pattern = λ s. true; choices = none }

abbrev pub is_too_long : Option ℕ → ℕ → Bool
is_too_long none n = false
is_too_long (some m) n = ltb m n

abbrev pub is_choice : Option (List String) → String → Bool
is_choice none s = true
is_choice (some ss) s = elem s ss

-- A limit that is absent is never exceeded, so the message has one.
abbrev limit : Option ℕ → ℕ
limit none = 0
limit (some m) = m

unfoldable pub text_violations : String → String → Context → Shape → List Violation
text_violations s key ctx shape =
    when (ltb (length (codes s)) shape.min_length) (too_short ctx key shape.min_length)
    ++ when (is_too_long shape.max_length (length (codes s)))
        (too_long ctx key (limit shape.max_length))
    ++ when (not (shape.pattern s)) (no_pattern_match ctx key)
    ++ when (not (is_choice shape.choices s)) (not_in_enum ctx key)

unfoldable pub value_violations : Json → String → Context → Shape → List Violation
value_violations (str s) key ctx shape = text_violations s key ctx shape
value_violations _ key ctx shape = not_a_string ctx key ∷ []

unfoldable pub require_str : Fields → String → Context → Shape → List Violation
require_str fs key ctx shape = value_violations (get_item key fs) key ctx shape
