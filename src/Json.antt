-- ===== src/Json.antt =====
-- JSON values as `json.loads` hands them to the services: the payloads and documents that the
-- validators take apart. Python's `None`, which `dict.get` returns for an absent key, is `null`.
use observability_kit.Prelude.{
  String, Bool, true, false, ◌||◌, not, List, [], ◌∷◌, ◌==◌, ◌=?◌, ℤ, pos, negsuc, if◌then◌else◌,
}

-- A double: a finite one by its sign and whether it is zero, which is all that the validators
-- read of it, or one of the values that `json.loads` takes from `Infinity`, `-Infinity`, `NaN`.
pub data Float : Type 0 where
  zero_float : Float
  positive negative : (digits : String) → Float
  infinity minus_infinity nan : Float

mutual
  pub data Json : Type 0 where
    null : Json
    bool : Bool → Json
    int : ℤ → Json
    float : Float → Json
    str : String → Json
    arr : Items → Json
    obj : Fields → Json

  pub data Items : Type 0 where
    nil : Items
    cons : Json → Items → Items

  pub data Fields : Type 0 where
    end : Fields
    field : String → Json → Fields → Fields

-- `payload.get(key)`
abbrev pub get_item : String → Fields → Json
get_item k end = null
get_item k (field j v fs) = if j == k then v else get_item k fs

-- `key in payload`
abbrev pub has_key : String → Fields → Bool
has_key k end = false
has_key k (field j v fs) = j == k || has_key k fs

-- The keys, in the order of iteration.
abbrev pub keys : Fields → List String
keys end = []
keys (field k v fs) = k ∷ keys fs

-- `document[key] = value`
unfoldable pub set_item : String → Json → Fields → Fields
set_item k v end = field k v end
set_item k v (field j w fs) = if j == k then field j v fs else field j w (set_item k v fs)

-- `value == text` for a value of any type
abbrev pub is_text : String → Json → Bool
is_text t (str s) = s == t
is_text t _ = false

abbrev pub is_null : Json → Bool
is_null null = true
is_null _ = false

-- `isinstance(value, str) and value`
abbrev pub is_nonempty_text : Json → Bool
is_nonempty_text (str s) = not (s == "")
is_nonempty_text _ = false

-- `isinstance(value, list) and value`
abbrev pub is_nonempty_list : Json → Bool
is_nonempty_list (arr (cons x xs)) = true
is_nonempty_list _ = false

-- `bool(value)`
abbrev pub is_truthy : Json → Bool
is_truthy null = false
is_truthy (bool b) = b
is_truthy (int n) = elim n [ pos k ↦ not (k =? 0) | negsuc k ↦ true ]
is_truthy (float zero_float) = false
is_truthy (float _) = true
is_truthy (str s) = not (s == "")
is_truthy (arr nil) = false
is_truthy (arr (cons x xs)) = true
is_truthy (obj end) = false
is_truthy (obj (field k v fs)) = true
