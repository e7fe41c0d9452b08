-- ===== src/Commercial/Validation.antt =====
-- validate_record of services/commercial/commercialsvc/validation.py: the errors that it finds.
use observability_kit.Prelude.{
  ℕ, ◌+◌, ◌-◌, ◌*◌, String, Bool, true, false, ◌||◌, ◌&&◌, not, List, [], ◌∷◌, ◌++◌, Option, none,
  some, ◌==◌, leb, pos, length, null, elem, codes, if◌then◌else◌,
}
use observability_kit.Prelude.Dict.{lookup}
use observability_kit.Json.{
  zero_float, positive, infinity, nan, Json, int, float, str, arr, obj, Items, nil, cons, Fields,
  end, field, get_item, has_key, is_null, is_nonempty_text,
}
use observability_kit.Regex.{chars, char, times, ◌▹◌, full_match}
use observability_kit.Regex.Patterns.{is_tenant_id, is_datetime}
use observability_kit.Time.{Stamp, from_isoformat, minute, day}
use observability_kit.Commercial.Models.{DimensionBinding, dimension_bindings}
use observability_kit.Commercial.Invoice.{prefix_of}
use Prim.Native.String.{◌++◌ as text_append}
pub mod Usage
pub mod Sound
mod Tests

pub data Problem : Type 0 where
  unknown_fields : List String → Problem
  lacks_required : List String → Problem
  no_tenant bad_tenant_id bad_record_id unknown_dimension unknown_signal unknown_unit : Problem
  bad_value bad_collector_version : Problem
  bad_timestamp : String → Problem
  signal_not_allowed wrong_unit wrong_value window_reversed wrong_record_id : Problem
  reference_no_object reference_unknown_fields no_source_type unknown_source_type : Problem
  bad_indices bad_document_count bad_content_digest bad_descriptor_field : Problem
  indices_required descriptor_not_allowed descriptor_required : Problem
  not_allowed : String → Problem

abbrev pub when : Bool → Problem → List Problem
when b x = if b then x ∷ [] else []

abbrev pub required_record_fields : List String
required_record_fields =
    "record_id" ∷ "tenant_id" ∷ "dimension" ∷ "signal" ∷ "value" ∷ "unit" ∷ "window_start"
    ∷ "window_end" ∷ "source_reference" ∷ "collected_at" ∷ "collector_version" ∷ []

abbrev pub dimensions : List String
dimensions = "ingest_gb_per_day" ∷ "retention_days" ∷ "active_tenants" ∷ "query_volume" ∷ []

abbrev pub signals : List String
signals = "logs" ∷ "metrics" ∷ "traces" ∷ "platform" ∷ []

abbrev pub units : List String
units = "gb" ∷ "days" ∷ "count" ∷ "queries" ∷ []

abbrev pub source_types : List String
source_types = "opensearch-aggregation" ∷ "tenant-descriptor" ∷ []

abbrev pub source_reference_fields : List String
source_reference_fields =
    "source_type" ∷ "indices" ∷ "document_count" ∷ "content_digest" ∷ "descriptor_field" ∷ []

-- `set(document) - known`, in the document's order.
unfoldable pub unknown_in : List String → Fields → List String
unknown_in known end = []
unknown_in known (field k v fs) =
    let rest = unknown_in known fs in if elem k known then rest else k ∷ rest

unfoldable pub missing_in : Fields → List String → List String
missing_in fs [] = []
missing_in fs (k ∷ ks) = let rest = missing_in fs ks in if has_key k fs then rest else k ∷ rest

-- `value in table`, for a value of any type
abbrev pub is_member : List String → Json → Bool
is_member ss (str s) = elem s ss
is_member ss _ = false

-- a text that satisfies the test
abbrev pub is_text_with : (String → Bool) → Json → Bool
is_text_with p (str s) = p s
is_text_with p _ = false

-- a number, no bool, and not below 0
abbrev pub is_measure : Json → Bool
is_measure (int (pos n)) = true
is_measure (float zero_float) = true
is_measure (float (positive digits)) = true
is_measure (float infinity) = true
is_measure (float nan) = true
is_measure _ = false

abbrev pub is_number : Json → Bool
is_number (int n) = true
is_number (float x) = true
is_number _ = false

abbrev pub is_record_id : String → Bool
is_record_id s = not (s == "") && leb (length (codes s)) 256

abbrev is_hex : ℕ → Bool
is_hex c = leb b'a' c && leb c b'f' || leb b'0' c && leb c b'9'

-- ^sha256:[a-f0-9]{64}$
unfoldable pub is_content_digest : String → Bool
is_content_digest s =
    full_match
      (char b's'
        ▹ char b'h'
        ▹ char b'a'
        ▹ char b'2'
        ▹ char b'5'
        ▹ char b'6'
        ▹ char b':'
        ▹ times 64 (chars is_hex))
      s

abbrev are_nonempty_texts : Items → Bool
are_nonempty_texts nil = true
are_nonempty_texts (cons x xs) = is_nonempty_text x && are_nonempty_texts xs

abbrev pub are_indices : Json → Bool
are_indices (arr (cons x xs)) = is_nonempty_text x && are_nonempty_texts xs
are_indices _ = false

abbrev pub is_count : Json → Bool
is_count (int (pos n)) = true
is_count _ = false

-- `reference.get(key) is not None`
abbrev pub has : String → Fields → Bool
has k fs = not (is_null (get_item k fs))

-- The shape that the source type asks for.
unfoldable pub shape_problems : Bool → Fields → List Problem
shape_problems is_aggregation fs =
    if is_aggregation
    then when (not (has "indices" fs)) indices_required
      ++ when (has "descriptor_field" fs) descriptor_not_allowed
    else when (not (has "descriptor_field" fs)) descriptor_required
      ++ when (has "indices" fs) (not_allowed "indices")
      ++ when (has "document_count" fs) (not_allowed "document_count")
      ++ when (has "content_digest" fs) (not_allowed "content_digest")

abbrev bad : String → (Json → Bool) → Fields → Bool
bad k p fs = has k fs && not (p (get_item k fs))

unfoldable pub reference_field_problems : Bool → Fields → List Problem
reference_field_problems is_aggregation fs =
    when (bad "indices" are_indices fs) bad_indices
    ++ when (bad "document_count" is_count fs) bad_document_count
    ++ when (bad "content_digest" (is_text_with is_content_digest) fs) bad_content_digest
    ++ when (bad "descriptor_field" is_nonempty_text fs) bad_descriptor_field
    ++ shape_problems is_aggregation fs

abbrev is_aggregation : Json → Bool
is_aggregation (str s) = s == "opensearch-aggregation"
is_aggregation _ = false

-- _validate_source_reference
unfoldable pub reference_problems : Json → List Problem
reference_problems (obj fs) =
    let source_type = get_item "source_type" fs in
    when (not (null (unknown_in source_reference_fields fs))) reference_unknown_fields
    ++ (if is_null source_type
        then no_source_type ∷ []
        else if is_member source_types source_type
        then reference_field_problems (is_aggregation source_type) fs
        else unknown_source_type ∷ [])
reference_problems _ = reference_no_object ∷ []

-- The instant of a stamp, a day later: offsets are below a day.
abbrev instant : Stamp → ℕ
instant t =
    if t.ahead then t.local + (day - t.minutes * minute) else t.local + (day + t.minutes * minute)

abbrev is_reversed : Option Stamp → Option Stamp → Bool
is_reversed (some a) (some b) = leb (instant b) (instant a)
is_reversed _ _ = false

unfoldable pub window_problems : Json → Json → List Problem
window_problems (str a) (str b) =
    when (is_datetime a && is_datetime b && is_reversed (from_isoformat a) (from_isoformat b))
      window_reversed
window_problems _ _ = []

-- f"{tenant_id}:{dimension}:{signal}:{window_start[:10]}"
unfoldable pub expected_id : String → String → String → String → String
expected_id t d s w = text_append t (
    text_append ":"
      (text_append d (text_append ":" (text_append s (text_append ":" (prefix_of 10 w))))))

unfoldable pub id_problems : Json → Json → Json → Json → Json → List Problem
id_problems (str r) (str t) (str d) (str s) (str w) =
    when
      (is_tenant_id t
        && elem d dimensions
        && elem s signals
        && is_datetime w
        && not (r == expected_id t d s w))
      wrong_record_id
id_problems _ _ _ _ _ = []

-- `is_one` tells the floats that equal 1.
module _ (is_one : String → Bool) where
  -- `value not in (0, 1)`, of a number
  abbrev pub is_flag : Json → Bool
  is_flag (int (pos n)) = leb n 1
  is_flag (float zero_float) = true
  is_flag (float (positive digits)) = is_one digits
  is_flag _ = false

  unfoldable pub bound_problems : String → Option DimensionBinding → Fields → List Problem
  bound_problems d none fs = []
  bound_problems d (some b) fs =
      when (has_key "signal" fs && not (is_member b.signals (get_item "signal" fs)))
        signal_not_allowed
      ++ when (has_key "unit" fs && not (is_member (b.unit ∷ []) (get_item "unit" fs))) wrong_unit
      ++ when
          (d == "active_tenants"
            && is_number (get_item "value" fs)
            && not (is_flag (get_item "value" fs)))
          wrong_value

  -- The rules of a dimension that has a binding.
  unfoldable pub binding_problems : Json → Fields → List Problem
  binding_problems (str d) fs = bound_problems d (lookup d dimension_bindings) fs
  binding_problems _ fs = []

  -- The key is there and its value fails the test.
  abbrev pub fails : String → (Json → Bool) → Fields → Bool
  fails k p fs = has_key k fs && not (p (get_item k fs))

  unfoldable pub validate_record : Fields → List Problem
  validate_record fs =
      let missing = missing_in fs required_record_fields in
      let unknown = unknown_in required_record_fields fs in
      when (not (null unknown)) (unknown_fields unknown)
      ++ when (not (null missing)) (lacks_required missing)
      ++ when (not (has_key "tenant_id" fs)) no_tenant
      ++ when (fails "tenant_id" (is_text_with is_tenant_id) fs) bad_tenant_id
      ++ when (fails "record_id" (is_text_with is_record_id) fs) bad_record_id
      ++ when (fails "dimension" (is_member dimensions) fs) unknown_dimension
      ++ when (fails "signal" (is_member signals) fs) unknown_signal
      ++ when (fails "unit" (is_member units) fs) unknown_unit
      ++ when (fails "value" is_measure fs) bad_value
      ++ when (fails "window_start" (is_text_with is_datetime) fs) (bad_timestamp "window_start")
      ++ when (fails "window_end" (is_text_with is_datetime) fs) (bad_timestamp "window_end")
      ++ when (fails "collected_at" (is_text_with is_datetime) fs) (bad_timestamp "collected_at")
      ++ when (fails "collector_version" is_nonempty_text fs) bad_collector_version
      ++ binding_problems (get_item "dimension" fs) fs
      ++ window_problems (get_item "window_start" fs) (get_item "window_end" fs)
      ++ id_problems (get_item "record_id" fs) (get_item "tenant_id" fs) (get_item "dimension" fs)
          (get_item "signal" fs) (get_item "window_start" fs)
      ++ (if has_key "source_reference" fs
          then reference_problems (get_item "source_reference" fs)
          else [])
