-- ===== src/AiRuntime/Truncation.antt =====
-- _truncate_lists of services/ai/airuntime/gateway.py: every list of a response has at most
-- MAX_RESPONSE_ITEMS items. `truncate` is the bounded copy, `truncations` the number of lists cut.
use observability_kit.Prelude.{ℕ, zero, suc, ◌+◌, ltb, if◌then◌else◌}
use observability_kit.Json.{Json, arr, obj, Items, nil, cons, Fields, end, field}
pub mod Laws
mod Tests

abbrev pub max_response_items : ℕ
max_response_items = 500

abbrev pub count_items : Items → ℕ
count_items nil = 0
count_items (cons x xs) = suc (count_items xs)

-- The first `n` items, each bounded: `node[:n]` and the loop over it.
unfoldable mutual
  pub truncate : Json → Json
  truncate (arr xs) = arr (truncate_items max_response_items xs)
  truncate (obj fs) = obj (truncate_fields fs)
  truncate j = j

  pub truncate_items : ℕ → Items → Items
  truncate_items zero xs = nil
  truncate_items (suc n) nil = nil
  truncate_items (suc n) (cons x xs) = cons (truncate x) (truncate_items n xs)

  pub truncate_fields : Fields → Fields
  truncate_fields end = end
  truncate_fields (field k v fs) = field k (truncate v) (truncate_fields fs)

unfoldable mutual
  pub truncations : Json → ℕ
  truncations (arr xs) =
      (if ltb max_response_items (count_items xs) then 1 else 0)
      + item_truncations max_response_items xs
  truncations (obj fs) = field_truncations fs
  truncations j = 0

  pub item_truncations : ℕ → Items → ℕ
  item_truncations zero xs = 0
  item_truncations (suc n) nil = 0
  item_truncations (suc n) (cons x xs) = truncations x + item_truncations n xs

  pub field_truncations : Fields → ℕ
  field_truncations end = 0
  field_truncations (field k v fs) = truncations v + field_truncations fs
