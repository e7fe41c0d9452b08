-- ===== src/Commercial/Invoice.antt =====
-- build_invoice of services/commercial/commercialsvc/invoicing.py.
use observability_kit.Prelude.{
  ℕ, zero, suc, String, Bool, true, false, ◌||◌, ◌&&◌, not, List, [], ◌∷◌, ◌++◌, Option, map, ◌==◌,
  ltb, length, null, if◌then◌else◌,
}
use observability_kit.Prelude.Dict.{Dict, lookup}
use observability_kit.Prelude.Exec.{Result, ok, raised}
use observability_kit.Prelude.Raise.{◌>>=◌, or_raise}
use observability_kit.Commercial.Models.{Numbers, UsageRecord, dimension_bindings}
use Prim.Native.String.{compare, ◌++◌ as text_append}
use Prim.Native.Nat.{Ordering}
pub mod Document
pub mod Grouping
pub mod Matching
pub mod LineItems
pub mod Built
pub mod Consistent
mod Tests

pub data InvoiceError : Type 0 where
  bad_timestamp : String → InvoiceError
  not_after period_empty : InvoiceError
  foreign_tenant outside_period : (record_id : String) → InvoiceError
  missing_tenant no_line_items no_totals malformed : InvoiceError
  inconsistent_overage inconsistent_total : InvoiceError
  -- the exceptions that the code does not raise itself
  key_error type_error overflow_error : InvoiceError

-- What `datetime.fromisoformat` returns: the local microseconds of a time without an offset, the UTC
-- microseconds of one with it. Python does not order the two kinds against each other.
pub data Moment : Type 0 where
  naive aware : ℕ → Moment

-- `a < b`
abbrev pub is_before : Moment → Moment → Result InvoiceError Bool
is_before (naive a) (naive b) = ok (ltb a b)
is_before (aware a) (aware b) = ok (ltb a b)
is_before _ _ = raised type_error

pub record BillingPlan (F : Type 0) : Type 0 where
  pub plan_id : String
  pub tier : String
  pub base_monthly_units : F
  pub ingest_gb_per_day_max : F
  pub retention_days_max : Dict F
  pub overage_rate_units : Dict F

pub record InvoiceLineItem (F : Type 0) : Type 0 where
  pub dimension : String
  pub signal : String
  pub quantity : F
  pub unit : String
  pub overage_units : F
  pub source_record_count : ℕ

pub record InvoiceExport (F : Type 0) : Type 0 where
  pub invoice_id : String
  pub tenant_id : String
  pub plan_id : String
  pub tier : String
  pub period_start : String
  pub period_end : String
  pub line_items : List (InvoiceLineItem F)
  pub base_monthly_units : F
  pub overage_units : F
  pub total_units : F
  pub generated_at : String
  pub exporter_version : String

-- The key of `grouped`.
pub record Key : Type 0 where
  pub dimension : String
  pub signal : String

unfoldable pub same_key : Key → Key → Bool
same_key j k = j.dimension == k.dimension && j.signal == k.signal

abbrev pub is_lt : String → String → Bool
is_lt s t = elim (compare s t) [ Ordering.lt ↦ true | _ ↦ false ]

-- The order of tuples, for `sorted`.
unfoldable pub key_le : Key → Key → Bool
key_le j k =
    is_lt j.dimension k.dimension || (j.dimension == k.dimension && not (is_lt k.signal j.signal))

abbrev pub Groups : Type 0 → Type 0
Groups F = List (Key × List (UsageRecord F))

module _ {F : Type 0} where
  abbrev pub key_of : UsageRecord F → Key
  key_of r = record { dimension = r.dimension; signal = r.signal }

  -- `grouped.setdefault(key, []).append(record)`
  unfoldable pub append_group : Key → UsageRecord F → Groups F → Groups F
  append_group k r [] = (k, r ∷ []) ∷ []
  append_group k r ((j, rs) ∷ gs) =
      let rest = append_group k r gs in
      if same_key j k then (j, rs ++ r ∷ []) ∷ gs else (j, rs) ∷ rest

  unfoldable pub group_from : Groups F → List (UsageRecord F) → Groups F
  group_from gs [] = gs
  group_from gs (r ∷ rs) = group_from (append_group (key_of r) r gs) rs

  unfoldable pub insert_group : Key × List (UsageRecord F) → Groups F → Groups F
  insert_group g [] = g ∷ []
  insert_group g (h ∷ gs) =
      let rest = insert_group g gs in if key_le g.0 h.0 then g ∷ h ∷ gs else h ∷ rest

  unfoldable pub sort_groups : Groups F → Groups F
  sort_groups [] = []
  sort_groups (g ∷ gs) = insert_group g (sort_groups gs)

-- `n` are Python's floats.
module _ {F : Type 0} (n : Numbers F) where
  unfoldable pub sum_from : F → List F → F
  sum_from total [] = total
  sum_from total (x ∷ xs) = sum_from (n.add total x) xs

  abbrev pub sum : List F → F
  sum xs = sum_from n.zero xs

  abbrev over : F → List F → F
  over bound values = sum (map (λ value. n.excess value bound) values)

  unfoldable pub overage_units_of : String → String → List F → BillingPlan F → Result InvoiceError F
  overage_units_of dimension signal values plan =
      or_raise (lookup dimension plan.overage_rate_units) key_error >>= λ rate.
      if dimension == "ingest_gb_per_day"
      then ok (n.round_units (n.multiply (over plan.ingest_gb_per_day_max values) rate))
      else if dimension == "retention_days"
      then (or_raise (lookup signal plan.retention_days_max) key_error >>= λ bound.
          ok (n.round_units (n.multiply (over bound values) rate)))
      else if dimension == "active_tenants"
      then ok (n.round_units (n.multiply (sum values) rate))
      else (or_raise (n.started_blocks (sum values)) overflow_error >>= λ blocks.
          ok (n.round_units (n.multiply blocks rate)))

  abbrev pub values_of : List (UsageRecord F) → List F
  values_of rs = map (λ r. r.value) rs

  unfoldable pub line_item :
      BillingPlan F → Key → List (UsageRecord F) → Result InvoiceError (InvoiceLineItem F)
  line_item plan key group =
      or_raise (lookup key.dimension dimension_bindings) key_error >>= λ binding.
      overage_units_of key.dimension key.signal (values_of group) plan >>= λ overage. ok (record {
        dimension = key.dimension;
        signal = key.signal;
        quantity = n.round_units (sum (values_of group));
        unit = binding.unit;
        overage_units = overage;
        source_record_count = length group;
      })

  unfoldable pub line_items_of :
      BillingPlan F
      → List (Key × List (UsageRecord F))
      → Result InvoiceError (List (InvoiceLineItem F))
  line_items_of plan [] = ok []
  line_items_of plan ((key, group) ∷ groups) =
      line_item plan key group >>= λ item. line_items_of plan groups >>= λ items. ok (item ∷ items)

  -- The totals of the line items, and the rest of the document.
  unfoldable pub export :
      String
      → BillingPlan F
      → List (InvoiceLineItem F)
      → String
      → String
      → String
      → String
      → InvoiceExport F
  export tenant_id plan items invoice_id period_start period_end generated_at =
      let overage_total = n.round_units (sum (map (λ item. item.overage_units) items)) in
      record {
        invoice_id = invoice_id;
        tenant_id = tenant_id;
        plan_id = plan.plan_id;
        tier = plan.tier;
        period_start = period_start;
        period_end = period_end;
        line_items = items;
        base_monthly_units = plan.base_monthly_units;
        overage_units = overage_total;
        total_units = n.round_units (n.add plan.base_monthly_units overage_total);
        generated_at = generated_at;
        exporter_version = "commercialsvc-0.1.0";
      }

abbrev pub stop_if : Bool → InvoiceError → Result InvoiceError (Unit {0})
stop_if b e = if b then raised e else ok tt

-- `window_start < start or window_end > end`
unfoldable pub is_outside : Moment → Moment → Moment → Moment → Result InvoiceError Bool
is_outside start end_of window_start window_end =
    is_before window_start start >>= λ early. if early then ok true else is_before end_of window_end

-- `read` is `datetime.fromisoformat`, none for its ValueError.
abbrev pub parse_timestamp : (String → Option Moment) → String → String → Result InvoiceError Moment
parse_timestamp read value field_name = or_raise (read value) (bad_timestamp field_name)

module _ {F : Type 0} (read : String → Option Moment) where
  unfoldable pub check_record :
      String → Moment → Moment → UsageRecord F → Result InvoiceError (Unit {0})
  check_record tenant_id start end_of r =
      stop_if (not (r.tenant_id == tenant_id)) (foreign_tenant r.record_id) >>= λ _.
      parse_timestamp read r.window_start "window_start" >>= λ window_start.
      parse_timestamp read r.window_end "window_end" >>= λ window_end.
      is_outside start end_of window_start window_end >>= λ outside.
      stop_if outside (outside_period r.record_id)

  unfoldable pub check_records :
      String → Moment → Moment → List (UsageRecord F) → Result InvoiceError (Unit {0})
  check_records tenant_id start end_of [] = ok tt
  check_records tenant_id start end_of (r ∷ rs) =
      check_record tenant_id start end_of r >>= λ _. check_records tenant_id start end_of rs

  -- The checks of build_invoice.
  unfoldable pub check_inputs :
      String → List (UsageRecord F) → String → String → Result InvoiceError (Unit {0})
  check_inputs tenant_id records period_start period_end =
      parse_timestamp read period_start "period_start" >>= λ start.
      parse_timestamp read period_end "period_end" >>= λ end_of.
      is_before start end_of >>= λ ordered. stop_if (not ordered) not_after >>= λ _.
      stop_if (null records) period_empty >>= λ _. check_records tenant_id start end_of records

-- The first ten characters of a text.
abbrev pub prefix_of : ℕ → String → String
prefix_of zero s = ""
prefix_of (suc k) String.[] = ""
prefix_of (suc k) (String.◌∷◌ c s) = String.◌∷◌ c (prefix_of k s)

unfoldable pub invoice_id_for : String → String → String → String
invoice_id_for tenant_id period_start period_end = text_append tenant_id (
    text_append ":"
      (text_append (prefix_of 10 period_start) (text_append ":" (prefix_of 10 period_end))))

module _ {F : Type 0} (n : Numbers F) (read : String → Option Moment) where
  unfoldable pub build_invoice :
      String
      → BillingPlan F
      → List (UsageRecord F)
      → String
      → String
      → String
      → Result InvoiceError (InvoiceExport F)
  build_invoice tenant_id plan records period_start period_end generated_at =
      check_inputs read tenant_id records period_start period_end >>= λ _.
      line_items_of n plan (sort_groups (group_from [] records)) >>= λ items. ok (
        export n tenant_id plan items (invoice_id_for tenant_id period_start period_end)
          period_start period_end generated_at)
