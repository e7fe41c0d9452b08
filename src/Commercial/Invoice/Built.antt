-- ===== src/Commercial/Invoice/Built.antt =====
-- What build_invoice returns.
use observability_kit.Prelude.{
  ◌≤◌, String, Bool, true, false, not, List, [], ◌∷◌, Option, some, map, ◌==◌, ◌≡◌, refl, ap, subst,
  ◌∙◌, length, null, eq_iff, ltb, arith, if◌then◌else◌,
}
use observability_kit.Prelude.Exec.{Result, ok}
use observability_kit.Prelude.Raise.{bind-ok, or_raise-ok, ok-inj}
use observability_kit.Commercial.Models.{Numbers, UsageRecord}
use observability_kit.Commercial.Invoice.{
  InvoiceError, bad_timestamp, not_after, period_empty, foreign_tenant, outside_period, Moment, Key,
  naive, aware, is_before, is_outside, BillingPlan, InvoiceExport, group_from, sort_groups, sum,
  line_items_of, export, stop_if, parse_timestamp, check_record, check_records, check_inputs,
  build_invoice,
}
use observability_kit.Commercial.Invoice.Grouping.{size-grouped, has_record, has_group-grouped}
use observability_kit.Commercial.Invoice.LineItems.{
  has_item, Once, record_count, AllItems, grouped-AreItems,
}

stop_if-ok : (b : Bool) (e : InvoiceError) (u : Unit {0}) → stop_if b e ≡ ok u → b ≡ false
stop_if-ok false e u h = refl
stop_if-ok true e u h = cc

-- Not later, among the moments that Python orders.
abbrev pub NotAfter : Moment → Moment → Type 0
NotAfter (naive a) (naive b) = a ≤ b
NotAfter (aware a) (aware b) = a ≤ b
NotAfter _ _ = ⊥

is_before-false : (a b : Moment) → is_before a b ≡ ok false → NotAfter b a
is_before-false (naive a) (naive b) h = let e : ltb a b ≡ false = ok-inj h in ground (arith, e)
is_before-false (aware a) (aware b) h = let e : ltb a b ≡ false = ok-inj h in ground (arith, e)
is_before-false (naive a) (aware b) h = cc
is_before-false (aware a) (naive b) h = cc

not_early :
    (early : Bool) (r : Result InvoiceError Bool)
    → (if early then ok true else r) ≡ ok false
    → (early ≡ false) × (r ≡ ok false)
not_early true r h = cc
not_early false r h = (refl, h)

is_outside-false :
    (start end_of window_start window_end : Moment)
    → is_outside start end_of window_start window_end ≡ ok false
    → NotAfter start window_start × NotAfter window_end end_of
unfolding is_outside
is_outside-false start end_of window_start window_end h =
    let (early, known, rest) = bind-ok (is_before window_start start) _ false h in
    let (late, inside) = not_early early (is_before end_of window_end) rest in
    (
      is_before-false window_start start (known ∙ ap ok late),
      is_before-false end_of window_end inside,
    )

not-false : (b : Bool) → not b ≡ false → b ≡ true
not-false b h = ground arith

not-eq : (s t : String) → not (s == t) ≡ false → s ≡ t
not-eq s t h = (eq_iff s t).0 (ground arith)

module _ {F : Type 0} (read : String → Option Moment) where
  -- The record is the tenant's, and its window lies within the period.
  pub record IsBilled (tenant_id : String) (start end_of : Moment) (r : UsageRecord F)
      : Type 0 where
    pub tenant : r.tenant_id ≡ tenant_id
    pub window :
        (window_start window_end : Moment) × (read r.window_start ≡ some window_start)
        × (read r.window_end ≡ some window_end)
        × NotAfter start window_start
        × NotAfter window_end end_of

  abbrev pub AllBilled : String → Moment → Moment → List (UsageRecord F) → Type 0
  AllBilled tenant_id start end_of [] = Unit
  AllBilled tenant_id start end_of (r ∷ rs) =
      IsBilled tenant_id start end_of r × AllBilled tenant_id start end_of rs

  check_record-IsBilled :
      (tenant_id : String) (start end_of : Moment) (r : UsageRecord F) (u : Unit {0})
      → check_record read tenant_id start end_of r ≡ ok u
      → IsBilled tenant_id start end_of r
  unfolding check_record
  check_record-IsBilled tenant_id start end_of r u h =
      let foreign = not (r.tenant_id == tenant_id) in
      let (v, own, h) = bind-ok (stop_if foreign (foreign_tenant r.record_id)) _ u h in
      let (from, from_is, h) = bind-ok (parse_timestamp read r.window_start "window_start") _ u h in
      let (till, till_is, h) = bind-ok (parse_timestamp read r.window_end "window_end") _ u h in
      let (outside, outside_is, h) = bind-ok (is_outside start end_of from till) _ u h in
      let inside = stop_if-ok outside (outside_period r.record_id) u h in
      let (early, late) = is_outside-false start end_of from till (outside_is ∙ ap ok inside) in
      record {
        tenant =
            not-eq r.tenant_id tenant_id (stop_if-ok foreign (foreign_tenant r.record_id) v own);
        window = (
          from,
          till,
          or_raise-ok (read r.window_start) (bad_timestamp "window_start") from from_is,
          or_raise-ok (read r.window_end) (bad_timestamp "window_end") till till_is,
          early,
          late,
        );
      }

  check_records-AllBilled :
      (tenant_id : String) (start end_of : Moment) (rs : List (UsageRecord F)) (u : Unit {0})
      → check_records read tenant_id start end_of rs ≡ ok u
      → AllBilled tenant_id start end_of rs
  unfolding check_records
  check_records-AllBilled tenant_id start end_of [] u h = tt
  check_records-AllBilled tenant_id start end_of (r ∷ rs) u h =
      let (v, first, rest) = bind-ok (check_record read tenant_id start end_of r) _ u h in
      (
        check_record-IsBilled tenant_id start end_of r v first,
        check_records-AllBilled tenant_id start end_of rs u rest,
      )

  -- The records can be billed: there is one, and all are the tenant's and lie in the period.
  pub record AreBillable (tenant_id : String) (records : List (UsageRecord F)) (from till : String)
      : Type 0 where
    pub some_record : null records ≡ false
    pub period :
        (start end_of : Moment) × (read from ≡ some start)
        × (read till ≡ some end_of)
        × (is_before start end_of ≡ ok true)
        × AllBilled tenant_id start end_of records

  check_inputs-AreBillable :
      (tenant_id : String) (records : List (UsageRecord F)) (from till : String) (u : Unit {0})
      → check_inputs read tenant_id records from till ≡ ok u
      → AreBillable tenant_id records from till
  unfolding check_inputs
  check_inputs-AreBillable tenant_id records from till u h =
      let (start, start_is, h) = bind-ok (parse_timestamp read from "period_start") _ u h in
      let (end_of, end_is, h) = bind-ok (parse_timestamp read till "period_end") _ u h in
      let (ordered, ordered_is, h) = bind-ok (is_before start end_of) _ u h in
      let (v, after, h) = bind-ok (stop_if (not ordered) not_after) _ u h in
      let (w, present, h) = bind-ok (stop_if (null records) period_empty) _ u h in
      record {
        some_record = stop_if-ok (null records) period_empty w present;
        period = (
          start,
          end_of,
          or_raise-ok (read from) (bad_timestamp "period_start") start start_is,
          or_raise-ok (read till) (bad_timestamp "period_end") end_of end_is,
          ordered_is ∙ ap ok (not-false ordered (stop_if-ok (not ordered) not_after v after)),
          check_records-AllBilled tenant_id start end_of records u h,
        );
      }

module _ {F : Type 0} (n : Numbers F) (read : String → Option Moment) where
  -- What an invoice says of the records that it is made of.
  pub record IsInvoice (tenant_id : String) (plan : BillingPlan F) (records : List (UsageRecord F))
      (from till : String) (v : InvoiceExport F) : Type 0 where
    pub billable : AreBillable read tenant_id records from till
    pub tenant : v.tenant_id ≡ tenant_id
    pub all_items : AllItems n plan records v.line_items
    pub once : Once v.line_items
    pub keys : (k : Key) → has_item k v.line_items ≡ has_record k records
    pub counted : record_count v.line_items ≡ length records
    pub overage : v.overage_units ≡ n.round_units (sum n (map (λ x. x.overage_units) v.line_items))
    pub total : v.total_units ≡ n.round_units (n.add plan.base_monthly_units v.overage_units)
    pub base : v.base_monthly_units ≡ plan.base_monthly_units

  -- An invoice that build_invoice returns is single-tenant, and its records lie within the period. A
  -- dimension and signal has a line item exactly if a record has this dimension and signal, and then
  -- one, with the rounded sum of the values, the overage and the number of exactly these records; the
  -- line items together count every record once, and the totals are those of the line items and the
  -- plan.
  pub build_invoice-IsInvoice :
      (tenant_id : String) (plan : BillingPlan F) (records : List (UsageRecord F))
      (from till now : String) (v : InvoiceExport F)
      → build_invoice n read tenant_id plan records from till now ≡ ok v
      → IsInvoice tenant_id plan records from till v
  unfolding build_invoice export
  build_invoice-IsInvoice tenant_id plan records from till now v h =
      let (u, checked, h) = bind-ok (check_inputs read tenant_id records from till) _ v h in
      let (items, made, same) =
        bind-ok (line_items_of n plan (sort_groups (group_from [] records))) _ v h in
      let facts = grouped-AreItems n plan records items made in
      subst (IsInvoice tenant_id plan records from till) (ok-inj same) (record {
        billable = check_inputs-AreBillable read tenant_id records from till u checked;
        tenant = refl;
        all_items = facts.all_items;
        once = facts.once;
        keys = λ k. facts.keys k ∙ has_group-grouped k records;
        counted = facts.counted ∙ size-grouped records;
        overage = refl;
        total = refl;
        base = refl;
      })
