-- ===== src/Commercial/Invoice/Document.antt =====
-- to_dict and ensure_invoice_consistent of services/commercial/commercialsvc/invoicing.py.
use observability_kit.Prelude.{String, not, List, [], ◌∷◌, pos, if◌then◌else◌}
use observability_kit.Prelude.Exec.{Result, ok, raised}
use observability_kit.Prelude.Raise.{◌>>=◌}
use observability_kit.Json.{
  Json, int, str, arr, obj, Items, nil, cons, Fields, end, field, get_item, has_key, is_truthy,
}
use observability_kit.Commercial.Models.{FloatError, no_number, overflow, Numbers}
use observability_kit.Commercial.Invoice.{
  InvoiceError, missing_tenant, no_line_items, no_totals, malformed, inconsistent_overage,
  inconsistent_total, overflow_error, InvoiceLineItem, InvoiceExport, stop_if,
}

module _ {F : Type 0} (n : Numbers F) where
  unfoldable pub item_dict : InvoiceLineItem F → Fields
  item_dict x = field "dimension" (str x.dimension) (
      field "signal" (str x.signal) (
        field "quantity" (n.of_float x.quantity) (
          field "unit" (str x.unit) (
            field "overage_units" (n.of_float x.overage_units)
              (field "source_record_count" (int (pos x.source_record_count)) end)))))

  unfoldable pub item_dicts : List (InvoiceLineItem F) → Items
  item_dicts [] = nil
  item_dicts (x ∷ xs) = cons (obj (item_dict x)) (item_dicts xs)

  unfoldable pub to_dict : InvoiceExport F → Fields
  to_dict v = field "invoice_id" (str v.invoice_id) (
      field "tenant_id" (str v.tenant_id) (
        field "plan_id" (str v.plan_id) (
          field "tier" (str v.tier) (
            field "billing_period"
              (obj (field "start" (str v.period_start) (field "end" (str v.period_end) end)))
              (field "line_items" (arr (item_dicts v.line_items)) (
                field "totals"
                  (obj (
                    field "base_monthly_units" (n.of_float v.base_monthly_units) (
                      field "overage_units" (n.of_float v.overage_units)
                        (field "total_units" (n.of_float v.total_units) end))))
                  (field "generated_at" (str v.generated_at)
                    (field "exporter_version" (str v.exporter_version) end))))))))

  abbrev converted : Result FloatError F → Result InvoiceError F
  converted (ok x) = ok x
  converted (raised no_number) = raised malformed
  converted (raised overflow) = raised overflow_error

  -- `float(value[key])`, whose KeyError, TypeError and ValueError become the malformed document.
  unfoldable pub read_float : String → Json → Result InvoiceError F
  read_float key (obj fs) =
      if has_key key fs then converted (n.to_float (get_item key fs)) else raised malformed
  read_float key _ = raised malformed

  unfoldable pub sum_overage : F → Items → Result InvoiceError F
  sum_overage total nil = ok total
  sum_overage total (cons x xs) =
      read_float "overage_units" x >>= λ units. sum_overage (n.add total units) xs

  unfoldable pub check_totals : Items → Json → Result InvoiceError (Unit {0})
  check_totals items totals = sum_overage n.zero items >>= λ overage_sum.
      read_float "overage_units" totals >>= λ totals_overage.
      read_float "base_monthly_units" totals >>= λ base_units.
      read_float "total_units" totals >>= λ total_units.
      let overage = n.round_units overage_sum in
      stop_if (not (n.equal (n.round_units totals_overage) overage)) inconsistent_overage >>= λ _.
      stop_if (not (n.equal (n.round_units total_units) (n.round_units (n.add base_units overage))))
        inconsistent_total

  abbrev pub nonempty : Json → Result InvoiceError Items
  nonempty (arr (cons x xs)) = ok (cons x xs)
  nonempty _ = raised no_line_items

  abbrev object : Json → Result InvoiceError Json
  object (obj fs) = ok (obj fs)
  object _ = raised no_totals

  unfoldable pub ensure_invoice_consistent : Fields → Result InvoiceError (Unit {0})
  ensure_invoice_consistent document =
      stop_if (not (is_truthy (get_item "tenant_id" document))) missing_tenant >>= λ _.
      nonempty (get_item "line_items" document) >>= λ items.
      object (get_item "totals" document) >>= λ totals. check_totals items totals
