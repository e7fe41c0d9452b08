-- ===== src/Commercial/Invoice/Consistent.antt =====
-- An invoice's document is consistent.
use observability_kit.Prelude.{
  Option, String, true, false, not, List, [], ◌∷◌, map, ◌==◌, ◌≡◌, refl, ap, sym, ◌∙◌, length, null,
  arith,
}
use observability_kit.Prelude.Exec.{ok}
use observability_kit.Json.{Json, arr, obj, field, end}
use observability_kit.Commercial.Models.{Numbers, UsageRecord}
use observability_kit.Commercial.Invoice.{
  Moment, InvoiceError, BillingPlan, InvoiceLineItem, InvoiceExport, sum_from, sum, stop_if,
  build_invoice,
}
use observability_kit.Commercial.Invoice.Document.{
  item_dict, item_dicts, to_dict, nonempty, read_float, sum_overage, check_totals,
  ensure_invoice_consistent,
}
use observability_kit.Commercial.Invoice.LineItems.{record_count}
use observability_kit.Commercial.Invoice.Built.{build_invoice-IsInvoice}

-- A float is written as a number that reads back as the float, and rounding again changes nothing.
pub record IsFloat {F : Type 0} (n : Numbers F) : Type 0 where
  pub reads_back : (x : F) → n.to_float (n.of_float x) ≡ ok x
  pub rounds_once : (x : F) → n.round_units (n.round_units x) ≡ n.round_units x

module _ {F : Type 0} (n : Numbers F) (law : IsFloat n) where
  read_overage :
      (x : InvoiceLineItem F)
      → read_float n "overage_units" (obj (item_dict n x)) ≡ ok x.overage_units
  unfolding read_float item_dict
  read_overage x = rw (law.reads_back x.overage_units) refl

  sum_overage-item_dicts :
      (total : F) (xs : List (InvoiceLineItem F))
      → sum_overage n total (item_dicts n xs)
        ≡ ok (sum_from n total (map (λ x. x.overage_units) xs))
  unfolding sum_overage item_dicts sum_from
  sum_overage-item_dicts total [] = refl
  sum_overage-item_dicts total (x ∷ xs) =
      rw (read_overage x) (sum_overage-item_dicts (n.add total x.overage_units) xs)

  items_there :
      (xs : List (InvoiceLineItem F))
      → null xs ≡ false
      → nonempty n (arr (item_dicts n xs)) ≡ ok (item_dicts n xs)
  unfolding item_dicts
  items_there [] h = cc
  items_there (x ∷ xs) h = refl

  counted-present :
      (xs : List (InvoiceLineItem F)) (rs : List (UsageRecord F))
      → record_count xs ≡ length rs
      → null rs ≡ false
      → null xs ≡ false
  unfolding record_count
  counted-present [] [] c h = h
  counted-present [] (r ∷ rs) c h = absurd (omega (arith, c))
  counted-present (x ∷ xs) rs c h = refl

  abbrev totals_of : InvoiceExport F → Json
  totals_of v = obj (
      field "base_monthly_units" (n.of_float v.base_monthly_units) (
        field "overage_units" (n.of_float v.overage_units)
          (field "total_units" (n.of_float v.total_units) end)))

  agreed :
      (a b : F) (e : InvoiceError)
      → a ≡ b
      → n.equal b b ≡ true
      → stop_if (not (n.equal a b)) e ≡ ok tt
  agreed a b e same real = rw (same, real) refl

  module _ (v : InvoiceExport F)
      (overage : v.overage_units ≡ n.round_units (sum n (map (λ x. x.overage_units) v.line_items)))
      (total : v.total_units ≡ n.round_units (n.add v.base_monthly_units v.overage_units))
      (real_overage : n.equal v.overage_units v.overage_units ≡ true)
      (real_total : n.equal v.total_units v.total_units ≡ true) where
    rounded_overage : n.round_units v.overage_units ≡ v.overage_units
    rounded_overage = ap n.round_units overage ∙ law.rounds_once _ ∙ sym overage

    rounded_total : n.round_units v.total_units ≡ v.total_units
    rounded_total = ap n.round_units total ∙ law.rounds_once _ ∙ sym total

    check_totals-totals : check_totals n (item_dicts n v.line_items) (totals_of v) ≡ ok tt
    unfolding check_totals read_float
    check_totals-totals =
        rw
          (
            sum_overage-item_dicts n.zero v.line_items,
            law.reads_back v.overage_units,
            law.reads_back v.base_monthly_units,
            law.reads_back v.total_units,
            sym overage,
            rounded_overage,
            sym total,
            rounded_total,
            real_overage,
            real_total,
          )
          refl

    consistent :
        not (v.tenant_id == "") ≡ true
        → null v.line_items ≡ false
        → ensure_invoice_consistent n (to_dict n v) ≡ ok tt
    unfolding ensure_invoice_consistent to_dict
    consistent named present = rw (named, items_there v.line_items present) check_totals-totals

  -- An invoice that build_invoice returns for a tenant with a name passes ensure_invoice_consistent as a
  -- document, unless one of its totals is no number: where floats read back as they are written,
  -- rounding twice is rounding once, and each total equals itself.
  pub ensure_invoice_consistent-build_invoice :
      (read : String → Option Moment) (tenant_id : String) (plan : BillingPlan F)
      (records : List (UsageRecord F)) (from till now : String) (v : InvoiceExport F)
      → not (tenant_id == "") ≡ true
      → build_invoice n read tenant_id plan records from till now ≡ ok v
      → n.equal v.overage_units v.overage_units ≡ true
      → n.equal v.total_units v.total_units ≡ true
      → ensure_invoice_consistent n (to_dict n v) ≡ ok tt
  ensure_invoice_consistent-build_invoice read tenant_id plan records from till now v named built
        real_overage real_total =
      let facts = build_invoice-IsInvoice n read tenant_id plan records from till now v built in
      let total : v.total_units ≡ n.round_units (n.add v.base_monthly_units v.overage_units) =
        facts.total ∙ ap (λ b. n.round_units (n.add b v.overage_units)) (sym facts.base) in
      consistent v facts.overage total real_overage real_total
        (ap (λ t. not (t == "")) facts.tenant ∙ named)
        (counted-present v.line_items records facts.counted facts.billable.some_record)
