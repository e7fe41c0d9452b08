-- ===== src/Commercial/Invoice/Tests.antt =====
-- The invoice of one tenant, over natural numbers.
use observability_kit.Prelude.{
  ℕ, ◌+◌, ◌-◌, ◌*◌, ◌/◌, String, List, [], ◌∷◌, Option, none, some, ◌==◌, ◌=?◌, ◌≡◌, refl, pos,
  if◌then◌else◌,
}
use observability_kit.Prelude.Dict.{lookup}
use observability_kit.Prelude.Exec.{Result, ok, raised}
use observability_kit.Json.{Json, int}
use observability_kit.Commercial.Models.{
  FloatError, no_number, Numbers, UsageRecord, SourceReference,
}
use observability_kit.Commercial.Invoice.{
  Moment, aware, BillingPlan, InvoiceExport, same_key, key_le, append_group, group_from,
  insert_group, sort_groups, sum_from, overage_units_of, line_item, line_items_of, export,
  is_outside, check_record, check_records, check_inputs, invoice_id_for, build_invoice,
}
use observability_kit.Commercial.Invoice.Document.{to_dict, ensure_invoice_consistent}
use observability_kit.Commercial.Invoice.Built.{IsInvoice, build_invoice-IsInvoice}
use observability_kit.Commercial.Invoice.Consistent.{
  IsFloat, ensure_invoice_consistent-build_invoice,
}

program : Unit {0}
unfolding lookup same_key key_le append_group group_from insert_group sort_groups sum_from
    overage_units_of line_item line_items_of export is_outside check_record check_records
    check_inputs invoice_id_for build_invoice
program = tt

abbrev to_number : Json → Result FloatError ℕ
to_number (int (pos k)) = ok k
to_number _ = raised no_number

abbrev numbers : Numbers ℕ
numbers = record {
  zero = 0;
  add = λ x y. x + y;
  multiply = λ x y. x * y;
  excess = λ x bound. x - bound;
  round_units = λ x. x;
  started_blocks = λ x. some ((x + 999) / 1000);
  equal = λ x y. x =? y;
  of_float = λ x. int (pos x);
  to_float = to_number;
}

floats : IsFloat numbers
floats = record { reads_back = λ x. refl; rounds_once = λ x. refl }

abbrev read : String → Option Moment
read s = if s == "2026-07-01T00:00:00Z" then some (aware 0) else some (aware 31)

abbrev plan : BillingPlan ℕ
plan = record {
  plan_id = "plan-premium";
  tier = "premium";
  base_monthly_units = 100;
  ingest_gb_per_day_max = 5;
  retention_days_max = ("logs", 30) ∷ [];
  overage_rate_units =
      ("ingest_gb_per_day", 2)
      ∷ ("retention_days", 1)
      ∷ ("active_tenants", 0)
      ∷ ("query_volume", 3)
      ∷ [];
}

abbrev source : SourceReference
source = record {
  source_type = "opensearch-aggregation";
  indices = some ("tenant-acme-logs" ∷ []);
  document_count = some 7;
  content_digest = none;
  descriptor_field = none;
}

abbrev usage : String → String → String → ℕ → UsageRecord ℕ
usage dimension signal unit value = record {
  record_id = "acme";
  tenant_id = "acme";
  dimension = dimension;
  signal = signal;
  value = value;
  unit = unit;
  window_start = "2026-07-01T00:00:00Z";
  window_end = "2026-07-02T00:00:00Z";
  source_reference = source;
  collected_at = "2026-07-03T00:00:00Z";
  collector_version = "commercialsvc-0.1.0";
}

abbrev usages : List (UsageRecord ℕ)
usages =
    usage "query_volume" "platform" "queries" 1500
    ∷ usage "ingest_gb_per_day" "logs" "gb" 8
    ∷ usage "ingest_gb_per_day" "logs" "gb" 4
    ∷ []

abbrev invoice : InvoiceExport ℕ
invoice = record {
  invoice_id = "acme:2026-07-01:2026-08-01";
  tenant_id = "acme";
  plan_id = "plan-premium";
  tier = "premium";
  period_start = "2026-07-01T00:00:00Z";
  period_end = "2026-08-01T00:00:00Z";
  line_items =
      (record {
        dimension = "ingest_gb_per_day";
        signal = "logs";
        quantity = 12;
        unit = "gb";
        overage_units = 6;
        source_record_count = 2;
      })
      ∷ (record {
        dimension = "query_volume";
        signal = "platform";
        quantity = 1500;
        unit = "queries";
        overage_units = 6;
        source_record_count = 1;
      })
      ∷ [];
  base_monthly_units = 100;
  overage_units = 12;
  total_units = 112;
  generated_at = "2026-08-02T00:00:00Z";
  exporter_version = "commercialsvc-0.1.0";
}

built :
    build_invoice numbers read "acme" plan usages "2026-07-01T00:00:00Z" "2026-08-01T00:00:00Z"
      "2026-08-02T00:00:00Z"
    ≡ ok invoice
unfolding program
built = refl

build_invoice-IsInvoice_example :
    IsInvoice numbers read "acme" plan usages "2026-07-01T00:00:00Z" "2026-08-01T00:00:00Z" invoice
build_invoice-IsInvoice_example =
    build_invoice-IsInvoice numbers read "acme" plan usages _ _ _ invoice built

ensure_invoice_consistent-build_invoice_example :
    ensure_invoice_consistent numbers (to_dict numbers invoice) ≡ ok tt
ensure_invoice_consistent-build_invoice_example =
    ensure_invoice_consistent-build_invoice numbers floats read "acme" plan usages _ _ _ invoice
      refl built refl refl
