-- ===== src/Commercial/Validation/Tests.antt =====
-- The record of a day's queries.
use observability_kit.Prelude.{false, refl, pos}
use observability_kit.Prelude.Dict.{lookup}
use observability_kit.Json.{int, str, arr, obj, nil, cons, Fields, end, field}
use observability_kit.Regex.{nullable, cat, join, deriv, matches, up_to, times, full_match}
use observability_kit.Regex.Patterns.{
  between, is_slug_end, is_slug_char, tenant_id_pattern, is_digit, datetime_pattern, is_tenant_id,
  is_datetime,
}
use observability_kit.Time.{ordinal, from_isoformat}
use observability_kit.Commercial.Validation.{
  unknown_in, missing_in, is_content_digest, shape_problems, reference_field_problems,
  reference_problems, window_problems, expected_id, id_problems, bound_problems, binding_problems,
  validate_record,
}
use observability_kit.Commercial.Validation.Usage.{IsUsage}
use observability_kit.Commercial.Validation.Sound.{validate_record-IsUsage}

program : Unit {0}
unfolding lookup nullable cat join deriv matches up_to times full_match between is_slug_end
    is_slug_char tenant_id_pattern is_digit datetime_pattern is_tenant_id is_datetime ordinal
    from_isoformat unknown_in missing_in is_content_digest shape_problems reference_field_problems
    reference_problems window_problems expected_id id_problems bound_problems binding_problems
    validate_record
program = tt

abbrev document : Fields
document = field "record_id" (str "acme:query_volume:platform:2026-07-09") (
    field "tenant_id" (str "acme") (
      field "dimension" (str "query_volume") (
        field "signal" (str "platform") (
          field "value" (int (pos 40)) (
            field "unit" (str "queries") (
              field "window_start" (str "2026-07-09T00:00:00Z") (
                field "window_end" (str "2026-07-10T00:00:00Z") (
                  field "source_reference"
                    (obj (
                      field "source_type" (str "opensearch-aggregation") (
                        field "indices" (arr (cons (str "control-tenancy-audit-2026.07.09") nil))
                          (field "document_count" (int (pos 40)) end))))
                    (field "collected_at" (str "2026-07-10T01:00:00Z")
                      (field "collector_version" (str "commercialsvc-0.1.0") end))))))))))

validate_record-IsUsage_example : IsUsage document
unfolding program
validate_record-IsUsage_example = validate_record-IsUsage (λ digits. false) document refl
