-- ===== src/Commercial/Metering/Tests.antt =====
-- A day with one busy and one idle tenant.
use observability_kit.Prelude.{ℕ, List, [], ◌∷◌, none, ◌≡◌, refl, elem, if◌then◌else◌}
use observability_kit.Prelude.Sort.{count, All}
use observability_kit.Commercial.Metering.{
  DayWindow, IngestStat, TenantRetention, QueryVolumeStat, build_usage_records,
}
use observability_kit.Commercial.Metering.Bound.{IsBound, build_usage_records-IsBound}
use observability_kit.Commercial.Metering.Complete.{
  named_tenants, is_for, build_usage_records-count,
}

abbrev window : DayWindow
window = record { day = "2026-07-09"; next_day = "2026-07-10"; index_suffix = "2026.07.09" }

abbrev stats : List IngestStat
stats =
    record {
      tenant_id = "acme";
      signal = "logs";
      store_size_bytes = 5000000000;
      document_count = 12;
      indices = "tenant-acme-logs-2026.07.09" ∷ [];
      content_digest = none;
    }
    ∷ []

abbrev retentions : List TenantRetention
retentions =
    record { tenant_id = "globex"; logs_days = 30; metrics_days = 14; traces_days = 7 } ∷ []

abbrev queries : List QueryVolumeStat
queries = record { tenant_id = "acme"; query_count = 40; indices = [] } ∷ []

abbrev value : ℕ → ℕ
value k = k

build_usage_records-IsBound_example :
    All
      (IsBound window)
      (build_usage_records value value window "now" "v1" stats retentions queries)
build_usage_records-IsBound_example =
    build_usage_records-IsBound value value window "now" "v1" stats retentions queries (refl, tt)

build_usage_records-count_example :
    (count
        (is_for "active_tenants" "globex")
        (build_usage_records value value window "now" "v1" stats retentions queries)
      ≡ (if elem "globex" (named_tenants stats retentions queries) then 1 else 0))
    × (count
          (is_for "query_volume" "globex")
          (build_usage_records value value window "now" "v1" stats retentions queries)
        ≡ (if elem "globex" (named_tenants stats retentions queries) then 1 else 0))
build_usage_records-count_example =
    build_usage_records-count value value window "now" "v1" "globex" stats retentions queries
