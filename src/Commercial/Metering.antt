-- ===== src/Commercial/Metering.antt =====
-- The usage records of services/commercial/commercialsvc/builder.py, and the guard of the sinks.
use observability_kit.Prelude.{
  ℕ, ◌+◌, String, Bool, ◌||◌, ◌&&◌, List, [], ◌∷◌, ◌++◌, Option, none, some, map, ◌==◌, ltb,
  if◌then◌else◌,
}
use observability_kit.Prelude.Sort.{sort_by, sorted_set, is_lt, text_le}
use observability_kit.Commercial.Models.{SourceReference, UsageRecord}
use Prim.Native.String.{◌++◌ as text_append}
pub mod Bound
pub mod Complete
mod Tests

-- A UTC day: its ISO text, that of the next day, and the day in dotted form.
pub record DayWindow : Type 0 where
  pub day : String
  pub next_day : String
  pub index_suffix : String

abbrev pub window_start : DayWindow → String
window_start w = text_append w.day "T00:00:00Z"

abbrev pub window_end : DayWindow → String
window_end w = text_append w.next_day "T00:00:00Z"

pub record IngestStat : Type 0 where
  pub tenant_id : String
  pub signal : String
  pub store_size_bytes : ℕ
  pub document_count : ℕ
  pub indices : List String
  pub content_digest : Option String

pub record TenantRetention : Type 0 where
  pub tenant_id : String
  pub logs_days : ℕ
  pub metrics_days : ℕ
  pub traces_days : ℕ

pub record QueryVolumeStat : Type 0 where
  pub tenant_id : String
  pub query_count : ℕ
  pub indices : List String

-- f"{tenant_id}:{dimension}:{signal}:{day}"
unfoldable pub record_id_for : String → String → String → DayWindow → String
record_id_for tenant_id dimension signal w = text_append tenant_id (
    text_append ":"
      (text_append dimension (text_append ":" (text_append signal (text_append ":" w.day)))))

abbrev pub aggregation : List String → ℕ → Option String → SourceReference
aggregation indices document_count content_digest = record {
  source_type = "opensearch-aggregation";
  indices = some indices;
  document_count = some document_count;
  content_digest = content_digest;
  descriptor_field = none;
}

abbrev pub descriptor : String → SourceReference
descriptor descriptor_field = record {
  source_type = "tenant-descriptor";
  indices = none;
  document_count = none;
  content_digest = none;
  descriptor_field = some descriptor_field;
}

-- The order of tuples of texts.
abbrev pub ingest_le : IngestStat → IngestStat → Bool
ingest_le a b =
    is_lt a.tenant_id b.tenant_id || (a.tenant_id == b.tenant_id && text_le a.signal b.signal)

abbrev pub retention_le : TenantRetention → TenantRetention → Bool
retention_le a b = text_le a.tenant_id b.tenant_id

-- The stats of a tenant, and the indices that they name.
unfoldable pub ingest_of : String → List IngestStat → List IngestStat
ingest_of t [] = []
ingest_of t (s ∷ ss) = let rest = ingest_of t ss in if s.tenant_id == t then s ∷ rest else rest

unfoldable pub documents_in : List IngestStat → ℕ
documents_in [] = 0
documents_in (s ∷ ss) = s.document_count + documents_in ss

unfoldable pub indices_in : List IngestStat → List String
indices_in [] = []
indices_in (s ∷ ss) = s.indices ++ indices_in ss

-- `{stat.tenant_id: stat for stat in query_stats}.get(t)`: the last of a tenant's stats.
unfoldable pub query_of : String → List QueryVolumeStat → Option QueryVolumeStat
query_of t [] = none
query_of t (s ∷ ss) = elim (query_of t ss) [
  | some later ↦ some later
  | none ↦ if s.tenant_id == t then some s else none
]

abbrev pub query_count_of : Option QueryVolumeStat → ℕ
query_count_of none = 0
query_count_of (some s) = s.query_count

abbrev pub query_indices_of : Option QueryVolumeStat → List String
query_indices_of none = []
query_indices_of (some s) = s.indices

abbrev or_else : List String → String → List String
or_else [] x = x ∷ []
or_else (y ∷ ys) x = y ∷ ys

unfoldable pub known_tenants :
    List IngestStat → List TenantRetention → List QueryVolumeStat → List String
known_tenants stats retentions queries = sorted_set (
    map (λ s. s.tenant_id) stats
    ++ map (λ r. r.tenant_id) retentions
    ++ map (λ q. q.tenant_id) queries)

module _ {F : Type 0} where
  abbrev pub record_le : UsageRecord F → UsageRecord F → Bool
  record_le a b =
      is_lt a.tenant_id b.tenant_id
      || (a.tenant_id == b.tenant_id
          && (is_lt a.dimension b.dimension
              || (a.dimension == b.dimension && text_le a.signal b.signal)))

-- `of_nat` is an integer as a value, and `gigabytes` is `round(n / 1_000_000_000, 6)`.
module _ {F : Type 0} (of_nat gigabytes : ℕ → F) (w : DayWindow)
    (collected_at collector_version : String) where
  unfoldable pub usage_record :
      String → String → String → F → String → SourceReference → UsageRecord F
  usage_record tenant_id dimension signal value unit source_reference = record {
    record_id = record_id_for tenant_id dimension signal w;
    tenant_id = tenant_id;
    dimension = dimension;
    signal = signal;
    value = value;
    unit = unit;
    window_start = window_start w;
    window_end = window_end w;
    source_reference = source_reference;
    collected_at = collected_at;
    collector_version = collector_version;
  }

  unfoldable pub ingest_record : IngestStat → UsageRecord F
  ingest_record s =
      usage_record s.tenant_id "ingest_gb_per_day" s.signal (gigabytes s.store_size_bytes) "gb"
        (aggregation (sort_by text_le s.indices) s.document_count s.content_digest)

  abbrev pub build_ingest_records : List IngestStat → List (UsageRecord F)
  build_ingest_records stats = map ingest_record (sort_by ingest_le stats)

  -- The three turns of the loop over the telemetry signals.
  unfoldable pub retention_records : List TenantRetention → List (UsageRecord F)
  retention_records [] = []
  retention_records (r ∷ rs) =
      usage_record r.tenant_id "retention_days" "logs" (of_nat r.logs_days) "days"
        (descriptor "quotas.retention.logs_days")
      ∷ usage_record r.tenant_id "retention_days" "metrics" (of_nat r.metrics_days) "days"
          (descriptor "quotas.retention.metrics_days")
      ∷ usage_record r.tenant_id "retention_days" "traces" (of_nat r.traces_days) "days"
          (descriptor "quotas.retention.traces_days")
      ∷ retention_records rs

  abbrev pub build_retention_records : List TenantRetention → List (UsageRecord F)
  build_retention_records retentions = retention_records (sort_by retention_le retentions)

  unfoldable pub activity_record : List IngestStat → List QueryVolumeStat → String → UsageRecord F
  activity_record stats queries t =
      let own = ingest_of t stats in
      let query = query_of t queries in
      let documents = documents_in own + query_count_of query in
      let cited = sorted_set (indices_in own ++ query_indices_of query) in
      usage_record t "active_tenants" "platform" (of_nat (if ltb 0 documents then 1 else 0)) "count"
        (aggregation
          (or_else cited (text_append "tenant-" (text_append t (text_append "-*-" w.index_suffix))))
          documents none)

  unfoldable pub query_record : List QueryVolumeStat → String → UsageRecord F
  query_record queries t =
      let query = query_of t queries in
      usage_record t "query_volume" "platform" (of_nat (query_count_of query)) "queries" (
        aggregation
          (or_else (sort_by text_le (query_indices_of query))
            (text_append "control-tenancy-audit-" w.index_suffix))
          (query_count_of query) none)

  abbrev pub build_activity_records :
      List IngestStat → List TenantRetention → List QueryVolumeStat → List (UsageRecord F)
  build_activity_records stats retentions queries =
      map (activity_record stats queries) (known_tenants stats retentions queries)

  abbrev pub build_query_volume_records : List QueryVolumeStat → List String → List (UsageRecord F)
  build_query_volume_records queries known =
      map (query_record queries) (sorted_set (known ++ map (λ q. q.tenant_id) queries))

  unfoldable pub build_usage_records :
      List IngestStat → List TenantRetention → List QueryVolumeStat → List (UsageRecord F)
  build_usage_records stats retentions queries = sort_by record_le (
      build_ingest_records stats
      ++ build_retention_records retentions
      ++ build_activity_records stats retentions queries
      ++ build_query_volume_records queries (known_tenants stats retentions queries))
