-- ===== src/Commercial/Metering/Bound.antt =====
-- The shape of the usage records.
use observability_kit.Prelude.{ℕ, String, true, List, [], ◌∷◌, some, map, ◌≡◌, refl, elem}
use observability_kit.Prelude.Dict.{lookup}
use observability_kit.Prelude.Sort.{sort_by, All, All-append, All-sort_by}
use observability_kit.Commercial.Models.{
  UsageRecord, DimensionBinding, dimension_bindings, telemetry_signals,
}
use Prim.Native.String.{◌++◌ as text_append}
use observability_kit.Commercial.Metering.{
  DayWindow, IngestStat, TenantRetention, QueryVolumeStat, record_id_for, ingest_le, retention_le,
  usage_record, ingest_record, retention_records, activity_record, query_record, record_le,
  build_usage_records,
}

-- The record's signal and unit are those of its dimension, its window is the day, and its id is
-- its own tenant, dimension and signal and the day, with colons between.
pub record IsBound {F : Type 0} (w : DayWindow) (r : UsageRecord F) : Type 0 where
  pub binding :
      (b : DimensionBinding) × (lookup r.dimension dimension_bindings ≡ some b)
      × (elem r.signal b.signals ≡ true)
      × (r.unit ≡ b.unit)
  pub id :
      r.record_id
      ≡ text_append r.tenant_id (
          text_append ":" (
            text_append r.dimension
              (text_append ":" (text_append r.signal (text_append ":" w.day)))))
  pub starts : r.window_start ≡ text_append w.day "T00:00:00Z"
  pub ends : r.window_end ≡ text_append w.next_day "T00:00:00Z"

abbrev pub HasSignal : IngestStat → Type 0
HasSignal s = elem s.signal telemetry_signals ≡ true

module _ {F : Type 0} (of_nat gigabytes : ℕ → F) (w : DayWindow)
    (collected_at collector_version : String) where
  ingest_record-IsBound :
      (s : IngestStat)
      → HasSignal s
      → IsBound w (ingest_record of_nat gigabytes w collected_at collector_version s)
  unfolding lookup ingest_record usage_record record_id_for
  ingest_record-IsBound s h = record {
    binding = (_, refl, h, refl);
    id = refl;
    starts = refl;
    ends = refl;
  }

  ingest_records-IsBound :
      (ss : List IngestStat)
      → All HasSignal ss
      → All (IsBound w) (map (ingest_record of_nat gigabytes w collected_at collector_version) ss)
  ingest_records-IsBound [] h = tt
  ingest_records-IsBound (s ∷ ss) h = (ingest_record-IsBound s h.0, ingest_records-IsBound ss h.1)

  retention_records-IsBound :
      (rs : List TenantRetention)
      → All (IsBound w) (retention_records of_nat gigabytes w collected_at collector_version rs)
  unfolding lookup retention_records usage_record record_id_for
  retention_records-IsBound [] = tt
  retention_records-IsBound (r ∷ rs) = (
    record { binding = (_, refl, refl, refl); id = refl; starts = refl; ends = refl },
    (
      record { binding = (_, refl, refl, refl); id = refl; starts = refl; ends = refl },
      (
        record { binding = (_, refl, refl, refl); id = refl; starts = refl; ends = refl },
        retention_records-IsBound rs,
      ),
    ),
  )

  activity_records-IsBound :
      (stats : List IngestStat) (queries : List QueryVolumeStat) (ts : List String)
      → All
          (IsBound w)
          (map (activity_record of_nat gigabytes w collected_at collector_version stats queries) ts)
  unfolding lookup activity_record usage_record record_id_for
  activity_records-IsBound stats queries [] = tt
  activity_records-IsBound stats queries (t ∷ ts) = (
    record { binding = (_, refl, refl, refl); id = refl; starts = refl; ends = refl },
    activity_records-IsBound stats queries ts,
  )

  query_records-IsBound :
      (queries : List QueryVolumeStat) (ts : List String)
      → All
          (IsBound w)
          (map (query_record of_nat gigabytes w collected_at collector_version queries) ts)
  unfolding lookup query_record usage_record record_id_for
  query_records-IsBound queries [] = tt
  query_records-IsBound queries (t ∷ ts) = (
    record { binding = (_, refl, refl, refl); id = refl; starts = refl; ends = refl },
    query_records-IsBound queries ts,
  )

  -- If the ingest statistics are of logs, metrics and traces, every usage record of a day has a
  -- dimension of the metering contract with one of its signals and its unit, a window from the
  -- midnight of the day to that of the next, and the id tenant:dimension:signal:day of its own tenant,
  -- dimension and signal.
  pub build_usage_records-IsBound :
      (stats : List IngestStat) (retentions : List TenantRetention) (queries : List QueryVolumeStat)
      → All HasSignal stats
      → All (IsBound w) (
          build_usage_records of_nat gigabytes w collected_at collector_version stats retentions
            queries)
  unfolding build_usage_records
  build_usage_records-IsBound stats retentions queries h = All-sort_by (IsBound w) record_le _ (
      All-append (IsBound w) _ _
        (All-append (IsBound w) _ _
          (All-append (IsBound w) _ _
            (ingest_records-IsBound _ (All-sort_by HasSignal ingest_le stats h))
            (retention_records-IsBound (sort_by retention_le retentions)))
          (activity_records-IsBound stats queries _))
        (query_records-IsBound queries _))
