-- ===== src/Commercial/Job.antt =====
-- run_job of services/commercial/commercialsvc/metering.py, with the in-memory sink and the file sink of
-- sinks.py.
use observability_kit.Prelude.{
  ℕ, String, Bool, List, [], ◌∷◌, ◌++◌, Option, none, some, map, null, pos, if◌then◌else◌,
}
use observability_kit.Prelude.Dict.{Dict, lookup, put}
use observability_kit.Prelude.Exec.{Result, ok, raised}
use observability_kit.Json.{Json, int, str, arr, obj, Items, nil, cons, Fields, end, field}
use observability_kit.Text.{starts_with}
use observability_kit.Commercial.Models.{SourceReference, UsageRecord}
use observability_kit.Commercial.Metering.{
  DayWindow, IngestStat, TenantRetention, QueryVolumeStat, build_usage_records,
}
use observability_kit.Commercial.Validation.{Problem, validate_record}
use Prim.Native.String.{◌++◌ as text_append}
pub mod Gated
mod Tests

abbrev texts : List String → Items
texts [] = nil
texts (s ∷ ss) = cons (str s) (texts ss)

-- The optional fields are left out where they are unset.
abbrev with : String → Option Json → Fields → Fields
with k none fs = fs
with k (some v) fs = field k v fs

unfoldable pub reference_dict : SourceReference → Fields
reference_dict r = field "source_type" (str r.source_type) (
    with "indices" (elim r.indices [ none ↦ none | some ss ↦ some (arr (texts ss)) ])
      (with "document_count" (elim r.document_count [ none ↦ none | some k ↦ some (int (pos k)) ])
        (with "content_digest" (elim r.content_digest [ none ↦ none | some s ↦ some (str s) ])
          (with "descriptor_field" (elim r.descriptor_field [ none ↦ none | some s ↦ some (str s) ])
            end))))

pub data JobError : Type 0 where
  invalid : List (String × Problem) → JobError
  plane_separation : String → JobError

abbrev pub usage_index_for : DayWindow → String
usage_index_for w = text_append "control-tenancy-usage-v1-" w.index_suffix

unfoldable pub ensure_control_plane_index : String → Result JobError (Unit {0})
ensure_control_plane_index index =
    if starts_with "control-tenancy-" index then ok tt else raised (plane_separation index)

-- The documents of each index.
abbrev pub Written : Type 0
Written = Dict (List Fields)

-- InMemorySink, which keeps the documents of each index, and FileSink, which writes one file of
-- documents for each index.
pub data Sink : Type 0 where
  in_memory files : Sink

-- `written.setdefault(index, []).extend(...)`
unfoldable pub extend : String → List Fields → Written → Written
extend index documents written =
    put index (elim (lookup index written) [ none ↦ documents | some before ↦ before ++ documents ])
      written

-- What the sink has after a write; a file is written anew.
unfoldable pub keep : Sink → String → List Fields → Written → Written
keep in_memory index documents written = extend index documents written
keep files index documents written = put index documents written

module _ {F : Type 0} (of_value : F → Json) where
  unfoldable pub record_dict : UsageRecord F → Fields
  record_dict r = field "record_id" (str r.record_id) (
      field "tenant_id" (str r.tenant_id) (
        field "dimension" (str r.dimension) (
          field "signal" (str r.signal) (
            field "value" (of_value r.value) (
              field "unit" (str r.unit) (
                field "window_start" (str r.window_start) (
                  field "window_end" (str r.window_end) (
                    field "source_reference" (obj (reference_dict r.source_reference)) (
                      field "collected_at" (str r.collected_at)
                        (field "collector_version" (str r.collector_version) end))))))))))

  abbrev pub named : String → List Problem → List (String × Problem)
  named id problems = map (λ x. (id, x)) problems

  unfoldable pub record_problems : (String → Bool) → List (UsageRecord F) → List (String × Problem)
  record_problems is_one [] = []
  record_problems is_one (r ∷ rs) =
      named r.record_id (validate_record is_one (record_dict r)) ++ record_problems is_one rs

  unfoldable pub ensure_valid_records :
      (String → Bool) → List (UsageRecord F) → Result JobError (Unit {0})
  ensure_valid_records is_one records =
      let problems = record_problems is_one records in
      if null problems then ok tt else raised (invalid problems)

  unfoldable pub write :
      Sink → String → List (UsageRecord F) → Written → Result JobError (Unit {0}) × Written
  write sink index records written = elim (ensure_control_plane_index index) [
    | ok u ↦ (ok tt, keep sink index (map record_dict records) written)
    | raised e ↦ (raised e, written)
  ]

  abbrev pub after_write :
      List (UsageRecord F)
      → Result JobError (Unit {0}) × Written
      → Result JobError (List (UsageRecord F)) × Written
  after_write records (ok u, after) = (ok records, after)
  after_write records (raised e, after) = (raised e, after)

  -- The records are validated as a whole before the sink is written.
  abbrev pub gated :
      Sink
      → Result JobError (Unit {0})
      → String
      → List (UsageRecord F)
      → Written
      → Result JobError (List (UsageRecord F)) × Written
  gated sink (raised e) index records written = (raised e, written)
  gated sink (ok u) index records written = after_write records (write sink index records written)

  unfoldable pub run_job :
      Sink
      → (String → Bool)
      → (ℕ → F)
      → (ℕ → F)
      → DayWindow
      → String
      → String
      → List IngestStat
      → List TenantRetention
      → List QueryVolumeStat
      → Written
      → Result JobError (List (UsageRecord F)) × Written
  run_job sink is_one of_nat gigabytes w collected_at version stats retentions queries written =
      let records =
        build_usage_records of_nat gigabytes w collected_at version stats retentions queries in
      gated sink (ensure_valid_records is_one records) (usage_index_for w) records written
