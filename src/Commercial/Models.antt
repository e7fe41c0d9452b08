-- ===== src/Commercial/Models.antt =====
-- The records of services/commercial/commercialsvc/models.py, over the numbers that they measure.
use observability_kit.Prelude.{ℕ, String, Bool, List, [], ◌∷◌, Option}
use observability_kit.Prelude.Dict.{Dict}
use observability_kit.Prelude.Exec.{Result}
use observability_kit.Json.{Json}

-- What Python's conversion `float(value)` raises: the TypeError or ValueError of a value that is no
-- number, and the OverflowError of an integer that no float can hold.
pub data FloatError : Type 0 where
  no_number overflow : FloatError

-- Python's numbers `F`, an integer standing as its float: `excess x bound` is `max(0.0, x - bound)`, `round_units` is `round(x, 6) + 0.0`,
-- and `started_blocks` is `math.ceil(x / 1000)`, which none of the infinities has.
pub record Numbers (F : Type 0) : Type 0 where
  pub zero : F
  pub add : F → F → F
  pub multiply : F → F → F
  pub excess : F → F → F
  pub round_units : F → F
  pub started_blocks : F → Option F
  pub equal : F → F → Bool
  pub of_float : F → Json
  pub to_float : Json → Result FloatError F

pub record SourceReference : Type 0 where
  pub source_type : String
  pub indices : Option (List String)
  pub document_count : Option ℕ
  pub content_digest : Option String
  pub descriptor_field : Option String

pub record UsageRecord (F : Type 0) : Type 0 where
  pub record_id : String
  pub tenant_id : String
  pub dimension : String
  pub signal : String
  pub value : F
  pub unit : String
  pub window_start : String
  pub window_end : String
  pub source_reference : SourceReference
  pub collected_at : String
  pub collector_version : String

abbrev pub telemetry_signals : List String
telemetry_signals = "logs" ∷ "metrics" ∷ "traces" ∷ []

-- The signals and the unit of a dimension; its set of values is left out.
pub record DimensionBinding : Type 0 where
  pub signals : List String
  pub unit : String

abbrev pub dimension_bindings : Dict DimensionBinding
dimension_bindings =
    ("ingest_gb_per_day", record { signals = telemetry_signals; unit = "gb" })
    ∷ ("retention_days", record { signals = telemetry_signals; unit = "days" })
    ∷ ("active_tenants", record { signals = "platform" ∷ []; unit = "count" })
    ∷ ("query_volume", record { signals = "platform" ∷ []; unit = "queries" })
    ∷ []
