-- ===== src/AiRuntime/Hooks/Tests.antt =====
-- Two events of one pod, four minutes apart.
use observability_kit.Prelude.{◌*◌, String, false, [], ◌∷◌, none, some, ◌≡◌, refl, arith}
use observability_kit.Prelude.Dict.{lookup, put}
use observability_kit.Prelude.Sort.{All}
use observability_kit.Time.{second}
use observability_kit.AiRuntime.Hooks.{
  RawEvent, Processor, find_hook, joined, recent, burst, single, throttle, dedupe_key, enrich,
  process,
}
use observability_kit.AiRuntime.Hooks.Quiet.{dispatches}
use observability_kit.AiRuntime.Hooks.Runs.{results, process-results}

program : Unit {0}
unfolding lookup put find_hook joined recent burst single throttle dedupe_key enrich process results
program = tt

abbrev killed : String → RawEvent
killed uid = record {
  uid = some uid;
  kind = some "Pod";
  name = some "api-0";
  reason = some "OOMKilled";
  message = "";
  last_timestamp = some "2026-07-09T00:00:00Z";
  event_time = none;
  creation_timestamp = none;
  object_namespace = some "shop";
  metadata_namespace = none;
}

abbrev fresh : Processor
fresh = record { seen_uids = []; last_dispatch_ts = []; window = []; burst_emitted_ts = [] }

abbrev short : String → String
short s = "d1"

process-results_example :
    All
      (λ r. dispatches "d1|OOMKilled|Pod|api-0" r ≡ false)
      (results short "east"
        ((killed "u2", 240 * second) ∷ [])
        (process short "east" (killed "u1") 0 fresh).1)
unfolding program
process-results_example =
    process-results short "east" "d1|OOMKilled|Pod|api-0" 0 (killed "u1") fresh
      ((killed "u2", 240 * second) ∷ []) refl ((omega arith, omega arith), tt)
