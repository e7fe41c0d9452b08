-- ===== src/AiRuntime/Gateway/Health.antt =====
-- The heartbeats of services/ai/airuntime/gateway.py, and the registry at startup.
use observability_kit.Prelude.{
  ℕ, suc, String, Bool, true, false, ◌&&◌, not, List, [], ◌∷◌, ◌++◌, Option, none, some, ◌=?◌, leb,
  if◌then◌else◌,
}
use observability_kit.Prelude.Dict.{Dict}
use observability_kit.Json.{str, obj, nil, end}
use observability_kit.AiRuntime.ToolCall.{Entry}
use observability_kit.AiRuntime.Gateway.{Event, Gateway}
use Prim.Native.String.{◌++◌ as text_append}
pub mod Uptime

abbrev pub mcp_catalog : List String
mcp_catalog =
    "incident-search-mcp" ∷ "graph-analysis-mcp" ∷ "trace-investigation-mcp"
    ∷ "metrics-correlation-mcp" ∷ "change-intelligence-mcp" ∷ "runbook-execution-mcp"
    ∷ "incident-casefile-mcp" ∷ []

-- `endpoint` fills the toolhost template in.
unfoldable pub register : (String → String) → List String → Dict Entry
register endpoint [] = []
register endpoint (service ∷ services) =
    (
      service,
      record {
        gateway_endpoint = endpoint service;
        healthy = true;
        registered = true;
        missed_heartbeats = 0;
      },
    )
    ∷ register endpoint services

abbrev pub start_gateway : (String → String) → Gateway
start_gateway endpoint = record {
  registry = register endpoint mcp_catalog;
  journal = [];
  calls = [];
}

-- The status that a service's health endpoint answers with; none where the request raises.
abbrev pub Pings : Type 0
Pings = String → Option ℕ

unfoldable pub is_up : Option ℕ → Bool
is_up none = false
is_up (some status) = status =? 200

abbrev pub unhealthy_threshold : ℕ
unhealthy_threshold = 3

-- The service has now missed enough heartbeats.
abbrev pub fails : Entry → Bool
fails e = leb unhealthy_threshold (suc e.missed_heartbeats) && e.healthy

unfoldable pub beat : Bool → Entry → Entry
beat true e = record e { missed_heartbeats = 0; healthy = true; registered = true }
beat false e = record e {
  missed_heartbeats = suc e.missed_heartbeats;
  healthy = if fails e then false else e.healthy;
  registered = if fails e then false else e.registered;
}

unfoldable pub heartbeat_event : String → String → Event
heartbeat_event service outcome = record {
  invoker_identity = str "gateway-heartbeat";
  tool_call = text_append "heartbeat:" service;
  parameters = obj end;
  policy_decision = "allow";
  approval_decision = "not-required";
  final_action_outcome = outcome;
  evidence_handles = nil;
  target_resources = service ∷ [];
}

unfoldable pub beat_events : Bool → String → Entry → List Event
beat_events true service e =
    if not e.registered then heartbeat_event service "executed" ∷ [] else []
beat_events false service e = if fails e then heartbeat_event service "failed" ∷ [] else []

unfoldable pub beat_all : Pings → Dict Entry → Dict Entry
beat_all p [] = []
beat_all p ((service, e) ∷ m) = (service, beat (is_up (p service)) e) ∷ beat_all p m

unfoldable pub beat_all_events : Pings → Dict Entry → List Event
beat_all_events p [] = []
beat_all_events p ((service, e) ∷ m) =
    beat_events (is_up (p service)) service e ++ beat_all_events p m

unfoldable pub heartbeat_once : Pings → Gateway → Gateway
heartbeat_once p g = record g {
  registry = beat_all p g.registry;
  journal = g.journal ++ beat_all_events p g.registry;
}

-- The rounds of the heartbeat loop, the latest first.
unfoldable pub rounds : List Pings → Gateway → Gateway
rounds [] g = g
rounds (p ∷ ps) g = heartbeat_once p (rounds ps g)
