-- ===== src/AiRuntime/Gateway.antt =====
-- Gateway of services/ai/airuntime/gateway.py: the handling of a tool call after its checks, the denials and
-- the audit journal.
use observability_kit.Prelude.{ℕ, ◌*◌, String, not, List, [], ◌∷◌, ◌++◌, ◌=?◌, null, if◌then◌else◌}
use observability_kit.Prelude.Dict.{Dict}
use observability_kit.Prelude.Exec.{Result, ok, raised}
use observability_kit.Prelude.Raise.{◌>>=◌, ◌>>◌, or_raise}
use observability_kit.Json.{Json, str, obj, Items, nil, Fields, end, get_item, has_key}
use observability_kit.Tenant.Errors.{attribute_error, type_error}
use observability_kit.AiRuntime.Redaction.{redact}
use observability_kit.AiRuntime.Truncation.{truncate, truncations}
use observability_kit.AiRuntime.Policy.{validate_tool_response}
use Prim.Native.String.{◌++◌ as text_append}
use observability_kit.AiRuntime.ToolCall.{
  Reply, transport_failure, replied, Outside, Entry, bad_response, Stop, crashes, denies, stop_if,
  Vetted, item_or, vet, call_failed, bad_status,
}
pub mod Writes
pub mod Scopes
pub mod Vetting
pub mod Calls
pub mod Health
mod Tests

-- An audit event; its version, latency, time and cost are left out.
pub record Event : Type 0 where
  pub invoker_identity : Json
  pub tool_call : String
  pub parameters : Json
  pub policy_decision : String
  pub approval_decision : String
  pub final_action_outcome : String
  pub evidence_handles : Items
  pub target_resources : List String

-- `calls` has the requests that were sent to tool services, with their endpoints.
pub record Gateway : Type 0 where
  pub registry : Dict Entry
  pub journal : List Event
  pub calls : List (String × Json)

-- The response's data, and the numbers that its metadata gains.
pub record Served : Type 0 where
  pub payload : Fields
  pub structured_data : Json
  pub masked_fields : List String
  pub denied_domains : List String
  pub truncated_lists : ℕ
  pub event : Event

-- The event of _deny.
unfoldable pub denial_event : Fields → String → String → Event
denial_event body tool_id outcome = record {
  invoker_identity = item_or "caller_agent" (str "unknown") body;
  tool_call = tool_id;
  parameters = (redact (item_or "input" (obj end) body)).value;
  policy_decision = "deny";
  approval_decision = "not-required";
  final_action_outcome = outcome;
  evidence_handles = nil;
  target_resources = [];
}

abbrev pub logged : Event → Gateway → Gateway
logged e g = record g { journal = g.journal ++ e ∷ [] }

-- A denial is appended to the journal.
abbrev pub settle : Fields → Stop → Gateway → Gateway
settle body (denies status tool_id reason outcome) g = logged (denial_event body tool_id outcome) g
settle body _ g = g

abbrev pub conclude : Fields → Result Stop Served → Gateway → Result Stop Served × Gateway
conclude body (ok served) g = (ok served, logged served.event g)
conclude body (raised stop) g = (raised stop, settle body stop g)

abbrev pub sent : Vetted → Fields → Gateway → Gateway
sent v body g = record g { calls = g.calls ++ (v.endpoint, obj body) ∷ [] }

module _ (o : Outside) where
  -- `body.get("input", {}).get("object_name", "*")`
  abbrev object_name : Json → Result Stop String
  object_name (obj fs) =
      ok (if has_key "object_name" fs then o.show (get_item "object_name" fs) else "*")
  object_name _ = raised (crashes attribute_error)

  -- What follows a reply with status 200.
  unfoldable pub serve_payload : Fields → Vetted → Fields → Result Stop Served
  serve_payload body v payload =
      let flaws = validate_tool_response o.le_one payload in
      let redacted = redact (get_item "structured_data" payload) in
      stop_if (not (null flaws)) (denies 502 v.tool_id (bad_response flaws) "failed") >>= λ _.
      or_raise (o.to_list (get_item "evidence_handles" payload)) (crashes type_error) >>= λ handles.
      object_name (get_item "input" body) >>= λ object. ok (record {
        payload = payload;
        structured_data = truncate redacted.value;
        masked_fields = redacted.masked_fields;
        denied_domains = redacted.denied_domains;
        truncated_lists = truncations redacted.value;
        event = record {
          invoker_identity = get_item "caller_agent" body;
          tool_call = v.tool_id;
          parameters = (redact (get_item "input" body)).value;
          policy_decision = "allow";
          approval_decision = v.approval_decision;
          final_action_outcome = "executed";
          evidence_handles = handles;
          target_resources =
              text_append (o.show (get_item "namespace" v.scope)) (text_append "/" object) ∷ [];
        };
      })

  unfoldable pub answer : Fields → Vetted → Reply → Result Stop Served
  answer body v transport_failure = raised (denies 504 v.tool_id call_failed "failed")
  answer body v (replied status payload) =
      if status =? 200
      then serve_payload body v payload
      else raised (denies 502 v.tool_id bad_status "failed")

  abbrev pub run_vetted : Fields → Result Stop Vetted → Gateway → Result Stop Served × Gateway
  run_vetted body (raised stop) g = (raised stop, settle body stop g)
  run_vetted body (ok v) g =
      conclude body (answer body v (o.call v.endpoint (obj body) v.timeout_ms)) (sent v body g)

  unfoldable pub handle_invoke : Fields → Gateway → Result Stop Served × Gateway
  handle_invoke body g = run_vetted body (vet o g.registry body) g
