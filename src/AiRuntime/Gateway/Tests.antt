-- ===== src/AiRuntime/Gateway/Tests.antt =====
-- The routing of a critical remediation, and of a request whose input is null.
use observability_kit.Prelude.{
  String, true, false, List, [], ◌∷◌, ◌++◌, Option, none, some, ◌≡◌, ◌⊎◌, refl, pos,
}
use observability_kit.Prelude.Dict.{lookup}
use observability_kit.Prelude.Exec.{ok, raised}
use observability_kit.Json.{Json, null, bool, int, str, arr, obj, Items, nil, Fields, end, field}
use observability_kit.Regex.{nullable, cat, join, deriv, matches, full_match}
use observability_kit.Regex.Patterns.{is_digit, between}
use observability_kit.Tenant.Errors.{attribute_error}
use observability_kit.AiRuntime.Redaction.{redact, walk, masked, denied, is_restricted, is_secret}
use observability_kit.AiRuntime.Truncation.{truncate, truncations}
use observability_kit.AiRuntime.Policy.{
  classify_tool, denied_risks, is_bound, check_agent_binding, approval_required, find_precondition,
  approval_blocks, blocks, check_action_preconditions, missing_flaws, validate_tool_response,
}
use observability_kit.AiRuntime.ToolCall.{
  Outside, spans, replied, crashes, lacking, dict_or_empty, is_bound_caller, is_version, check_span,
  check_context, check_write, check_tenant_scope, find_tool, check_caller, route, check_input,
  timeout_of, Vetted, vet,
}
use observability_kit.AiRuntime.Gateway.{
  Gateway, Served, serve_payload, answer, denial_event, sent, handle_invoke,
}
use observability_kit.AiRuntime.Gateway.Calls.{
  IsSent, handle_invoke-IsSent, recorded, handle_invoke-journal, IsAnswered,
  handle_invoke-IsAnswered, handle_invoke-unrecorded,
}
use observability_kit.AiRuntime.Gateway.Health.{
  Pings, is_up, beat, beat_all, beat_all_events, heartbeat_once, rounds, register, start_gateway,
}
use observability_kit.AiRuntime.Gateway.Health.Uptime.{
  failures, HasFailed, rounds-HasFailed, IsSentAlive, handle_invoke-failures,
}

program : Unit {0}
unfolding lookup nullable cat join deriv matches full_match is_digit between redact walk masked
    denied is_restricted is_secret truncate truncations classify_tool denied_risks is_bound
    check_agent_binding approval_required find_precondition approval_blocks blocks
    check_action_preconditions missing_flaws validate_tool_response lacking dict_or_empty
    is_bound_caller is_version check_span check_context check_write check_tenant_scope find_tool
    check_caller route check_input timeout_of vet serve_payload answer denial_event handle_invoke
    recorded is_up beat beat_all beat_all_events heartbeat_once rounds register failures
program = tt

abbrev shown : Json → String
shown (str s) = s
shown _ = "0"

abbrev listed : Json → Option Items
listed (arr xs) = some xs
listed _ = none

abbrev response : Fields
response = field "schema_version" (str "v1") (
    field "summary" (str "scaled") (
      field "structured_data" (obj (field "token" (str "t0p") (field "replicas" (int (pos 3)) end)))
        (field "evidence_handles" (arr nil) (
          field "confidence" (int (pos 1)) (
            field "time_window" (obj (field "start" (str "a") (field "end" (str "b") end))) (
              field "safety_class" (str "write.critical")
                (field "next_recommended_tools" (arr nil) end)))))))

abbrev outside : Outside
outside = record {
  show = shown;
  to_int = λ j. ok (pos 5000);
  to_list = listed;
  le_one = λ digits. true;
  span = λ from till. spans (pos 1);
  call = λ endpoint body timeout. replied 200 response;
}

abbrev context : Json
context = obj (
    field "policy_decision" (str "allow") (
      field "approval"
        (obj (field "state" (str "approved") (field "change_ticket" (str "CHG-1") end)))
        (field "rollback_plan_present" (bool true) (field "valid_target" (bool true) end))))

-- The request of an agent with an input.
abbrev request : Json → Fields
request input = field "edge_version" (str "v1") (
    field "caller_agent" (str "remediation-executor") (
      field "tool" (str "remediation-execute") (
        field "tool_version" (str "v1") (
          field "tenant_scope"
            (obj (
              field "namespace" (str "ns")
                (field "tenant" (str "t1") (field "team" (str "sre") end))))
            (field "input" input (field "approval_context" context end))))))

abbrev remediation : Fields
remediation = request (obj (field "object_name" (str "deploy/api") end))

abbrev at : String → String
at service = service

abbrev gateway : Gateway
gateway = start_gateway at

abbrev vetted : Vetted
vetted = record {
  tool_id = "remediation-execute.v1";
  risk = "write.critical";
  scope = field "namespace" (str "ns") (field "tenant" (str "t1") (field "team" (str "sre") end));
  approval_decision = "approved";
  endpoint = "runbook-execution-mcp";
  timeout_ms = pos 5000;
}

abbrev served : Served
served = record {
  payload = response;
  structured_data = obj (field "token" (str "***redacted***") (field "replicas" (int (pos 3)) end));
  masked_fields = "token" ∷ [];
  denied_domains = [];
  truncated_lists = 0;
  event = record {
    invoker_identity = str "remediation-executor";
    tool_call = "remediation-execute.v1";
    parameters = obj (field "object_name" (str "deploy/api") end);
    policy_decision = "allow";
    approval_decision = "approved";
    final_action_outcome = "executed";
    evidence_handles = nil;
    target_resources = "ns/deploy/api" ∷ [];
  };
}

executes : (handle_invoke outside remediation gateway).0 ≡ ok served
unfolding program
executes = refl

handle_invoke-IsSent_example :
    ((handle_invoke outside remediation gateway).1.calls ≡ [])
    ⊎ IsSent outside gateway remediation (handle_invoke outside remediation gateway).1
handle_invoke-IsSent_example = handle_invoke-IsSent outside remediation gateway

handle_invoke-journal_example :
    (handle_invoke outside remediation gateway).1.journal
    ≡ [] ++ recorded remediation (handle_invoke outside remediation gateway).0
handle_invoke-journal_example = handle_invoke-journal outside remediation gateway

handle_invoke-IsAnswered_example :
    IsAnswered outside gateway remediation served (handle_invoke outside remediation gateway).1
handle_invoke-IsAnswered_example =
    handle_invoke-IsAnswered outside remediation gateway served executes

handle_invoke-unrecorded_example :
    handle_invoke outside (request null) gateway
    ≡ (raised (crashes attribute_error), sent vetted (request null) gateway)
unfolding program
handle_invoke-unrecorded_example =
    handle_invoke-unrecorded outside (request null) gateway vetted response nil refl refl refl refl
      refl

abbrev silent : Pings
silent service = none

-- Three rounds without an answer.
abbrev outage : List Pings
outage = silent ∷ silent ∷ silent ∷ []

rounds-HasFailed_example : HasFailed 3 (record {
  gateway_endpoint = "graph-analysis-mcp";
  healthy = false;
  registered = false;
  missed_heartbeats = 3;
})
unfolding program
rounds-HasFailed_example = rounds-HasFailed at outage "graph-analysis-mcp" _ refl

handle_invoke-failures_example :
    ((handle_invoke outside remediation (rounds outage gateway)).1.calls
      ≡ (rounds outage gateway).calls)
    ⊎ IsSentAlive at outage remediation
        (handle_invoke outside remediation (rounds outage gateway)).1
handle_invoke-failures_example = handle_invoke-failures outside at outage remediation
