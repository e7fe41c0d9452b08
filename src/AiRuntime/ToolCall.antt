-- ===== src/AiRuntime/ToolCall.antt =====
-- The checks of a tool call in services/ai/airuntime/gateway.py: what Gateway._handle_invoke asks of a request
-- before it calls the tool service.
use observability_kit.Prelude.{
  ℕ, ◌*◌, String, Bool, false, ◌||◌, ◌&&◌, not, List, [], ◌∷◌, Option, none, some, ltb, leb, ℤ, pos,
  negsuc, null, if◌then◌else◌,
}
use observability_kit.Prelude.Dict.{Dict, lookup}
use observability_kit.Prelude.Exec.{Result, ok, raised}
use observability_kit.Prelude.Raise.{◌>>=◌, or_raise}
use observability_kit.Time.{minute}
use observability_kit.Regex.{chars, plus, char, ◌▹◌, full_match}
use observability_kit.Regex.Patterns.{is_digit}
use observability_kit.Json.{
  Json, null as null_json, bool, str, arr, obj, Items, Fields, end, field, get_item, has_key,
  is_text, is_truthy,
}
use observability_kit.Tenant.Errors.{Crash, attribute_error, type_error, key_error}
use observability_kit.AiRuntime.Policy.{
  classify_tool, check_agent_binding, find_precondition, Block, check_action_preconditions, Flaw,
}
use Prim.Native.String.{◌++◌ as text_append}

-- The difference of two ISO texts of the window, in microseconds, where `fromisoformat` reads both;
-- a pair with and without an offset, or a value that is no text, is a TypeError.
pub data Span : Type 0 where
  unparseable no_span : Span
  spans : ℤ → Span

-- What http_json returns or raises; the payload of a reply is taken to be an object.
pub data Reply : Type 0 where
  transport_failure : Reply
  replied : (status : ℕ) (payload : Fields) → Reply

-- Python's conversions and the network: `str(value)`, `int(value)`, `list(value)`, the comparison of
-- a positive float with 1, the window's span, and the tool service behind an endpoint.
pub record Outside : Type 0 where
  pub show : Json → String
  pub to_int : Json → Result Crash ℤ
  pub to_list : Json → Option Items
  pub le_one : String → Bool
  pub span : Json → Json → Span
  pub call : String → Json → ℤ → Reply

pub record Entry : Type 0 where
  pub gateway_endpoint : String
  pub healthy : Bool
  pub registered : Bool
  pub missed_heartbeats : ℕ

abbrev pub tool_to_service : Dict String
tool_to_service =
    ("incident-search", "incident-search-mcp")
    ∷ ("graph-analysis", "graph-analysis-mcp")
    ∷ ("trace-investigation", "trace-investigation-mcp")
    ∷ ("metrics-correlation", "metrics-correlation-mcp")
    ∷ ("change-intelligence", "change-intelligence-mcp")
    ∷ ("incident-casefile.read", "incident-casefile-mcp")
    ∷ ("incident-casefile.update", "incident-casefile-mcp")
    ∷ ("runbook-plan", "runbook-execution-mcp")
    ∷ ("remediation-execute", "runbook-execution-mcp")
    ∷ []

pub data Reason : Type 0 where
  missing_scopes : List String → Reason
  unknown_tool unclassified unbound bad_window wide_window no_approval_context unhealthy : Reason
  preconditions : List Block → Reason
  call_failed bad_status : Reason
  bad_response : List Flaw → Reason

-- How the handling of a request ends before it is executed: an exception; an answer that is not
-- audited; a denial with its status, reason and outcome, which is.
pub data Stop : Type 0 where
  crashes : Crash → Stop
  lacks_fields : List String → Stop
  bad_version : Stop
  denies : (status : ℕ) (tool_id : String) (reason : Reason) (outcome : String) → Stop

abbrev pub envelope_fields : List String
envelope_fields =
    "edge_version" ∷ "caller_agent" ∷ "tool" ∷ "tool_version" ∷ "tenant_scope" ∷ "input" ∷ []

abbrev pub required_scopes : List String
required_scopes = "namespace" ∷ "tenant" ∷ "team" ∷ []

-- `[k for k in ks if not p(k)]`
unfoldable pub lacking : (String → Bool) → List String → List String
lacking p [] = []
lacking p (k ∷ ks) = let rest = lacking p ks in if p k then rest else k ∷ rest

abbrev pub stop_if : Bool → Stop → Result Stop (Unit {0})
stop_if b s = if b then raised s else ok tt

-- `value or {}`, whose `.get` is read next
unfoldable pub dict_or_empty : Json → Result Stop Fields
dict_or_empty (obj fs) = ok fs
dict_or_empty j = if is_truthy j then raised (crashes attribute_error) else ok end

-- `table.get(value)`: a list or a dict has no hash.
abbrev pub hashed : Json → Result Stop Json
hashed (arr xs) = raised (crashes type_error)
hashed (obj fs) = raised (crashes type_error)
hashed j = ok j

abbrev pub service_of : Json → Option String
service_of (str tool) = lookup tool tool_to_service
service_of _ = none

-- check_agent_binding of a caller that may be no text
unfoldable pub is_bound_caller : Json → String → String → Bool
is_bound_caller (str agent) tool_id risk = check_agent_binding agent tool_id risk
is_bound_caller _ tool_id risk = false

-- ^v\d+$
unfoldable pub is_version : String → Bool
is_version s = full_match (char b'v' ▹ plus (chars is_digit)) s

-- What the checks have established of a request.
pub record Vetted : Type 0 where
  pub tool_id : String
  pub risk : String
  pub scope : Fields
  pub approval_decision : String
  pub endpoint : String
  pub timeout_ms : ℤ

-- `approval_context.get(key, default)`
abbrev pub item_or : String → Json → Fields → Json
item_or key default fs = if has_key key fs then get_item key fs else default

abbrev pub approval_decision_of : Json → String
approval_decision_of (obj fs) =
    if is_text "approved" (get_item "state" fs) then "approved" else "not-required"
approval_decision_of _ = "not-required"

abbrev pub context_of : Fields → Fields → Fields
context_of context approval = field "policy_decision" (get_item "policy_decision" context) (
    field "approval" (get_item "approval" context) (
      field "rollback_plan_present" (item_or "rollback_plan_present" (bool false) context) (
        field "change_ticket_present"
          (item_or "change_ticket_present" (bool (is_truthy (get_item "change_ticket" approval)))
            context)
          (field "valid_target" (item_or "valid_target" (bool false) context) end))))

-- The preconditions of a tool on the write path, and the approval decision of the audit event.
unfoldable pub check_context : String → Json → Result Stop String
check_context tool_id null_json = raised (denies 403 tool_id no_approval_context "blocked")
check_context tool_id (obj context) = dict_or_empty (get_item "approval" context) >>= λ approval.
    let blocked = check_action_preconditions tool_id (context_of context approval) in
    stop_if (not (null blocked)) (denies 403 tool_id (preconditions blocked) "blocked") >>= λ _.
    ok (approval_decision_of (get_item "approval" context))
check_context tool_id _ = raised (crashes attribute_error)

unfoldable pub check_write : String → Json → Result Stop String
check_write tool_id context = elim (find_precondition tool_id) [
  | none ↦ ok "not-required"
  | some p ↦ check_context tool_id context
]

unfoldable pub check_tenant_scope : Fields → String → Result Stop Fields
check_tenant_scope body tool_id = dict_or_empty (get_item "tenant_scope" body) >>= λ scope.
    let lacks = lacking (λ k. is_truthy (get_item k scope)) required_scopes in
    stop_if (not (null lacks)) (denies 403 tool_id (missing_scopes lacks) "blocked") >>= λ _.
    ok scope

pub record Tool : Type 0 where
  pub service : String
  pub risk : String

-- The service and the risk class of the tool.
unfoldable pub find_tool : Json → String → Result Stop Tool
find_tool tool tool_id = hashed tool >>= λ _.
    or_raise (service_of tool) (denies 403 tool_id unknown_tool "blocked") >>= λ service.
    or_raise (classify_tool tool_id) (denies 403 tool_id unclassified "blocked") >>= λ risk.
    ok (record { service = service; risk = risk })

unfoldable pub check_caller : Json → String → String → Result Stop (Unit {0})
check_caller caller tool_id risk = hashed caller >>= λ _.
    stop_if (not (is_bound_caller caller tool_id risk)) (denies 403 tool_id unbound "blocked")

unfoldable pub route : Dict Entry → String → String → Result Stop Entry
route registry service tool_id = or_raise (lookup service registry) (crashes key_error) >>= λ e.
    stop_if (not e.healthy || not e.registered) (denies 503 tool_id unhealthy "failed") >>= λ _.
    ok e

-- `min(int(body.get("timeout_ms", 5000)), 30000)`
abbrev at_most : ℕ → ℤ → ℤ
at_most m (pos n) = if leb n m then pos n else pos m
at_most m (negsuc n) = negsuc n

abbrev converted : Result Crash ℤ → Result Stop ℤ
converted (ok n) = ok (at_most 30000 n)
converted (raised e) = raised (crashes e)

module _ (o : Outside) where
  -- The query bound of the redaction rules on the request's window.
  unfoldable pub check_span : String → Json → Json → Result Stop (Unit {0})
  check_span tool_id from till =
      if is_truthy from && is_truthy till
      then elim (o.span from till) [
        | unparseable ↦ raised (denies 400 tool_id bad_window "blocked")
        | no_span ↦ raised (crashes type_error)
        | spans n ↦ elim n [
          | pos k ↦ stop_if (ltb (24 * 60 * minute) k) (denies 403 tool_id wide_window "blocked")
          | negsuc k ↦ ok tt
        ]
      ]
      else ok tt

  unfoldable pub timeout_of : Fields → Result Stop ℤ
  timeout_of body =
      if has_key "timeout_ms" body
      then converted (o.to_int (get_item "timeout_ms" body))
      else ok (pos 5000)

  -- f"{tool}.{tool_version}"
  abbrev pub tool_id_of : Fields → String
  tool_id_of body =
      text_append (o.show (get_item "tool" body))
        (text_append "." (o.show (get_item "tool_version" body)))

  -- The query bound on `(body.get("input") or {}).get("window") or {}`.
  unfoldable pub check_input : Fields → String → Result Stop (Unit {0})
  check_input body tool_id = dict_or_empty (get_item "input" body) >>= λ input.
      dict_or_empty (get_item "window" input) >>= λ window.
      check_span tool_id (get_item "start" window) (get_item "end" window)

  -- The checks of _handle_invoke, in order, up to the call of the tool service.
  unfoldable pub vet : Dict Entry → Fields → Result Stop Vetted
  vet registry body =
      let missing = lacking (λ k. has_key k body) envelope_fields in
      let tool_id = tool_id_of body in
      stop_if (not (null missing)) (lacks_fields missing) >>= λ _.
      stop_if (not (is_version (o.show (get_item "tool_version" body)))) bad_version >>= λ _.
      check_tenant_scope body tool_id >>= λ scope.
      find_tool (get_item "tool" body) tool_id >>= λ tool.
      check_caller (get_item "caller_agent" body) tool_id tool.risk >>= λ _.
      check_input body tool_id >>= λ _.
      check_write tool_id (get_item "approval_context" body) >>= λ decision.
      route registry tool.service tool_id >>= λ entry. timeout_of body >>= λ timeout. ok (record {
        tool_id = tool_id;
        risk = tool.risk;
        scope = scope;
        approval_decision = decision;
        endpoint = entry.gateway_endpoint;
        timeout_ms = timeout;
      })
