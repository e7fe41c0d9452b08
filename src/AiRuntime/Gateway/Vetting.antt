-- ===== src/AiRuntime/Gateway/Vetting.antt =====
-- What the checks of a request establish: the agent is bound to the tool, its write is cleared, and the
-- tool service is healthy.
use observability_kit.Prelude.{
  elem, none, Option, ℤ, String, Bool, true, false, ◌||◌, not, some, ◌≡◌, refl, ap, sym, subst, ◌∙◌,
  null, arith,
}
use observability_kit.Prelude.Dict.{Dict, lookup}
use observability_kit.Prelude.Exec.{ok}
use observability_kit.Prelude.Raise.{or_raise, bind-ok, or_raise-ok, ok-inj}
use observability_kit.Json.{Json, str, obj, Fields, get_item, has_key}
use Prim.Native.String.{◌++◌ as text_append}
use observability_kit.AiRuntime.Policy.{
  Binding, agent_tool_bindings, is_bound, classify_tool, check_agent_binding, approval_required,
}
use observability_kit.AiRuntime.Policy.Laws.{IsActor, check_agent_binding-IsActor}
use observability_kit.AiRuntime.ToolCall.{
  Outside, Entry, lacks_fields, bad_version, denies, unhealthy, unbound, is_version,
  envelope_fields, stop_if, hashed, service_of, lacking, is_bound_caller, check_write,
  check_tenant_scope, Tool, find_tool, check_caller, route, check_input, timeout_of, tool_id_of,
  Vetted, vet,
}
use observability_kit.AiRuntime.Gateway.Writes.{stop_if-ok, IsReady, check_write-IsReady}
use observability_kit.AiRuntime.Gateway.Scopes.{IsWhole, check_tenant_scope-ok}

-- The caller is an agent that is bound to the tool, by its name.
abbrev pub IsBoundCaller : Json → String → String → Type 0
IsBoundCaller caller tool_id risk =
    (agent : String) × (caller ≡ str agent) × (check_agent_binding agent tool_id risk ≡ true)

is_bound_caller-true :
    (j : Json) (tool_id risk : String)
    → is_bound_caller j tool_id risk ≡ true
    → IsBoundCaller j tool_id risk
unfolding is_bound_caller
is_bound_caller-true (str agent) tool_id risk h = (agent, refl, h)
is_bound_caller-true _ tool_id risk h = ground arith

is_bound-listed :
    (binding : Option Binding) (tool_id risk : String)
    → is_bound binding tool_id risk ≡ true
    → (b : Binding) × (binding ≡ some b) × (elem tool_id b.tools ≡ true)
unfolding is_bound
is_bound-listed none tool_id risk h = cc
is_bound-listed (some b) tool_id risk h = (b, refl, ground arith)

-- The table of the bindings lists the tool with the caller.
IsBoundCaller-listed :
    (j : Json) (tool_id risk : String)
    → IsBoundCaller j tool_id risk
    → (agent : String) × (b : Binding) × (j ≡ str agent)
      × (lookup agent agent_tool_bindings ≡ some b)
      × (elem tool_id b.tools ≡ true)
unfolding check_agent_binding
IsBoundCaller-listed j tool_id risk (agent, named, is_allowed) =
    let (b, found, listed) =
      is_bound-listed (lookup agent agent_tool_bindings) tool_id risk is_allowed in
    (agent, b, named, found, listed)

abbrev pub IsHealthy : Dict Entry → Json → String → Type 0
IsHealthy registry tool endpoint =
    (service : String) × (entry : Entry) × (service_of tool ≡ some service)
    × (lookup service registry ≡ some entry)
    × (entry.gateway_endpoint ≡ endpoint)
    × (entry.healthy ≡ true)
    × (entry.registered ≡ true)

-- What is known of a request that passed the checks: its tool id is made of its tool and version, its
-- tenant scope is whole, its tool is classified and its caller bound to it, its tool service is
-- registered and healthy; for a risk class that needs a human approval, the caller is one of the two
-- action specialists and the context of the write has all that the class asks for.
pub record IsVetted (o : Outside) (registry : Dict Entry) (body : Fields) (v : Vetted)
    : Type 0 where
  pub tool_id :
      v.tool_id
      ≡ text_append
          (o.show (get_item "tool" body))
          (text_append "." (o.show (get_item "tool_version" body)))
  pub scope_given : get_item "tenant_scope" body ≡ obj v.scope
  pub scoped : IsWhole v.scope
  pub classified : classify_tool v.tool_id ≡ some v.risk
  pub bound :
      (agent : String) × (b : Binding) × (get_item "caller_agent" body ≡ str agent)
      × (lookup agent agent_tool_bindings ≡ some b)
      × (elem v.tool_id b.tools ≡ true)
  pub served : IsHealthy registry (get_item "tool" body) v.endpoint
  pub actor :
      approval_required v.risk ≡ true
      → (agent : String) × (get_item "caller_agent" body ≡ str agent) × IsActor agent
  pub cleared : approval_required v.risk ≡ true → IsReady v.risk body

bound-IsActor :
    (j : Json) (tool_id risk : String)
    → IsBoundCaller j tool_id risk
    → approval_required risk ≡ true
    → (agent : String) × (j ≡ str agent) × IsActor agent
bound-IsActor j tool_id risk (agent, named, is_bound) gated =
    (agent, named, check_agent_binding-IsActor agent tool_id risk gated is_bound)

not-eq-false : (b : Bool) → not b ≡ false → b ≡ true
not-eq-false b h = ground arith

neither : (b c : Bool) → (not b || not c) ≡ false → (b ≡ true) × (c ≡ true)
neither b c h = (ground arith, ground arith)

find_tool-ok :
    (tool : Json) (tool_id : String) (t : Tool)
    → find_tool tool tool_id ≡ ok t
    → (service_of tool ≡ some t.service) × (classify_tool tool_id ≡ some t.risk)
unfolding find_tool
find_tool-ok tool tool_id t h =
    let (_, _, h) = bind-ok (hashed tool) _ t h in
    let (service, service_is, h) = bind-ok (or_raise (service_of tool) _) _ t h in
    let (risk, risk_is, same) = bind-ok (or_raise (classify_tool tool_id) _) _ t h in
    (
      or_raise-ok (service_of tool) _ service service_is ∙ ap (λ x. some x.service) (ok-inj same),
      or_raise-ok (classify_tool tool_id) _ risk risk_is ∙ ap (λ x. some x.risk) (ok-inj same),
    )

check_caller-ok :
    (caller : Json) (tool_id risk : String) (u : Unit {0})
    → check_caller caller tool_id risk ≡ ok u
    → IsBoundCaller caller tool_id risk
unfolding check_caller
check_caller-ok caller tool_id risk u h =
    let (_, _, h) = bind-ok (hashed caller) _ u h in
    let is_bound = is_bound_caller caller tool_id risk in
    is_bound_caller-true caller tool_id risk
      (not-eq-false is_bound (stop_if-ok (not is_bound) (denies 403 tool_id unbound "blocked") u h))

route-ok :
    (registry : Dict Entry) (service tool_id : String) (e : Entry)
    → route registry service tool_id ≡ ok e
    → (lookup service registry ≡ some e) × (e.healthy ≡ true) × (e.registered ≡ true)
unfolding route
route-ok registry service tool_id e h =
    let (entry, found, h) = bind-ok (or_raise (lookup service registry) _) _ e h in
    let is_down = not entry.healthy || not entry.registered in
    let refusal = denies 503 tool_id unhealthy "failed" in
    let (u, usable, same) = bind-ok (stop_if is_down refusal) _ e h in
    let up = neither entry.healthy entry.registered (stop_if-ok is_down refusal u usable) in
    (
      or_raise-ok (lookup service registry) _ entry found ∙ ap some (ok-inj same),
      sym (ap (λ x. x.healthy) (ok-inj same)) ∙ up.0,
      sym (ap (λ x. x.registered) (ok-inj same)) ∙ up.1,
    )

vetted :
    (o : Outside) (registry : Dict Entry) (body scope : Fields) (tool : Tool) (e : Entry)
    (decision : String) (timeout : ℤ)
    → (get_item "tenant_scope" body ≡ obj scope) × IsWhole scope
    → (service_of (get_item "tool" body) ≡ some tool.service)
      × (classify_tool (tool_id_of o body) ≡ some tool.risk)
    → IsBoundCaller (get_item "caller_agent" body) (tool_id_of o body) tool.risk
    → check_write (tool_id_of o body) (get_item "approval_context" body) ≡ ok decision
    → (lookup tool.service registry ≡ some e) × (e.healthy ≡ true) × (e.registered ≡ true)
    → IsVetted o registry body (record {
      tool_id = tool_id_of o body;
      risk = tool.risk;
      scope = scope;
      approval_decision = decision;
      endpoint = e.gateway_endpoint;
      timeout_ms = timeout;
    })
vetted o registry body scope tool e decision timeout whole known is_bound written routed = record {
  tool_id = refl;
  scope_given = whole.0;
  scoped = whole.1;
  classified = known.1;
  bound =
      IsBoundCaller-listed (get_item "caller_agent" body) (tool_id_of o body) tool.risk is_bound;
  served = (tool.service, e, known.0, routed.0, refl, routed.1, routed.2);
  actor = bound-IsActor (get_item "caller_agent" body) (tool_id_of o body) tool.risk is_bound;
  cleared = check_write-IsReady (tool_id_of o body) tool.risk body decision known.1 written;
}

module _ (o : Outside) where
  -- Every request that passes the checks is vetted.
  pub vet-IsVetted :
      (registry : Dict Entry) (body : Fields) (v : Vetted)
      → vet o registry body ≡ ok v
      → IsVetted o registry body v
  unfolding vet
  vet-IsVetted registry body v h =
      let tool_id = tool_id_of o body in
      let missing = lacking (λ k. has_key k body) envelope_fields in
      let (_, _, h) = bind-ok (stop_if (not (null missing)) (lacks_fields missing)) _ v h in
      let (_, _, h) =
        bind-ok (stop_if (not (is_version (o.show (get_item "tool_version" body)))) bad_version) _ v
          h in
      let (scope, scope_is, h) = bind-ok (check_tenant_scope body tool_id) _ v h in
      let (tool, tool_is, h) = bind-ok (find_tool (get_item "tool" body) tool_id) _ v h in
      let (u, bound_is, h) =
        bind-ok (check_caller (get_item "caller_agent" body) tool_id tool.risk) _ v h in
      let (_, _, h) = bind-ok (check_input o body tool_id) _ v h in
      let (decision, decision_is, h) =
        bind-ok (check_write tool_id (get_item "approval_context" body)) _ v h in
      let (entry, entry_is, h) = bind-ok (route registry tool.service tool_id) _ v h in
      let (timeout, _, same) = bind-ok (timeout_of o body) _ v h in
      subst (IsVetted o registry body) (ok-inj same) (
        vetted o registry body scope tool entry decision timeout
          (check_tenant_scope-ok body tool_id scope scope_is)
          (find_tool-ok (get_item "tool" body) tool_id tool tool_is)
          (check_caller-ok (get_item "caller_agent" body) tool_id tool.risk u bound_is) decision_is
          (route-ok registry tool.service tool_id entry entry_is))
