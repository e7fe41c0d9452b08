-- ===== src/AiRuntime/Gateway/Calls.antt =====
-- What a request does to the tool services and to the audit journal, and what a caller is served.
use observability_kit.Prelude.{
  String, Bool, true, false, not, List, [], ◌∷◌, ◌++◌, some, ◌=?◌, ◌==◌, ◌≡◌, ◌⊎◌, inl, inr, refl,
  ap, subst, null, =?_iff, if◌then◌else◌,
}
use observability_kit.Prelude.Exec.{Result, ok, raised}
use observability_kit.Prelude.Raise.{or_raise, bind-ok, ok-inj}
use observability_kit.Json.{Json, null as null_json, obj, Items, Fields, end, field, get_item}
use observability_kit.Tenant.Errors.{attribute_error, type_error}
use observability_kit.AiRuntime.Redaction.{redact}
use observability_kit.AiRuntime.Redaction.Domain.{IsDict, HasDicts}
use observability_kit.AiRuntime.Redaction.Clean.{IsClean, redact-IsClean}
use observability_kit.AiRuntime.Truncation.{truncate}
use observability_kit.AiRuntime.Truncation.Laws.{IsBounded, truncate-IsBounded, truncate-IsClean}
use observability_kit.AiRuntime.Policy.{validate_tool_response}
use observability_kit.AiRuntime.Policy.Response.{IsResponse, validate_tool_response-IsResponse}
use observability_kit.AiRuntime.ToolCall.{
  Outside, Reply, transport_failure, replied, Stop, crashes, lacks_fields, bad_version, denies,
  bad_response, bad_status, stop_if, Vetted, vet,
}
use observability_kit.AiRuntime.Gateway.{
  Gateway, Event, object_name, Served, serve_payload, answer, denial_event, settle, conclude, sent,
  run_vetted, handle_invoke,
}
use observability_kit.AiRuntime.Gateway.Vetting.{IsVetted, vet-IsVetted}

-- One request is sent, to the endpoint that the checks have established.
abbrev pub IsSent : Outside → Gateway → Fields → Gateway → Type 0
IsSent o g body g' =
    (v : Vetted) × IsVetted o g.registry body v
    × (g'.calls ≡ g.calls ++ (v.endpoint, obj body) ∷ [])

-- The event that the journal gains: of the executed call, of the denial, or none.
unfoldable pub recorded : Fields → Result Stop Served → List Event
recorded body (ok served) = served.event ∷ []
recorded body (raised (denies status tool_id reason outcome)) =
    denial_event body tool_id outcome ∷ []
recorded body (raised (crashes e)) = []
recorded body (raised (lacks_fields ks)) = []
recorded body (raised bad_version) = []

nothing_more : {A : Type 0} (xs : List A) → xs ≡ xs ++ []
nothing_more [] = refl
nothing_more (x ∷ xs) = ap (λ ys. x ∷ ys) (nothing_more xs)

settle-journal :
    (body : Fields) (s : Stop) (g : Gateway)
    → (settle body s g).journal ≡ g.journal ++ recorded body (raised s)
unfolding recorded
settle-journal body (denies status tool_id reason outcome) g = refl
settle-journal body (crashes e) g = nothing_more g.journal
settle-journal body (lacks_fields ks) g = nothing_more g.journal
settle-journal body bad_version g = nothing_more g.journal

settle-calls : (body : Fields) (s : Stop) (g : Gateway) → (settle body s g).calls ≡ g.calls
settle-calls body (denies status tool_id reason outcome) g = refl
settle-calls body (crashes e) g = refl
settle-calls body (lacks_fields ks) g = refl
settle-calls body bad_version g = refl

conclude-journal :
    (body : Fields) (r : Result Stop Served) (g : Gateway)
    → (conclude body r g).1.journal ≡ g.journal ++ recorded body (conclude body r g).0
unfolding recorded
conclude-journal body (ok served) g = refl
conclude-journal body (raised s) g = settle-journal body s g

conclude-calls :
    (body : Fields) (r : Result Stop Served) (g : Gateway) → (conclude body r g).1.calls ≡ g.calls
conclude-calls body (ok served) g = refl
conclude-calls body (raised s) g = settle-calls body s g

conclude-ok :
    (body : Fields) (r : Result Stop Served) (g : Gateway) (served : Served)
    → (conclude body r g).0 ≡ ok served
    → r ≡ ok served
conclude-ok body (ok x) g served h = h
conclude-ok body (raised s) g served h = h

if-ok :
    (b : Bool) (r : Result Stop Served) (s : Stop) (served : Served)
    → (if b then r else raised s) ≡ ok served
    → (b ≡ true) × (r ≡ ok served)
if-ok true r s served h = (refl, h)
if-ok false r s served h = cc

elim_if : (b : Bool) (v w : Json) → IsDict v → IsDict w → IsDict (if b then v else w)
elim_if true v w d e = d
elim_if false v w d e = e

get_item-IsDict : (k : String) (fs : Fields) → HasDicts fs → IsDict (get_item k fs)
get_item-IsDict k end d = tt
get_item-IsDict k (field j v fs) d =
    elim_if (j == k) v (get_item k fs) d.1 (get_item-IsDict k fs d.2)

-- What a served response is: the data of a valid payload without secrets or records of a restricted
-- domain, with its lists bounded, and the executed call's event.
pub record IsServed (le_one : String → Bool) (body : Fields) (v : Vetted) (served : Served)
    : Type 0 where
  pub valid : IsResponse le_one served.payload
  pub copied :
      served.structured_data ≡ truncate (redact (get_item "structured_data" served.payload)).value
  pub bounded : IsBounded served.structured_data
  pub clean : HasDicts served.payload → IsClean served.structured_data
  pub executed : served.event.final_action_outcome ≡ "executed"
  pub invoker : served.event.invoker_identity ≡ get_item "caller_agent" body
  pub tool : served.event.tool_call ≡ v.tool_id
  pub approval : served.event.approval_decision ≡ v.approval_decision

not-null :
    {A : Type 0} (xs : List A) (s : Stop) (u : Unit {0})
    → stop_if (not (null xs)) s ≡ ok u
    → xs ≡ []
not-null [] s u h = refl
not-null (x ∷ xs) s u h = cc

module _ (o : Outside) where
  run-calls :
      (body : Fields) (g : Gateway) (r : Result Stop Vetted)
      → ((v : Vetted) → r ≡ ok v → IsVetted o g.registry body v)
      → ((run_vetted o body r g).1.calls ≡ g.calls) ⊎ IsSent o g body (run_vetted o body r g).1
  run-calls body g (raised s) vetted = inl (settle-calls body s g)
  run-calls body g (ok v) vetted = inr (v, vetted v refl, conclude-calls body _ (sent v body g))

  -- A request sends nothing to a tool service, or exactly one request, to the registered endpoint of
  -- the healthy service of its tool. The tool id is then the request's tool and version with a dot
  -- between, is classified, and the calling agent is bound to it by name; the request's tenant scope
  -- names a namespace, a tenant and a team. If the tool's risk class needs a human approval, the
  -- caller is an action specialist and the request's approval context has an allowing policy
  -- decision, a valid target, an approval in the state approved and a rollback plan, and for the
  -- critical class a change ticket, in the context or in the approval.
  pub handle_invoke-IsSent :
      (body : Fields) (g : Gateway)
      → ((handle_invoke o body g).1.calls ≡ g.calls) ⊎ IsSent o g body (handle_invoke o body g).1
  unfolding handle_invoke
  handle_invoke-IsSent body g =
      run-calls body g (vet o g.registry body) (vet-IsVetted o g.registry body)

  run-journal :
      (body : Fields) (g : Gateway) (r : Result Stop Vetted)
      → (run_vetted o body r g).1.journal ≡ g.journal ++ recorded body (run_vetted o body r g).0
  run-journal body g (raised s) = settle-journal body s g
  run-journal body g (ok v) = conclude-journal body _ (sent v body g)

  -- The journal of a request's handling only grows, by exactly the event of its ending: the executed
  -- call's if it is served, the denial's if it is denied, and none if it is refused for its envelope or
  -- ends in an exception.
  pub handle_invoke-journal :
      (body : Fields) (g : Gateway)
      → (handle_invoke o body g).1.journal ≡ g.journal ++ recorded body (handle_invoke o body g).0
  unfolding handle_invoke
  handle_invoke-journal body g = run-journal body g (vet o g.registry body)

  serve_payload-IsServed :
      (body : Fields) (v : Vetted) (payload : Fields) (served : Served)
      → serve_payload o body v payload ≡ ok served
      → IsServed o.le_one body v served × (served.payload ≡ payload)
  unfolding serve_payload
  serve_payload-IsServed body v payload served h =
      let flaws = validate_tool_response o.le_one payload in
      let refusal = denies 502 v.tool_id (bad_response flaws) "failed" in
      let (u, valid, h) = bind-ok (stop_if (not (null flaws)) refusal) _ served h in
      let (handles, _, h) =
        bind-ok (or_raise (o.to_list (get_item "evidence_handles" payload)) (crashes type_error)) _
          served h in
      let (object, _, same) = bind-ok (object_name o (get_item "input" body)) _ served h in
      let data_of = get_item "structured_data" payload in
      subst (λ x. IsServed o.le_one body v x × (x.payload ≡ payload)) (ok-inj same)
        (
          record {
            valid =
                validate_tool_response-IsResponse o.le_one payload (not-null flaws refusal u valid);
            copied = refl;
            bounded = truncate-IsBounded (redact data_of).value;
            clean = λ d.
                truncate-IsClean (redact data_of).value
                  (redact-IsClean data_of (get_item-IsDict "structured_data" payload d));
            executed = refl;
            invoker = refl;
            tool = refl;
            approval = refl;
          },
          refl,
        )

  answer-IsServed :
      (body : Fields) (v : Vetted) (reply : Reply) (served : Served)
      → answer o body v reply ≡ ok served
      → IsServed o.le_one body v served × (reply ≡ replied 200 served.payload)
  unfolding answer
  answer-IsServed body v transport_failure served h = cc
  answer-IsServed body v (replied status payload) served h =
      let refusal = denies 502 v.tool_id bad_status "failed" in
      let (accepted, reads) =
        if-ok (status =? 200) (serve_payload o body v payload) refusal served h in
      let (facts, same) = serve_payload-IsServed body v payload served reads in
      (facts, rw same (ap (λ n. replied n payload) ((=?_iff status 200).0 accepted)))

  -- What the caller is served comes from one accepted reply to the one request sent.
  abbrev pub IsAnswered : Gateway → Fields → Served → Gateway → Type 0
  IsAnswered g body served g' =
      (v : Vetted) × IsVetted o g.registry body v
      × IsServed o.le_one body v served
      × (o.call v.endpoint (obj body) v.timeout_ms ≡ replied 200 served.payload)
      × (g'.calls ≡ g.calls ++ (v.endpoint, obj body) ∷ [])

  run-IsAnswered :
      (body : Fields) (g : Gateway) (r : Result Stop Vetted) (served : Served)
      → ((v : Vetted) → r ≡ ok v → IsVetted o g.registry body v)
      → (run_vetted o body r g).0 ≡ ok served
      → IsAnswered g body served (run_vetted o body r g).1
  run-IsAnswered body g (raised s) served vetted h = cc
  run-IsAnswered body g (ok v) served vetted h =
      let reply = o.call v.endpoint (obj body) v.timeout_ms in
      let (facts, came) =
        answer-IsServed body v reply served (conclude-ok body _ (sent v body g) served h) in
      (v, vetted v refl, facts, came, conclude-calls body _ (sent v body g))

  -- What a caller is served comes from a request that passed the checks on its own tool, scope, caller
  -- and approval context, one request to its tool's endpoint and a reply with status 200 whose payload
  -- has the eight required fields, a confidence from 0 to 1, one of the five safety classes and a time
  -- window with a start and an end. Its structured data has at most 500 items in each list and, if
  -- the payload's objects have each key once, no secret value and no record of a restricted domain at
  -- any depth.
  pub handle_invoke-IsAnswered :
      (body : Fields) (g : Gateway) (served : Served)
      → (handle_invoke o body g).0 ≡ ok served
      → IsAnswered g body served (handle_invoke o body g).1
  unfolding handle_invoke
  handle_invoke-IsAnswered body g served h =
      run-IsAnswered body g (vet o g.registry body) served (vet-IsVetted o g.registry body) h

  served_null :
      (body : Fields) (v : Vetted) (payload : Fields) (handles : Items)
      → validate_tool_response o.le_one payload ≡ []
      → o.to_list (get_item "evidence_handles" payload) ≡ some handles
      → get_item "input" body ≡ null_json
      → serve_payload o body v payload ≡ raised (crashes attribute_error)
  unfolding serve_payload
  served_null body v payload handles valid listed blank = rw (valid, listed, blank) refl

  -- A vetted request whose input is null is sent to the tool service, and when the service executes it
  -- and answers with a valid payload, the handler then ends in an AttributeError: the call has been
  -- made, and the journal has no event of it.
  pub handle_invoke-unrecorded :
      (body : Fields) (g : Gateway) (v : Vetted) (payload : Fields) (handles : Items)
      → vet o g.registry body ≡ ok v
      → o.call v.endpoint (obj body) v.timeout_ms ≡ replied 200 payload
      → validate_tool_response o.le_one payload ≡ []
      → o.to_list (get_item "evidence_handles" payload) ≡ some handles
      → get_item "input" body ≡ null_json
      → handle_invoke o body g ≡ (raised (crashes attribute_error), sent v body g)
  unfolding handle_invoke answer
  handle_invoke-unrecorded body g v payload handles passed reply valid listed blank =
      rw (passed, reply, served_null body v payload handles valid listed blank) refl
