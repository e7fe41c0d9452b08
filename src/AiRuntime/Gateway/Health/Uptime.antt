-- ===== src/AiRuntime/Gateway/Health/Uptime.antt =====
-- Which services the heartbeats leave healthy.
use observability_kit.Prelude.{
  ℕ, suc, ◌<◌, String, Bool, true, false, List, [], ◌∷◌, ◌++◌, some, ◌≡◌, ◌⊎◌, inl, inr, refl, ap,
  sym, ◌∙◌, ltb, arith, if◌then◌else◌,
}
use observability_kit.Prelude.Dict.{Dict, lookup, AllEntries, lookup-AllEntries}
use observability_kit.Json.{obj, Fields, get_item}
use observability_kit.AiRuntime.ToolCall.{Entry, Outside, service_of}
use observability_kit.AiRuntime.Gateway.{Gateway, handle_invoke}
use observability_kit.AiRuntime.Gateway.Calls.{handle_invoke-IsSent}
use observability_kit.AiRuntime.Gateway.Health.{
  Pings, is_up, beat, beat_all, heartbeat_once, rounds, register, mcp_catalog, start_gateway,
}

-- The failed heartbeats of a service since its last answered one, over rounds with the latest first.
unfoldable pub failures : String → List Pings → ℕ
failures service [] = 0
failures service (p ∷ ps) =
    let before = failures service ps in if is_up (p service) then 0 else suc before

abbrev pub HasFailed : ℕ → Entry → Type 0
HasFailed n e = (e.missed_heartbeats ≡ n) × (e.healthy ≡ ltb n 3) × (e.registered ≡ ltb n 3)

beat-HasFailed :
    (up : Bool) (n : ℕ) (e : Entry)
    → HasFailed n e
    → HasFailed (if up then 0 else suc n) (beat up e)
unfolding beat
beat-HasFailed true n e h = (refl, refl, refl)
beat-HasFailed false n e (missed, healthy, registered) = (
  ap suc missed,
  ground (arith, missed, healthy, registered),
  ground (arith, missed, healthy, registered),
)

-- What is known of every entry once the rounds are done.
abbrev pub HaveFailed : List Pings → Dict Entry → Type 0
HaveFailed ps m = AllEntries (λ service e. HasFailed (failures service ps) e) m

beat_all-HaveFailed :
    (p : Pings) (ps : List Pings) (m : Dict Entry)
    → HaveFailed ps m
    → HaveFailed (p ∷ ps) (beat_all p m)
unfolding beat_all failures
beat_all-HaveFailed p ps [] h = tt
beat_all-HaveFailed p ps ((service, e) ∷ m) (first, rest) = (
  beat-HasFailed (is_up (p service)) (failures service ps) e first,
  beat_all-HaveFailed p ps m rest,
)

register-HaveFailed :
    (endpoint : String → String) (services : List String)
    → HaveFailed [] (register endpoint services)
unfolding register failures
register-HaveFailed endpoint [] = tt
register-HaveFailed endpoint (service ∷ services) =
    ((refl, refl, refl), register-HaveFailed endpoint services)

rounds-HaveFailed :
    (endpoint : String → String) (ps : List Pings)
    → HaveFailed ps (rounds ps (start_gateway endpoint)).registry
unfolding rounds heartbeat_once
rounds-HaveFailed endpoint [] = register-HaveFailed endpoint mcp_catalog
rounds-HaveFailed endpoint (p ∷ ps) =
    beat_all-HaveFailed p ps (rounds ps (start_gateway endpoint)).registry
      (rounds-HaveFailed endpoint ps)

-- After any rounds of heartbeats from startup, a service's entry counts the heartbeats that it missed
-- since it last answered one with status 200, and it is healthy, and registered, exactly while these
-- are fewer than three: three failures in a row take it out, and one answer brings it back.
pub rounds-HasFailed :
    (endpoint : String → String) (ps : List Pings) (service : String) (e : Entry)
    → lookup service (rounds ps (start_gateway endpoint)).registry ≡ some e
    → HasFailed (failures service ps) e
rounds-HasFailed endpoint ps service e found =
    lookup-AllEntries (λ s x. HasFailed (failures s ps) x)
      (rounds ps (start_gateway endpoint)).registry service e (rounds-HaveFailed endpoint ps) found

-- A heartbeat leaves the endpoint of a service as it was registered.
abbrev HaveEndpoints : (String → String) → Dict Entry → Type 0
HaveEndpoints endpoint m = AllEntries (λ service e. e.gateway_endpoint ≡ endpoint service) m

beat-gateway_endpoint : (up : Bool) (e : Entry) → (beat up e).gateway_endpoint ≡ e.gateway_endpoint
unfolding beat
beat-gateway_endpoint true e = refl
beat-gateway_endpoint false e = refl

beat_all-HaveEndpoints :
    (endpoint : String → String) (p : Pings) (m : Dict Entry)
    → HaveEndpoints endpoint m
    → HaveEndpoints endpoint (beat_all p m)
unfolding beat_all
beat_all-HaveEndpoints endpoint p [] h = tt
beat_all-HaveEndpoints endpoint p ((service, e) ∷ m) (first, rest) =
    (beat-gateway_endpoint (is_up (p service)) e ∙ first, beat_all-HaveEndpoints endpoint p m rest)

register-HaveEndpoints :
    (endpoint : String → String) (services : List String)
    → HaveEndpoints endpoint (register endpoint services)
unfolding register
register-HaveEndpoints endpoint [] = tt
register-HaveEndpoints endpoint (service ∷ services) =
    (refl, register-HaveEndpoints endpoint services)

rounds-HaveEndpoints :
    (endpoint : String → String) (ps : List Pings)
    → HaveEndpoints endpoint (rounds ps (start_gateway endpoint)).registry
unfolding rounds heartbeat_once
rounds-HaveEndpoints endpoint [] = register-HaveEndpoints endpoint mcp_catalog
rounds-HaveEndpoints endpoint (p ∷ ps) =
    beat_all-HaveEndpoints endpoint p (rounds ps (start_gateway endpoint)).registry
      (rounds-HaveEndpoints endpoint ps)

rounds-gateway_endpoint :
    (endpoint : String → String) (ps : List Pings) (service : String) (e : Entry)
    → lookup service (rounds ps (start_gateway endpoint)).registry ≡ some e
    → e.gateway_endpoint ≡ endpoint service
rounds-gateway_endpoint endpoint ps service e found =
    lookup-AllEntries (λ s x. x.gateway_endpoint ≡ endpoint s)
      (rounds ps (start_gateway endpoint)).registry service e (rounds-HaveEndpoints endpoint ps)
      found

-- The request went to a service that answered one of its last three heartbeats.
abbrev pub IsSentAlive : (String → String) → List Pings → Fields → Gateway → Type 0
IsSentAlive endpoint ps body g' =
    (service to : String) × (service_of (get_item "tool" body) ≡ some service)
    × (to ≡ endpoint service)
    × (failures service ps < 3)
    × (g'.calls ≡ (rounds ps (start_gateway endpoint)).calls ++ (to, obj body) ∷ [])

few : (n : ℕ) (b : Bool) → b ≡ ltb n 3 → b ≡ true → n < 3
few n b e h = ground (arith, e, h)

-- After any rounds of heartbeats from startup, a request is sent to no tool service, or once to the
-- endpoint of its tool's service, and then this service has missed fewer than three heartbeats since
-- its last answer: a failed service is never called, and no other is called in its place.
pub handle_invoke-failures :
    (o : Outside) (endpoint : String → String) (ps : List Pings) (body : Fields)
    → ((handle_invoke o body (rounds ps (start_gateway endpoint))).1.calls
        ≡ (rounds ps (start_gateway endpoint)).calls)
      ⊎ IsSentAlive endpoint ps body (handle_invoke o body (rounds ps (start_gateway endpoint))).1
handle_invoke-failures o endpoint ps body =
    elim (handle_invoke-IsSent o body (rounds ps (start_gateway endpoint))) [
      | inl same ↦ inl same
      | inr (v, vetted, sent) ↦
          let (service, e, named, found, at, healthy, _) = vetted.served in
          let failed = rounds-HasFailed endpoint ps service e found in
          inr (
            service,
            v.endpoint,
            named,
            sym at ∙ rounds-gateway_endpoint endpoint ps service e found,
            few (failures service ps) e.healthy failed.1 healthy,
            sent,
          )
    ]
