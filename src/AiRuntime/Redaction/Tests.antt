-- ===== src/AiRuntime/Redaction/Tests.antt =====
-- A tool response with a secret and a record of a restricted domain.
use observability_kit.Prelude.{◌≡◌, refl}
use observability_kit.Json.{Json, str, arr, obj, nil, cons, end, field}
use observability_kit.AiRuntime.Redaction.{redact, walk, masked, denied, is_restricted, is_secret}
use observability_kit.AiRuntime.Redaction.Domain.{IsDict}
use observability_kit.AiRuntime.Redaction.Clean.{IsClean, redact-IsClean, redact-redact}

program : Unit {0}
unfolding redact walk masked denied is_restricted is_secret
program = tt

abbrev response : Json
response = obj (
    field "items"
      (arr (
        cons (obj (field "domain" (str "credentials") end))
          (cons (obj (field "token" (str "t0p") (field "domain" (str "logs") end))) nil)))
      (field "domain" (obj (field "domain" (str "pii.raw") end)) end))

distinct : IsDict response
distinct = (refl, ((refl, tt, tt), ((refl, tt, (refl, tt, tt)), tt)), (refl, (refl, tt, tt), tt))

redact-IsClean_example : IsClean (redact response).value
unfolding program
redact-IsClean_example = redact-IsClean response distinct

redact-redact_example : (redact (redact response).value).value ≡ (redact response).value
redact-redact_example = redact-redact response distinct
