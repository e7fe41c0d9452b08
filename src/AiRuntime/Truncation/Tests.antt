-- ===== src/AiRuntime/Truncation/Tests.antt =====
-- A small response.
use observability_kit.Prelude.{◌≡◌, arith}
use observability_kit.Json.{Json, str, arr, obj, nil, cons, field, end}
use observability_kit.AiRuntime.Truncation.{truncate, truncations}
use observability_kit.AiRuntime.Truncation.Laws.{IsBounded, truncate-IsBounded, truncate-bounded}

abbrev response : Json
response = obj (field "items" (arr (cons (str "a") (cons (str "b") nil))) end)

truncate-IsBounded_example : IsBounded (truncate response)
truncate-IsBounded_example = truncate-IsBounded response

small : IsBounded response
small = ((omega arith, (tt, (tt, tt))), tt)

truncate-bounded_example : (truncate response ≡ response) × (truncations response ≡ 0)
truncate-bounded_example = truncate-bounded response small
