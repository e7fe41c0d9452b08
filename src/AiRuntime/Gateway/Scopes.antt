-- ===== src/AiRuntime/Gateway/Scopes.antt =====
-- What the checks establish of the tenant scope of a request.
use observability_kit.Prelude.{
  String, Bool, true, false, not, [], ◌≡◌, ap, subst, ◌∙◌, null, arith, if◌then◌else◌,
}
use observability_kit.Prelude.Exec.{ok, raised}
use observability_kit.Prelude.Raise.{bind-ok, ok-inj}
use observability_kit.Json.{
  Json, null as null_json, bool, int, float, str, arr, obj, Fields, end, get_item, is_truthy,
}
use observability_kit.Tenant.Errors.{attribute_error}
use observability_kit.AiRuntime.ToolCall.{
  crashes, denies, missing_scopes, stop_if, dict_or_empty, lacking, required_scopes,
  check_tenant_scope,
}
use observability_kit.AiRuntime.Gateway.Writes.{stop_if-ok, not-null}

pub if_ok :
    {fs : Fields} (b : Bool)
    → (if b then raised (crashes attribute_error) else ok end) ≡ ok fs
    → end ≡ fs
if_ok true h = cc
if_ok false h = ok-inj h

-- The scope names a namespace, a tenant and a team.
abbrev pub IsWhole : Fields → Type 0
IsWhole scope =
    (is_truthy (get_item "namespace" scope) ≡ true)
    × (is_truthy (get_item "tenant" scope) ≡ true)
    × (is_truthy (get_item "team" scope) ≡ true)

-- The empty object has no name.
pub not-IsWhole : (fs : Fields) → end ≡ fs → ¬ IsWhole fs
not-IsWhole fs h w =
    let named : is_truthy (get_item "namespace" end) ≡ true =
      ap (λ x. is_truthy (get_item "namespace" x)) h ∙ w.0 in
    cc

pub lacking-IsWhole :
    (scope : Fields)
    → lacking (λ k. is_truthy (get_item k scope)) required_scopes ≡ []
    → IsWhole scope
unfolding lacking
lacking-IsWhole scope h = (ground arith, ground arith, ground arith)

-- A whole scope is not the empty one that stands for a missing scope.
pub dict_or_empty-IsWhole :
    (j : Json) (fs : Fields) → dict_or_empty j ≡ ok fs → IsWhole fs → (j ≡ obj fs) × IsWhole fs
unfolding dict_or_empty
dict_or_empty-IsWhole (obj gs) fs h w = (ap obj (ok-inj h), w)
dict_or_empty-IsWhole null_json fs h w = absurd (not-IsWhole fs (ok-inj h) w)
dict_or_empty-IsWhole (bool b) fs h w = absurd (not-IsWhole fs (if_ok b h) w)
dict_or_empty-IsWhole (int n) fs h w = absurd (not-IsWhole fs (if_ok (is_truthy (int n)) h) w)
dict_or_empty-IsWhole (float x) fs h w = absurd (not-IsWhole fs (if_ok (is_truthy (float x)) h) w)
dict_or_empty-IsWhole (str s) fs h w = absurd (not-IsWhole fs (if_ok (is_truthy (str s)) h) w)
dict_or_empty-IsWhole (arr xs) fs h w = absurd (not-IsWhole fs (if_ok (is_truthy (arr xs)) h) w)

pub check_tenant_scope-ok :
    (body : Fields) (tool_id : String) (scope : Fields)
    → check_tenant_scope body tool_id ≡ ok scope
    → (get_item "tenant_scope" body ≡ obj scope) × IsWhole scope
unfolding check_tenant_scope
check_tenant_scope-ok body tool_id scope h =
    let (found, read, h) = bind-ok (dict_or_empty (get_item "tenant_scope" body)) _ scope h in
    let lacks = lacking (λ k. is_truthy (get_item k found)) required_scopes in
    let refusal = denies 403 tool_id (missing_scopes lacks) "blocked" in
    let (u, whole, same) = bind-ok (stop_if (not (null lacks)) refusal) _ scope h in
    subst (λ fs. (get_item "tenant_scope" body ≡ obj fs) × IsWhole fs) (ok-inj same)
      (dict_or_empty-IsWhole (get_item "tenant_scope" body) found read
        (lacking-IsWhole found (not-null lacks (stop_if-ok (not (null lacks)) refusal u whole))))
