-- ===== src/Tenant/Request.antt =====
-- parse_transition_request of services/tenancy/tenantctl/models.py.
use observability_kit.Prelude.{String, ◌||◌, List, [], ◌∷◌, ◌==◌, if◌then◌else◌}
use observability_kit.Prelude.Exec.{Result, ok, raised}
use observability_kit.Prelude.Raise.{◌>>=◌, ◌>>◌}
use observability_kit.Json.{Json, null, str, obj, Fields, get_item, is_null, is_nonempty_text}
use observability_kit.Tenant.Errors.{
  request, Violation, Message, body_not_object, body_invalid, empty_field, bad_trigger_type,
  bad_reason, unknown_transition, type_error, validation_failed, Exception, crashed, deny,
}
use observability_kit.Tenant.Document.Checks.{check_keys}

pub data Request : Type 0 where
  provision_request : (actor : String) (reason : Json) → Request
  suspend_request : (actor trigger_type reason : String) → Request
  resume_request : (actor reason : String) → Request
  offboard_request : (actor reason : String) (approval : Json) → Request
  purge_request : (actor : String) (approval reason : Json) → Request

abbrev pub actor : Request → String
actor (provision_request a _) = a
actor (suspend_request a _ _) = a
actor (resume_request a _) = a
actor (offboard_request a _ _) = a
actor (purge_request a _ _) = a

-- `getattr(request, "approval", None)`
abbrev pub approval_payload : Request → Json
approval_payload (offboard_request _ _ p) = p
approval_payload (purge_request _ p _) = p
approval_payload _ = null

-- `raise ValidationFailed(message)`
abbrev invalid : {A : Type 0} → Message → Result Exception A
invalid m = raised (deny validation_failed m)

-- The loop over the required fields.
unfoldable pub require_texts : Fields → List String → Result Exception (Unit {0})
require_texts fs [] = ok tt
require_texts fs (k ∷ ks) =
    let rest = require_texts fs ks in
    if k == "approval" || is_nonempty_text (get_item k fs) then rest else invalid (empty_field k)

unfoldable pub reject_body : List Violation → Result Exception (Unit {0})
reject_body [] = ok tt
reject_body (v ∷ vs) = invalid (body_invalid (v ∷ vs))

unfoldable pub parse_common : Json → List String → List String → Result Exception Fields
unfolding require_texts reject_body check_keys
parse_common (obj fs) required optional = do
  reject_body (check_keys fs required optional request)
  require_texts fs required
  ok fs
parse_common _ required optional = invalid body_not_object

-- `data[key]` where parse_common has found a text; anything else would be used as a text later.
unfoldable pub text_at : Fields → String → Result Exception String
text_at fs key = elim (get_item key fs) [ str s ↦ ok s | _ ↦ raised (crashed type_error) ]

parse_provision : Json → Result Exception Request
unfolding parse_common text_at
parse_provision payload = do
  fs ← parse_common payload ("actor" ∷ []) ("reason" ∷ [])
  a ← text_at fs "actor"
  ok (provision_request a (get_item "reason" fs))

parse_suspend : Json → Result Exception Request
unfolding parse_common text_at
parse_suspend payload = do
  fs ← parse_common payload ("actor" ∷ "trigger_type" ∷ "reason" ∷ []) []
  t ← text_at fs "trigger_type"
  (if t == "operator" || t == "automated" then ok tt else invalid bad_trigger_type)
  a ← text_at fs "actor"
  r ← text_at fs "reason"
  ok (suspend_request a t r)

parse_resume : Json → Result Exception Request
unfolding parse_common text_at
parse_resume payload = do
  fs ← parse_common payload ("actor" ∷ "reason" ∷ []) []
  a ← text_at fs "actor"
  r ← text_at fs "reason"
  ok (resume_request a r)

parse_offboard : Json → Result Exception Request
unfolding parse_common text_at
parse_offboard payload = do
  fs ← parse_common payload ("actor" ∷ "reason" ∷ []) ("approval" ∷ [])
  a ← text_at fs "actor"
  r ← text_at fs "reason"
  ok (offboard_request a r (get_item "approval" fs))

parse_purge : Json → Result Exception Request
unfolding parse_common text_at
parse_purge payload = do
  fs ← parse_common payload ("actor" ∷ []) ("reason" ∷ "approval" ∷ [])
  (if is_null (get_item "reason" fs) || is_nonempty_text (get_item "reason" fs)
      then ok tt
      else invalid bad_reason)
  a ← text_at fs "actor"
  ok (purge_request a (get_item "approval" fs) (get_item "reason" fs))

unfoldable pub parse_transition_request : String → Json → Result Exception Request
unfolding parse_provision parse_suspend parse_resume parse_offboard parse_purge
parse_transition_request name payload =
    if name == "provision"
    then parse_provision payload
    else if name == "suspend"
    then parse_suspend payload
    else if name == "resume"
    then parse_resume payload
    else if name == "offboard"
    then parse_offboard payload
    else if name == "purge"
    then parse_purge payload
    else invalid (unknown_transition name)
