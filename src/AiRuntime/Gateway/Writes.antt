-- ===== src/AiRuntime/Gateway/Writes.antt =====
-- What the checks establish of a write: the context of the request has all that its risk class asks for.
use observability_kit.Prelude.{
  String, Bool, true, false, not, List, [], ◌∷◌, none, some, ◌≡◌, ◌⊎◌, inl, inr, refl, ap, sym, ◌∙◌,
  null, if◌then◌else◌,
}
use observability_kit.Prelude.Exec.{ok}
use observability_kit.Prelude.Raise.{bind-ok, ok-inj}
use observability_kit.Json.{
  Json, null as null_json, bool, int, float, str, arr, obj, Fields, get_item, has_key, is_truthy,
}
use observability_kit.AiRuntime.Policy.{
  classify_tool, approval_required, find_precondition, Precondition, check_action_preconditions,
}
use observability_kit.AiRuntime.Policy.Laws.{
  IsCleared, check_action_preconditions-IsCleared, find_precondition-gated,
}
use observability_kit.AiRuntime.ToolCall.{
  Stop, stop_if, dict_or_empty, context_of, check_context, check_write,
}

pub stop_if-ok : (b : Bool) (s : Stop) (u : Unit {0}) → stop_if b s ≡ ok u → b ≡ false
stop_if-ok false s u h = refl
stop_if-ok true s u h = cc

pub not-null : {A : Type 0} (xs : List A) → not (null xs) ≡ false → xs ≡ []
not-null [] h = refl
not-null (x ∷ xs) h = cc

-- The context that the request gives for a write, whose preconditions hold.
abbrev pub HasContext : String → Json → Type 0
HasContext tool_id j =
    (context approval : Fields) × (j ≡ obj context)
    × (dict_or_empty (get_item "approval" context) ≡ ok approval)
    × (check_action_preconditions tool_id (context_of context approval) ≡ [])

pub check_context-ok :
    (tool_id : String) (j : Json) (decision : String)
    → check_context tool_id j ≡ ok decision
    → HasContext tool_id j
unfolding check_context
check_context-ok tool_id (obj context) decision h =
    let (approval, read, rest) =
      bind-ok (dict_or_empty (get_item "approval" context)) _ decision h in
    let (u, open_gate, _) = bind-ok (stop_if _ _) _ decision rest in
    (context, approval, refl, read, not-null _ (stop_if-ok _ _ u open_gate))
check_context-ok tool_id null_json decision h = cc
check_context-ok tool_id (bool x) decision h = cc
check_context-ok tool_id (int x) decision h = cc
check_context-ok tool_id (float x) decision h = cc
check_context-ok tool_id (str x) decision h = cc
check_context-ok tool_id (arr x) decision h = cc

-- The approval context of a request has all that a write of the risk class asks for.
pub record IsReady (risk : String) (body : Fields) : Type 0 where
  pub context : Fields
  pub approval : Fields
  pub given : get_item "approval_context" body ≡ obj context
  pub approval_given : get_item "approval" context ≡ obj approval
  pub allowed : get_item "policy_decision" context ≡ str "allow"
  pub target : is_truthy (get_item "valid_target" context) ≡ true
  pub approved : get_item "state" approval ≡ str "approved"
  pub rollback_plan : is_truthy (get_item "rollback_plan_present" context) ≡ true
  pub ticket :
      risk ≡ "write.critical"
      → (is_truthy (get_item "change_ticket_present" context) ≡ true)
        ⊎ (is_truthy (get_item "change_ticket" approval) ≡ true)

pub check_write-found :
    (tool_id : String) (p : Precondition) (j : Json) (decision : String)
    → find_precondition tool_id ≡ some p
    → check_write tool_id j ≡ ok decision
    → HasContext tool_id j
unfolding check_write
check_write-found tool_id p j decision found h = check_context-ok tool_id j decision (
    sym (ap (λ q. elim q [ none ↦ ok "not-required" | some r ↦ check_context tool_id j ]) found)
    ∙ h)

pub either :
    (b : Bool) (v w : Json)
    → is_truthy (if b then v else w) ≡ true
    → (is_truthy v ≡ true) ⊎ (is_truthy w ≡ true)
either true v w h = inl h
either false v w h = inr h

pub truthy_or_false :
    (b : Bool) (v : Json) → is_truthy (if b then v else bool false) ≡ true → is_truthy v ≡ true
truthy_or_false true v h = h
truthy_or_false false v h = cc

pub dict_or_empty-obj : (j : Json) (fs gs : Fields) → dict_or_empty j ≡ ok fs → j ≡ obj gs → gs ≡ fs
unfolding dict_or_empty
dict_or_empty-obj j fs gs h e = ok-inj (sym (ap dict_or_empty e) ∙ h)

-- What the context that the gateway makes says of the one that the request gives.
pub cleared-IsReady :
    (risk : String) (body context approval : Fields)
    → get_item "approval_context" body ≡ obj context
    → dict_or_empty (get_item "approval" context) ≡ ok approval
    → IsCleared risk (context_of context approval)
    → IsReady risk body
cleared-IsReady risk body context approval given read c =
    let (found, is_object, approved) = c.approved in
    let same = dict_or_empty-obj (get_item "approval" context) approval found read is_object in
    record {
      context = context;
      approval = approval;
      given = given;
      approval_given = is_object ∙ ap obj same;
      allowed = c.allowed;
      target = truthy_or_false _ (get_item "valid_target" context) (c.target refl);
      approved = ap (get_item "state") (sym same) ∙ approved;
      rollback_plan = truthy_or_false _ (get_item "rollback_plan_present" context) c.rollback_plan;
      ticket = λ e.
          either (has_key "change_ticket_present" context)
            (get_item "change_ticket_present" context)
            (bool (is_truthy (get_item "change_ticket" approval))) (c.ticket e);
    }

pub check_write-IsReady :
    (tool_id risk : String) (body : Fields) (decision : String)
    → classify_tool tool_id ≡ some risk
    → check_write tool_id (get_item "approval_context" body) ≡ ok decision
    → approval_required risk ≡ true
    → IsReady risk body
check_write-IsReady tool_id risk body decision known h gated =
    let (p, found) = find_precondition-gated tool_id risk known gated in
    let (context, approval, given, read, clear) =
      check_write-found tool_id p (get_item "approval_context" body) decision found h in
    cleared-IsReady risk body context approval given read (
      check_action_preconditions-IsCleared tool_id risk (context_of context approval) known gated
        clear)
