-- ===== src/AiRuntime/Policy.antt =====
-- The tool policy of services/ai/airuntime/policy.py, over the tables of contracts.py.
use observability_kit.Prelude.{
  String, Bool, true, false, ◌||◌, ◌&&◌, not, List, [], ◌∷◌, ◌++◌, Option, none, some, ◌==◌, elem,
  leb, pos, negsuc, if◌then◌else◌,
}
use observability_kit.Prelude.Dict.{Dict, lookup}
use observability_kit.Json.{
  Json, null, bool, int, float, zero_float, positive, str, obj, Fields, get_item, has_key, is_text,
  is_truthy,
}
pub mod Laws
pub mod Response
mod Tests

abbrev pub tool_risk_classes : Dict String
tool_risk_classes =
    ("incident-search.v1", "read.safe")
    ∷ ("graph-analysis.v1", "read.sensitive")
    ∷ ("trace-investigation.v1", "read.sensitive")
    ∷ ("metrics-correlation.v1", "read.safe")
    ∷ ("change-intelligence.v1", "read.sensitive")
    ∷ ("incident-casefile.read.v1", "read.sensitive")
    ∷ ("incident-casefile.update.v1", "write.low-risk")
    ∷ ("runbook-plan.v1", "write.high-risk")
    ∷ ("remediation-execute.v1", "write.critical")
    ∷ []

-- The class and the tools of an agent.
pub record Binding : Type 0 where
  pub role : String
  pub tools : List String

abbrev bound : String → List String → Binding
bound role tools = record { role = role; tools = tools }

abbrev casefile_tools : List String
casefile_tools = "incident-casefile.read.v1" ∷ "incident-casefile.update.v1" ∷ []

abbrev pub agent_tool_bindings : Dict Binding
agent_tool_bindings =
    ("ops-ceo-agent", bound "ceo" (casefile_tools ++ "approval-status.v1" ∷ []))
    ∷ ("triage-director", bound "manager" ("incident-search.v1" ∷ casefile_tools))
    ∷ (
      "investigation-manager",
      bound "manager" ("incident-search.v1" ∷ "change-intelligence.v1" ∷ casefile_tools),
    )
    ∷ ("action-governor", bound "manager" ("approval-status.v1" ∷ casefile_tools))
    ∷ (
      "incident-investigator",
      bound "specialist_read_only" ("incident-search.v1" ∷ casefile_tools),
    )
    ∷ ("logs-analyst", bound "specialist_read_only" ("incident-search.v1" ∷ casefile_tools))
    ∷ ("trace-analyst", bound "specialist_read_only" ("trace-investigation.v1" ∷ casefile_tools))
    ∷ (
      "metrics-correlator",
      bound "specialist_read_only" ("metrics-correlation.v1" ∷ casefile_tools),
    )
    ∷ ("graph-analyst", bound "specialist_read_only" ("graph-analysis.v1" ∷ casefile_tools))
    ∷ (
      "change-correlator",
      bound "specialist_read_only" ("change-intelligence.v1" ∷ casefile_tools),
    )
    ∷ ("evidence-summarizer", bound "specialist_read_only" casefile_tools)
    ∷ ("runbook-planner", bound "specialist_action" ("runbook-plan.v1" ∷ casefile_tools))
    ∷ (
      "remediation-executor",
      bound "specialist_action" ("remediation-execute.v1" ∷ casefile_tools),
    )
    ∷ []

-- ROLE_BINDINGS[role]["deny_risk_classes"]
unfoldable pub denied_risks : String → List String
denied_risks role =
    if role == "specialist_action" then [] else "write.high-risk" ∷ "write.critical" ∷ []

unfoldable pub classify_tool : String → Option String
classify_tool tool_id = lookup tool_id tool_risk_classes

unfoldable pub policy_decision : String → Bool → String
policy_decision tool_id caller_class_allows = elim (classify_tool tool_id) [
  | none ↦ "deny"
  | some risk ↦ if caller_class_allows then "allow" else "deny"
]

unfoldable pub is_bound : Option Binding → String → String → Bool
is_bound none tool_id risk = false
is_bound (some b) tool_id risk = elem tool_id b.tools && not (elem risk (denied_risks b.role))

unfoldable pub check_agent_binding : String → String → String → Bool
check_agent_binding agent tool_id risk = is_bound (lookup agent agent_tool_bindings) tool_id risk

-- `requires_human_approval` of APPROVAL_PRECONDITIONS, with its defaults
unfoldable pub approval_required : String → Bool
approval_required risk = risk == "write.high-risk" || risk == "write.critical"

pub record Precondition : Type 0 where
  pub approval : String
  pub requires_rollback_plan : Bool
  pub requires_change_ticket : Bool

abbrev pub action_preconditions : Dict Precondition
action_preconditions =
    (
      "incident-casefile.update.v1",
      record {
        approval = "not-required";
        requires_rollback_plan = false;
        requires_change_ticket = false;
      },
    )
    ∷ (
      "runbook-plan.v1",
      record {
        approval = "approved";
        requires_rollback_plan = true;
        requires_change_ticket = false;
      },
    )
    ∷ (
      "remediation-execute.v1",
      record {
        approval = "approved";
        requires_rollback_plan = true;
        requires_change_ticket = true;
      },
    )
    ∷ []

unfoldable pub find_precondition : String → Option Precondition
find_precondition tool_id = lookup tool_id action_preconditions

pub data Block : Type 0 where
  no_preconditions not_allowed bad_target no_approval not_approved : Block
  no_rollback_plan no_change_ticket : Block

abbrev pub when : Bool → Block → List Block
when b x = if b then x ∷ [] else []

-- `approval.get("state")` of a truthy approval; one that is no object is an AttributeError, which
-- the gateway's own reading of the approval raises before.
abbrev pub approval_state : Json → Json
approval_state (obj fs) = get_item "state" fs
approval_state _ = null

unfoldable pub approval_blocks : Json → List Block
approval_blocks a =
    if not (is_truthy a)
    then no_approval ∷ []
    else when (not (is_text "approved" (approval_state a))) not_approved

-- `context.get("valid_target", True)`: a context without the key passes.
abbrev pub target_of : Fields → Json
target_of c = if has_key "valid_target" c then get_item "valid_target" c else bool true

unfoldable pub blocks : Precondition → Fields → List Block
blocks p c =
    when (not (is_text "allow" (get_item "policy_decision" c))) not_allowed
    ++ when (not (is_truthy (target_of c))) bad_target
    ++ (if p.approval == "approved" then approval_blocks (get_item "approval" c) else [])
    ++ when (p.requires_rollback_plan && not (is_truthy (get_item "rollback_plan_present" c)))
        no_rollback_plan
    ++ when (p.requires_change_ticket && not (is_truthy (get_item "change_ticket_present" c)))
        no_change_ticket

-- The reasons why the action is blocked in a context; it may run if there is none.
unfoldable pub check_action_preconditions : String → Fields → List Block
check_action_preconditions tool_id c = elim (find_precondition tool_id) [
  | none ↦ no_preconditions ∷ []
  | some p ↦ blocks p c
]

abbrev pub tool_response_required_fields : List String
tool_response_required_fields =
    "schema_version" ∷ "summary" ∷ "structured_data" ∷ "evidence_handles" ∷ "confidence"
    ∷ "time_window" ∷ "safety_class" ∷ "next_recommended_tools" ∷ []

abbrev pub safety_classes : List String
safety_classes =
    "read.safe" ∷ "read.sensitive" ∷ "write.low-risk" ∷ "write.high-risk" ∷ "write.critical" ∷ []

pub data Flaw : Type 0 where
  missing_field : String → Flaw
  bad_confidence bad_safety_class bad_time_window : Flaw

-- `f not in payload`, for each required field
unfoldable pub missing_flaws : Fields → List String → List Flaw
missing_flaws fs [] = []
missing_flaws fs (k ∷ ks) =
    let rest = missing_flaws fs ks in if has_key k fs then rest else missing_field k ∷ rest

-- `le_one` compares a positive float, which stands by its digits, with 1.
module _ (le_one : String → Bool) where
  abbrev pub is_unit_number : Json → Bool
  is_unit_number (int n) = elim n [ pos k ↦ leb k 1 | negsuc k ↦ false ]
  is_unit_number (float zero_float) = true
  is_unit_number (float (positive digits)) = le_one digits
  is_unit_number _ = false

  abbrev pub is_safety_class : Json → Bool
  is_safety_class (str s) = elem s safety_classes
  is_safety_class _ = false

  abbrev pub is_window : Json → Bool
  is_window (obj fs) = is_truthy (get_item "start" fs) && is_truthy (get_item "end" fs)
  is_window _ = false

  abbrev flaw_if : Bool → Flaw → List Flaw
  flaw_if b x = if b then x ∷ [] else []

  unfoldable pub validate_tool_response : Fields → List Flaw
  validate_tool_response fs =
      missing_flaws fs tool_response_required_fields
      ++ flaw_if (has_key "confidence" fs && not (is_unit_number (get_item "confidence" fs)))
          bad_confidence
      ++ flaw_if (has_key "safety_class" fs && not (is_safety_class (get_item "safety_class" fs)))
          bad_safety_class
      ++ flaw_if (has_key "time_window" fs && not (is_window (get_item "time_window" fs)))
          bad_time_window
