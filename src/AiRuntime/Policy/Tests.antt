-- ===== src/AiRuntime/Policy/Tests.antt =====
-- A critical remediation.
use observability_kit.Prelude.{true, refl}
use observability_kit.Prelude.Dict.{lookup}
use observability_kit.Json.{Fields, bool, str, obj, field, end}
use observability_kit.AiRuntime.Policy.{
  classify_tool, denied_risks, is_bound, check_agent_binding, approval_required, find_precondition,
  approval_blocks, blocks, check_action_preconditions,
}
use observability_kit.AiRuntime.Policy.Laws.{
  IsActor, check_agent_binding-IsActor, IsCleared, check_action_preconditions-IsCleared,
}

program : Unit {0}
unfolding lookup classify_tool denied_risks is_bound check_agent_binding approval_required
    find_precondition approval_blocks blocks check_action_preconditions
program = tt

check_agent_binding-IsActor_example : IsActor "remediation-executor"
unfolding program
check_agent_binding-IsActor_example =
    check_agent_binding-IsActor "remediation-executor" "remediation-execute.v1" "write.critical"
      refl refl

abbrev context : Fields
context = field "policy_decision" (str "allow") (
    field "approval" (obj (field "state" (str "approved") end)) (
      field "rollback_plan_present" (bool true)
        (field "change_ticket_present" (str "CHG-1") (field "valid_target" (bool true) end))))

check_action_preconditions-IsCleared_example : IsCleared "write.critical" context
unfolding program
check_action_preconditions-IsCleared_example =
    check_action_preconditions-IsCleared "remediation-execute.v1" "write.critical" context refl refl
      refl
