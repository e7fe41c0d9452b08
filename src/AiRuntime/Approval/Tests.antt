-- ===== src/AiRuntime/Approval/Tests.antt =====
-- An approval of a critical write, decided in time, and one left until the chain is over.
use observability_kit.Prelude.{◌*◌, true, [], ◌∷◌, none, some, ◌≡◌, refl}
use observability_kit.Time.{minute}
use observability_kit.Prelude.Exec.{raised}
use observability_kit.AiRuntime.Approval.{
  Approval, not_pending, timeout_rules, chain_from, new_approval, has_required, decide_approval,
  due_roles, evaluate_timeout,
}
use observability_kit.AiRuntime.Approval.Laws.{
  IsDecided, decide_approval-IsDecided, decide_approval-decide_approval, IsExpired,
  evaluate_timeout-IsExpired,
}

program : Unit {0}
unfolding timeout_rules chain_from new_approval has_required decide_approval due_roles
    evaluate_timeout
program = tt

abbrev pending : Approval
pending = record {
  approval_id = "a1";
  casefile_id = "case";
  tool = "restart";
  risk_class = "write.critical";
  requested_by = "ada";
  requested_at = 1000 * minute;
  deadline_at = 1120 * minute;
  warning_at = 1060 * minute;
  state = "pending";
  approver = none;
  decision = none;
  decided_at = none;
  change_ticket = none;
  chain =
      record { role = "oncall-sre"; sla_minutes = 30; escalate_at = 1120 * minute }
      ∷ record { role = "incident-commander"; sla_minutes = 60; escalate_at = 1150 * minute }
      ∷ record { role = "platform-director"; sla_minutes = 120; escalate_at = 1210 * minute }
      ∷ [];
}

abbrev approved : Approval
approved = record pending {
  state = "approved";
  approver = some "grace";
  decision = some "approved";
  decided_at = some (1120 * minute);
  change_ticket = some "CHG-1";
}

decide_approval-IsDecided_example :
    IsDecided pending "grace" "approved" (1120 * minute) (some "CHG-1") approved
unfolding program
decide_approval-IsDecided_example =
    decide_approval-IsDecided pending "grace" "approved" (1120 * minute) (some "CHG-1") approved
      refl

decide_approval-decide_approval_example :
    decide_approval approved "linus" "rejected" (1100 * minute) none ≡ raised not_pending
unfolding program
decide_approval-decide_approval_example =
    decide_approval-decide_approval pending "grace" "linus" "approved" "rejected" (1120 * minute)
      (1100 * minute) (some "CHG-1") none approved refl

evaluate_timeout-IsExpired_example : IsExpired pending (1210 * minute) "deny-and-escalate" true
unfolding program
evaluate_timeout-IsExpired_example =
    evaluate_timeout-IsExpired "a1" "case" "restart" "write.critical" "ada" (1000 * minute)
      (1210 * minute) pending "deny-and-escalate"
      ("oncall-sre" ∷ "incident-commander" ∷ "platform-director" ∷ []) true refl refl
