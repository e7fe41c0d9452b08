-- ===== src/AiRuntime/Approval.antt =====
-- The approval lifecycle of services/ai/airuntime/policy.py: new_approval, decide_approval,
-- evaluate_timeout. An ISO text stands as the instant that it denotes, in microseconds; every text
-- has an offset, as those of the runtime's clock do. The identifier that uuid4 draws is an argument.
use observability_kit.Prelude.{
  ℕ, ◌+◌, ◌*◌, String, Bool, true, false, ◌||◌, ◌&&◌, not, List, [], ◌∷◌, Option, none, some, ◌==◌,
  ltb, leb, ◌=?◌, length, null, if◌then◌else◌,
}
use observability_kit.Prelude.Exec.{Result, ok, raised}
use observability_kit.Prelude.Raise.{◌>>=◌, ◌>>◌, or_raise}
use observability_kit.Time.{minute}
mod Laws
mod Tests

-- APPROVAL_TIMEOUT_RULES and ESCALATION_CHAIN of contracts.py
pub record Rules : Type 0 where
  pub pending_timeout_minutes : ℕ
  pub warning_threshold_minutes : ℕ
  pub on_timeout : String

unfoldable pub timeout_rules : String → Option Rules
timeout_rules risk =
    if risk == "write.high-risk"
    then some (record {
      pending_timeout_minutes = 60;
      warning_threshold_minutes = 30;
      on_timeout = "deny-and-escalate";
    })
    else if risk == "write.critical"
    then some (record {
      pending_timeout_minutes = 120;
      warning_threshold_minutes = 60;
      on_timeout = "deny-and-escalate";
    })
    else none

abbrev pub escalation_chain : List (String × ℕ)
escalation_chain = ("oncall-sre", 30) ∷ ("incident-commander", 60) ∷ ("platform-director", 120) ∷ []

pub record Step : Type 0 where
  pub role : String
  pub sla_minutes : ℕ
  pub escalate_at : ℕ

pub record Approval : Type 0 where
  pub approval_id : String
  pub casefile_id : String
  pub tool : String
  pub risk_class : String
  pub requested_by : String
  pub requested_at : ℕ
  pub deadline_at : ℕ
  pub warning_at : ℕ
  pub state : String
  pub approver : Option String
  pub decision : Option String
  pub decided_at : Option ℕ
  pub change_ticket : Option String
  pub chain : List Step

-- The ValueErrors.
pub data Refusal : Type 0 where
  no_timeout_rules not_pending self_approval bad_decision past_deadline : Refusal
  no_change_ticket missing_fields : Refusal

-- The loop over the escalation chain: each role after the service levels of those before it.
unfoldable pub chain_from : ℕ → List (String × ℕ) → List Step
chain_from at [] = []
chain_from at ((role, sla) ∷ more) =
    record { role = role; sla_minutes = sla; escalate_at = at }
    ∷ chain_from (at + sla * minute) more

unfoldable pub new_approval :
    String → String → String → String → String → ℕ → Result Refusal Approval
new_approval id casefile_id tool risk requested_by now =
    or_raise (timeout_rules risk) no_timeout_rules >>= λ rules. ok (record {
      approval_id = id;
      casefile_id = casefile_id;
      tool = tool;
      risk_class = risk;
      requested_by = requested_by;
      requested_at = now;
      deadline_at = now + rules.pending_timeout_minutes * minute;
      warning_at = now + rules.warning_threshold_minutes * minute;
      state = "pending";
      approver = none;
      decision = none;
      decided_at = none;
      change_ticket = none;
      chain = chain_from (now + rules.pending_timeout_minutes * minute) escalation_chain;
    })

-- `not change_ticket`
abbrev pub is_blank : Option String → Bool
is_blank none = true
is_blank (some s) = s == ""

abbrev pub check : Bool → Refusal → Result Refusal (Unit {0})
check true r = ok tt
check false r = raised r

abbrev pub ticket_or : Option String → Option String → Option String
ticket_or none old = old
ticket_or (some t) old = some t

-- A required field without a value: approval_id, approver, decision, decided_at, and the change
-- ticket of an approved critical write. The decision and its instant have one by then.
unfoldable pub has_required : Approval → Bool
has_required a = elim (timeout_rules a.risk_class) [
  | none ↦ true
  | some _ ↦
      not (a.approval_id == "")
      && not (is_blank a.approver)
      && not (a.risk_class == "write.critical" && a.state == "approved" && is_blank a.change_ticket)
]

unfoldable pub decide_approval :
    Approval → String → String → ℕ → Option String → Result Refusal Approval
decide_approval a approver decision decided_at ticket =
    check (a.state == "pending") not_pending
    >> check (not (approver == a.requested_by)) self_approval
    >> check (decision == "approved" || decision == "rejected") bad_decision
    >> check (leb decided_at a.deadline_at) past_deadline
    >> check (not (a.risk_class == "write.critical" && decision == "approved" && is_blank ticket))
        no_change_ticket
    >> (let updated : Approval = record a {
      state = decision;
      approver = some approver;
      decision = some decision;
      decided_at = some decided_at;
      change_ticket = ticket_or ticket a.change_ticket;
    } in
        check (has_required updated) missing_fields >> ok updated)

-- What evaluate_timeout returns.
pub data Timeout : Type 0 where
  not_waiting : (state : String) → Timeout
  not_due warning : Timeout
  expired : (outcome : String) (escalated : List String) (final_denial : Bool) → Timeout

-- The roles that are due, in the chain's order.
unfoldable pub due_roles : ℕ → List Step → List String
due_roles as_of [] = []
due_roles as_of (step ∷ more) =
    let rest = due_roles as_of more in if leb step.escalate_at as_of then step.role ∷ rest else rest

-- The rules of the approval's class; its absence is a KeyError.
unfoldable pub evaluate_timeout : Approval → ℕ → Result Refusal Timeout
evaluate_timeout a as_of =
    if not (a.state == "pending")
    then ok (not_waiting a.state)
    else if ltb as_of a.warning_at
    then ok not_due
    else if ltb as_of a.deadline_at
    then ok warning
    else or_raise (timeout_rules a.risk_class) no_timeout_rules >>= λ rules. ok (
        expired rules.on_timeout (due_roles as_of a.chain)
          (length (due_roles as_of a.chain) =? length a.chain))
