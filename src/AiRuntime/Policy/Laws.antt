-- ===== src/AiRuntime/Policy/Laws.antt =====
-- Which agents may run which tools, and what a write needs.
use observability_kit.Prelude.{
  String, Bool, true, false, ◌&&◌, not, [], ◌∷◌, Option, none, some, ◌==◌, ◌≡◌, ◌⊎◌, inl, inr, refl,
  ap, sym, ◌∙◌, Bool-cases, elem, eq_iff, append-eq-nil, arith, if◌then◌else◌,
}
use observability_kit.Prelude.Dict.{lookup, AllEntries, lookup-AllEntries}
use observability_kit.Json.{Json, str, obj, Fields, get_item, has_key, is_text, is_truthy}
use observability_kit.AiRuntime.Policy.{
  tool_risk_classes, Binding, agent_tool_bindings, denied_risks, classify_tool, is_bound,
  check_agent_binding, approval_required, Precondition, find_precondition, Block, when, not_allowed,
  bad_target, no_approval, not_approved, no_rollback_plan, no_change_ticket, approval_state,
  approval_blocks, blocks, check_action_preconditions, target_of,
}

-- The agent's class is for actions.
abbrev pub IsActor : String → Type 0
IsActor agent = (agent ≡ "runbook-planner") ⊎ (agent ≡ "remediation-executor")

no_action : {A : Type 0} → false ≡ true → A
no_action h = ground arith

-- Only the two action specialists have the class for actions.
actors_only :
    AllEntries
      (λ agent b. (b.role == "specialist_action") ≡ true → IsActor agent)
      agent_tool_bindings
actors_only = (
  no_action,
  (
    no_action,
    (
      no_action,
      (
        no_action,
        (
          no_action,
          (
            no_action,
            (
              no_action,
              (
                no_action,
                (no_action, (no_action, (no_action, ((λ h. inl refl), ((λ h. inr refl), tt))))),
              ),
            ),
          ),
        ),
      ),
    ),
  ),
)

eq_comm : (s t : String) → (s == t) ≡ (t == s)
eq_comm s t = ground (arith, eq_iff s t, eq_iff t s)

action_role :
    (role risk : String)
    → approval_required risk ≡ true
    → elem risk (denied_risks role) ≡ false
    → (role == "specialist_action") ≡ true
unfolding denied_risks approval_required
action_role role risk h k = elim (Bool-cases (role == "specialist_action")) [
  | inl e ↦ e
  | inr e ↦ ground (arith, eq_comm risk "write.high-risk", eq_comm risk "write.critical")
]

is_bound-action :
    (o : Option Binding) (tool_id risk : String)
    → approval_required risk ≡ true
    → is_bound o tool_id risk ≡ true
    → (b : Binding) × (o ≡ some b)
      × ((b.role == "specialist_action") ≡ true)
      × (elem tool_id b.tools ≡ true)
unfolding is_bound
is_bound-action none tool_id risk h k = ground arith
is_bound-action (some b) tool_id risk h k =
    (b, refl, action_role b.role risk h (ground arith), ground arith)

-- An agent that check_agent_binding lets run a tool of a risk class that needs a human approval is
-- one of the two action specialists: no chief, manager or read-only specialist can.
pub check_agent_binding-IsActor :
    (agent tool_id risk : String)
    → approval_required risk ≡ true
    → check_agent_binding agent tool_id risk ≡ true
    → IsActor agent
unfolding check_agent_binding
check_agent_binding-IsActor agent tool_id risk h k =
    let (b, found, is_action, _) =
      is_bound-action (lookup agent agent_tool_bindings) tool_id risk h k in
    lookup-AllEntries (λ a x. (x.role == "specialist_action") ≡ true → IsActor a)
      agent_tool_bindings agent b actors_only found is_action

-- The tools of a risk class that needs a human approval.
abbrev pub IsGated : String → String → Type 0
IsGated tool_id risk =
    approval_required risk ≡ true
    → ((tool_id ≡ "runbook-plan.v1") × (risk ≡ "write.high-risk"))
      ⊎ ((tool_id ≡ "remediation-execute.v1") × (risk ≡ "write.critical"))

tool_risk_classes-IsGated : AllEntries IsGated tool_risk_classes
unfolding approval_required
tool_risk_classes-IsGated = (
  no_action,
  (
    no_action,
    (
      no_action,
      (
        no_action,
        (
          no_action,
          (no_action, (no_action, ((λ h. inl (refl, refl)), ((λ h. inr (refl, refl)), tt)))),
        ),
      ),
    ),
  ),
)

-- What an action of a risk class that needs approval is known to have.
pub record IsCleared (risk : String) (c : Fields) : Type 0 where
  pub allowed : get_item "policy_decision" c ≡ str "allow"
  pub target : has_key "valid_target" c ≡ true → is_truthy (get_item "valid_target" c) ≡ true
  pub approved :
      (approval : Fields) × (get_item "approval" c ≡ obj approval)
      × (get_item "state" approval ≡ str "approved")
  pub rollback_plan : is_truthy (get_item "rollback_plan_present" c) ≡ true
  pub ticket : risk ≡ "write.critical" → is_truthy (get_item "change_ticket_present" c) ≡ true

text_is : (s : String) (j : Json) → is_text s j ≡ true → j ≡ str s
text_is s (str t) h = ap str ((eq_iff t s).0 h)
text_is s _ h = ground arith

when-eq-nil : (b : Bool) (x : Block) → when b x ≡ [] → b ≡ false
when-eq-nil b x h = ground arith

not-eq-false : (b : Bool) → not b ≡ false → b ≡ true
not-eq-false b h = ground arith

needed : (b c : Bool) → b ≡ true → (b && not c) ≡ false → c ≡ true
needed b c e h = ground arith

blocks-eq-nil :
    (p : Precondition) (c : Fields)
    → blocks p c ≡ []
    → (is_text "allow" (get_item "policy_decision" c) ≡ true)
      × (is_truthy (target_of c) ≡ true)
      × ((if p.approval == "approved" then approval_blocks (get_item "approval" c) else []) ≡ [])
      × ((p.requires_rollback_plan && not (is_truthy (get_item "rollback_plan_present" c))) ≡ false)
      × ((p.requires_change_ticket && not (is_truthy (get_item "change_ticket_present" c))) ≡ false)
unfolding blocks
blocks-eq-nil p c h =
    let (rest, no_ticket) = append-eq-nil _ _ h in
    let (rest, no_plan) = append-eq-nil _ _ rest in
    let (rest, unapproved) = append-eq-nil _ _ rest in
    let (refused, untargeted) = append-eq-nil _ _ rest in
    (
      not-eq-false _ (when-eq-nil _ not_allowed refused),
      not-eq-false _ (when-eq-nil _ bad_target untargeted),
      unapproved,
      when-eq-nil _ no_rollback_plan no_plan,
      when-eq-nil _ no_change_ticket no_ticket,
    )

not_blocked :
    (b c : Bool) → (if not b then no_approval ∷ [] else when (not c) not_approved) ≡ [] → c ≡ true
not_blocked true c h = not-eq-false c (when-eq-nil _ not_approved h)
not_blocked false c h = ground arith

approval_blocks-eq-nil :
    (a : Json) → approval_blocks a ≡ [] → is_text "approved" (approval_state a) ≡ true
unfolding approval_blocks
approval_blocks-eq-nil a h = not_blocked (is_truthy a) (is_text "approved" (approval_state a)) h

approved_object :
    (a : Json)
    → is_text "approved" (approval_state a) ≡ true
    → (fs : Fields) × (a ≡ obj fs) × (get_item "state" fs ≡ str "approved")
approved_object (obj fs) h = (fs, refl, text_is "approved" (get_item "state" fs) h)
approved_object _ h = ground arith

given :
    (b : Bool) (v w : Json) → is_truthy (if b then v else w) ≡ true → b ≡ true → is_truthy v ≡ true
given true v w h e = h
given false v w h e = cc

cleared :
    (p : Precondition) (risk : String) (c : Fields)
    → (p.approval == "approved") ≡ true
    → p.requires_rollback_plan ≡ true
    → (risk ≡ "write.critical" → p.requires_change_ticket ≡ true)
    → blocks p c ≡ []
    → IsCleared risk c
cleared p risk c needs_approval needs_plan needs_ticket h =
    let (allowed, target, approved, plan, ticket) = blocks-eq-nil p c h in
    record {
      allowed = text_is "allow" (get_item "policy_decision" c) allowed;
      target = given (has_key "valid_target" c) (get_item "valid_target" c) _ target;
      approved = approved_object (get_item "approval" c) (
          approval_blocks-eq-nil (get_item "approval" c) (sym (rw needs_approval refl) ∙ approved));
      rollback_plan = needed (p.requires_rollback_plan) _ needs_plan plan;
      ticket = λ e. needed (p.requires_change_ticket) _ (needs_ticket e) ticket;
    }

-- An action whose tool has a risk class that needs a human approval passes its preconditions only in a
-- context with an allowing policy decision, an approval in the state approved and a rollback plan, and
-- a critical one only with a change ticket. If the context has the key valid_target, its value is true
-- in Python's sense.
pub check_action_preconditions-IsCleared :
    (tool_id risk : String) (c : Fields)
    → classify_tool tool_id ≡ some risk
    → approval_required risk ≡ true
    → check_action_preconditions tool_id c ≡ []
    → IsCleared risk c
unfolding classify_tool check_action_preconditions find_precondition lookup
check_action_preconditions-IsCleared tool_id risk c known gated h =
    elim (lookup-AllEntries IsGated tool_risk_classes tool_id risk tool_risk_classes-IsGated known
      gated) [
        | inl (is_plan, is_high) ↦
            cleared
              (record {
                approval = "approved";
                requires_rollback_plan = true;
                requires_change_ticket = false;
              })
              risk c refl refl (λ e. ap (λ r. r == "write.critical") (sym is_high ∙ e))
              (sym (ap (λ t. check_action_preconditions t c) is_plan) ∙ h)
        | inr (is_fix, is_critical) ↦
            cleared
              (record {
                approval = "approved";
                requires_rollback_plan = true;
                requires_change_ticket = true;
              })
              risk c refl refl (λ e. refl)
              (sym (ap (λ t. check_action_preconditions t c) is_fix) ∙ h)
      ]

-- A tool of a risk class that needs a human approval is on the write path.
pub find_precondition-gated :
    (tool_id risk : String)
    → classify_tool tool_id ≡ some risk
    → approval_required risk ≡ true
    → (p : Precondition) × (find_precondition tool_id ≡ some p)
unfolding classify_tool find_precondition lookup
find_precondition-gated tool_id risk known gated =
    elim (lookup-AllEntries IsGated tool_risk_classes tool_id risk tool_risk_classes-IsGated known
      gated) [
        | inl (is_plan, _) ↦ (_, ap find_precondition is_plan)
        | inr (is_fix, _) ↦ (_, ap find_precondition is_fix)
      ]
