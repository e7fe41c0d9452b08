-- ===== src/AiRuntime/Approval/Laws.antt =====
-- What a decision on an approval has shown, and when an approval is denied for good.
use observability_kit.Prelude.{
  ℕ, ◌+◌, ◌*◌, ◌≤◌, String, Bool, true, false, ◌||◌, List, Option, none, some, ◌==◌, ◌≡◌, inl, inr,
  refl, ap, ◌∙◌, Bool-cases, leb, ◌=?◌, length, arith, eq_iff,
}
use observability_kit.Prelude.Exec.{ok, raised}
use observability_kit.Time.{minute}
use observability_kit.AiRuntime.Approval.{
  Approval, Rules, timeout_rules, not_pending, is_blank, ticket_or, decide_approval, new_approval,
  chain_from, escalation_chain, due_roles, evaluate_timeout, expired,
}

-- A decision that was taken.
pub record IsDecided (a : Approval) (approver decision : String) (at : ℕ) (ticket : Option String)
    (d : Approval) : Type 0 where
  pub was_pending : (a.state == "pending") ≡ true
  pub other_person : (approver == a.requested_by) ≡ false
  pub known : (decision == "approved" || decision == "rejected") ≡ true
  pub in_time : at ≤ a.deadline_at
  pub ticketed :
      (a.risk_class == "write.critical") ≡ true
      → (decision == "approved") ≡ true
      → is_blank ticket ≡ false
  pub decided : d ≡ record a {
    state = decision;
    approver = some approver;
    decision = some decision;
    decided_at = some at;
    change_ticket = ticket_or ticket a.change_ticket;
  }

-- A decision that decide_approval accepts is taken on a pending approval, by another person than its
-- requester, not after its deadline, and is "approved" or "rejected"; an approved critical write has
-- a change ticket. The decided record differs from the pending one in the decision's fields only.
pub decide_approval-IsDecided :
    (a : Approval) (approver decision : String) (at : ℕ) (ticket : Option String) (d : Approval)
    → decide_approval a approver decision at ticket ≡ ok d
    → IsDecided a approver decision at ticket d
unfolding decide_approval
decide_approval-IsDecided a approver decision at ticket d h = record {
  was_pending = ground arith;
  other_person = ground arith;
  known = ground arith;
  in_time = ground arith;
  ticketed = ground arith;
  decided = ground arith;
}

rejected_of : (b c : Bool) → b ≡ false → (b || c) ≡ true → c ≡ true
rejected_of b c e h = ground arith

not_pending_text :
    (c : String) → (c == "approved" || c == "rejected") ≡ true → (c == "pending") ≡ false
not_pending_text c h = elim (Bool-cases (c == "approved")) [
  | inl e ↦ ap (λ x. x == "pending") ((eq_iff c "approved").0 e)
  | inr e ↦
      ap (λ x. x == "pending")
        ((eq_iff c "rejected").0 (rejected_of (c == "approved") (c == "rejected") e h))
]

closed :
    (d : Approval) (q e : String) (t : ℕ) (v : Option String)
    → (d.state == "pending") ≡ false
    → decide_approval d q e t v ≡ raised not_pending
unfolding decide_approval
closed d q e t v h = rw h refl

-- An approval that decide_approval has decided is decided for good: any further decision on it is
-- refused because it is not pending.
pub decide_approval-decide_approval :
    (a : Approval) (p q c e : String) (s t : ℕ) (u v : Option String) (d : Approval)
    → decide_approval a p c s u ≡ ok d
    → decide_approval d q e t v ≡ raised not_pending
decide_approval-decide_approval a p q c e s t u v d h =
    let taken = decide_approval-IsDecided a p c s u d h in
    closed d q e t v (ap (λ x. x.state == "pending") taken.decided ∙ not_pending_text c taken.known)

-- What the timeout of an expired approval says.
pub record IsExpired (a : Approval) (as_of : ℕ) (outcome : String) (final : Bool) : Type 0 where
  pub late : a.deadline_at ≤ as_of
  pub denies : outcome ≡ "deny-and-escalate"
  pub denied : final ≡ leb (a.deadline_at + 90 * minute) as_of

chain-final :
    (at as_of : ℕ)
    → (length (due_roles as_of (chain_from at escalation_chain)) =? 3)
      ≡ leb (at + 90 * minute) as_of
unfolding due_roles chain_from
chain-final at as_of = ground arith

rules-deny :
    (risk : String) (r : Rules) → timeout_rules risk ≡ some r → r.on_timeout ≡ "deny-and-escalate"
unfolding timeout_rules
rules-deny risk r h = ground arith

new_approval-IsNew :
    (id casefile tool risk by : String) (now : ℕ) (o : Option Rules) (a : Approval)
    → timeout_rules risk ≡ o
    → new_approval id casefile tool risk by now ≡ ok a
    → (a.risk_class ≡ risk) × (a.chain ≡ chain_from a.deadline_at escalation_chain)
unfolding new_approval
new_approval-IsNew id casefile tool risk by now none a e h = ground arith
new_approval-IsNew id casefile tool risk by now (some r) a e h = (ground arith, ground arith)

expired-final :
    (a : Approval) (as_of : ℕ)
    → a.chain ≡ chain_from a.deadline_at escalation_chain
    → (length (due_roles as_of a.chain) =? length a.chain) ≡ leb (a.deadline_at + 90 * minute) as_of
unfolding chain_from
expired-final a as_of chain =
    ap (λ c. length (due_roles as_of c) =? length c) chain ∙ chain-final a.deadline_at as_of

expired-IsExpired :
    (a : Approval) (as_of : ℕ) (outcome : String) (roles : List String) (final : Bool)
    (o : Option Rules)
    → timeout_rules a.risk_class ≡ o
    → a.chain ≡ chain_from a.deadline_at escalation_chain
    → evaluate_timeout a as_of ≡ ok (expired outcome roles final)
    → IsExpired a as_of outcome final
unfolding evaluate_timeout
expired-IsExpired a as_of outcome roles final none e chain h = ground arith
expired-IsExpired a as_of outcome roles final (some r) e chain h =
    let last = expired-final a as_of chain in
    let denies = rules-deny a.risk_class r e in
    record { late = ground arith; denies = ground arith; denied = ground arith }

-- An approval that new_approval made and that is found expired is past its deadline, its outcome is
-- deny-and-escalate, and the denial is final exactly from 90 minutes after the deadline, when the
-- last role of the escalation chain is due.
pub evaluate_timeout-IsExpired :
    (id casefile tool risk by : String) (now as_of : ℕ) (a : Approval) (outcome : String)
    (roles : List String) (final : Bool)
    → new_approval id casefile tool risk by now ≡ ok a
    → evaluate_timeout a as_of ≡ ok (expired outcome roles final)
    → IsExpired a as_of outcome final
evaluate_timeout-IsExpired id casefile tool risk by now as_of a outcome roles final made h =
    let (_, chain) =
      new_approval-IsNew id casefile tool risk by now (timeout_rules risk) a refl made in
    expired-IsExpired a as_of outcome roles final (timeout_rules a.risk_class) refl chain h
