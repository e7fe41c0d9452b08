-- ===== src/Tenant/Service/Applied.antt =====
-- What a transition that returns has done: it was applied from a legal state, or replayed.
use observability_kit.Prelude.{
  ℕ, String, true, false, Option, none, some, ◌==◌, ◌≡◌, ◌⊎◌, inl, inr, refl, ap, sym, ◌∙◌, elem,
  arith, Bool-cases, eq_iff,
}
use observability_kit.Prelude.Exec.{Exec, Result, ok, raised}
use observability_kit.Json.{Json, Fields}
use observability_kit.Time.{floor_second}
use observability_kit.Tenant.Errors.{Denial, Exception, denied, crashed}
use observability_kit.Tenant.Store.{Store, Completed, load_transition_record}
use observability_kit.Tenant.Machine.{Machine, Spec}
use observability_kit.Tenant.Request.{Request}
use observability_kit.Tenant.Approval.{ApprovalRecord}
use observability_kit.Tenant.Renders.{Builders}
use observability_kit.Tenant.Service.Gates.{Times, check_tenant_id, check_preconditions}
use observability_kit.Tenant.Service.Extras.{Outcome, audit_extras}
use observability_kit.Tenant.Service.Apply.{with_approval, apply, apply_named}
use observability_kit.Tenant.Service.Replay.{replay, replay_named}
use observability_kit.Tenant.Service.Transition.{
  Admitted, admit, apply_if_legal, dispatch, transition_inner, on_denial, audit_denial, audited,
  transition,
}
use observability_kit.Tenant.Service.Keeps.{apply_named-KeepsRecords, replay_named-KeepsRecords}
use observability_kit.Tenant.Service.Legal.{IsAdmitted, admit-IsAdmitted}
use observability_kit.Tenant.Service.Effects.{
  Moved, and_then-ok, audit_and_return-records, finish-records, saved-Moved, saved-completed,
  finish-outcome,
}

module _ (b : Builders) where
  -- The records before and after an applied transition.
  pub record IsApplied (t : String) (a : Admitted) (times : Times) (s s' : Store) (x : Outcome)
      : Type 0 where
    pub legal : elem a.state a.spec.from_states ≡ true
    pub preconditions : check_preconditions a.spec t a.tenant times.checked s ≡ ok tt
    pub moved : Moved t a.spec.to_state a.tenant s s'
    pub completed :
        (c : Completed) × (load_transition_record s' t a.spec.name
          ≡ some (with_approval a.approval c))
    pub outcome :
        (x.from_state ≡ a.state) × (x.lifecycle_state ≡ a.spec.to_state) × (x.replay ≡ false)

  apply-IsApplied :
      (t : String) (a : Admitted) (times : Times) (s s' : Store) (x : Outcome)
      → elem a.state a.spec.from_states ≡ true
      → apply b a.spec t a.tenant a.request a.approval a.state times s ≡ (ok x, s')
      → IsApplied t a times s s' x
  unfolding apply
  apply-IsApplied t a times s s' x legal h =
      let now = floor_second times.started in
      let named = apply_named b a.spec t a.tenant a.request times in
      let (_, checked, h₁) =
        and_then-ok (check_preconditions a.spec t a.tenant times.checked s) _ s s' x h in
      let ((ref, c), _, h₂) = and_then-ok (named s).0 _ (named s).1 s' x h₁ in
      let same = (apply_named-KeepsRecords b a.spec t a.tenant a.request times).at s in
      let (tenants, transitions) =
        finish-records b a.spec t a.tenant a.request a.approval a.state now ref c (named s).1 in
      record {
        legal = legal;
        preconditions = checked;
        moved =
            saved-Moved b a.spec t a.tenant a.approval c (named s).1 s s' same.tenants
              (ap (λ p. p.1.tenants) (sym h₂) ∙ tenants);
        completed = (
          c,
          saved-completed b a.spec t a.tenant a.approval c (named s).1 s'
              (ap (λ p. p.1.transitions) (sym h₂) ∙ transitions),
        );
        outcome =
            finish-outcome b a.spec t a.tenant a.request a.approval a.state now ref c (named s).1 s'
              x h₂;
      }

  -- The records before and after a replayed transition.
  pub record IsReplayed (t : String) (a : Admitted) (s s' : Store) (x : Outcome) : Type 0 where
    pub state : a.state ≡ a.spec.to_state
    pub tenants : s'.tenants ≡ s.tenants
    pub transitions : s'.transitions ≡ s.transitions
    pub outcome :
        (x.from_state ≡ a.spec.to_state) × (x.lifecycle_state ≡ a.spec.to_state) × (x.replay ≡ true)

  replay-outcome :
      (spec : Spec) (t : String) (fs : Fields) (q : Request) (a : Option ApprovalRecord)
      (c : Completed) (times : Times) (s s' : Store) (x : Outcome)
      → replay b spec t fs q a c times s ≡ (ok x, s')
      → (x.from_state ≡ spec.to_state) × (x.lifecycle_state ≡ spec.to_state) × (x.replay ≡ true)
  unfolding replay
  replay-outcome spec t fs q a c times s s' x h = (ground arith, ground arith, ground arith)

  replay-records :
      (spec : Spec) (t : String) (fs : Fields) (q : Request) (a : Option ApprovalRecord)
      (c : Completed) (times : Times) (s s' : Store) (x : Outcome)
      → replay b spec t fs q a c times s ≡ (ok x, s')
      → (s'.tenants ≡ s.tenants) × (s'.transitions ≡ s.transitions)
  unfolding replay
  replay-records spec t fs q a c times s s' x h =
      let named = replay_named b spec t fs in
      let (ref, _, h₁) = and_then-ok (named s).0 _ (named s).1 s' x h in
      let same = (replay_named-KeepsRecords b spec t fs).at s in
      let (tenants, transitions) =
        audit_and_return-records _ _ (audit_extras q a c (floor_second times.started) true)
          (named s).1 in
      (
        ap (λ p. p.1.tenants) (sym h₁) ∙ tenants ∙ same.tenants,
        ap (λ p. p.1.transitions) (sym h₁) ∙ transitions ∙ same.transitions,
      )

module _ (m : Machine) (b : Builders) where
  apply_if_legal-IsApplied :
      (t : String) (a : Admitted) (times : Times) (s s' : Store) (x : Outcome)
      → apply_if_legal m b t a times s ≡ (ok x, s')
      → IsApplied b t a times s s' x
  unfolding apply_if_legal
  apply_if_legal-IsApplied t a times s s' x h =
      elim (Bool-cases (elem a.state a.spec.from_states)) [
        | inl e ↦ apply-IsApplied b t a times s s' x e (ground arith)
        | inr e ↦ ground arith
      ]

  replayed :
      (t : String) (a : Admitted) (c : Completed) (times : Times) (s s' : Store) (x : Outcome)
      → a.state ≡ a.spec.to_state
      → replay b a.spec t a.tenant.document a.request a.approval c times s ≡ (ok x, s')
      → IsReplayed b t a s s' x
  replayed t a c times s s' x e h =
      let (tenants, transitions) =
        replay-records b a.spec t a.tenant.document a.request a.approval c times s s' x h in
      record {
        state = e;
        tenants = tenants;
        transitions = transitions;
        outcome = replay-outcome b a.spec t a.tenant.document a.request a.approval c times s s' x h;
      }

  dispatch-cases :
      (t : String) (a : Admitted) (times : Times) (c : Option Completed) (s s' : Store)
      (x : Outcome)
      → dispatch m b t a times c s ≡ (ok x, s')
      → IsApplied b t a times s s' x ⊎ (((d : Completed) × (c ≡ some d)) × IsReplayed b t a s s' x)
  unfolding dispatch
  dispatch-cases t a times none s s' x h = inl (apply_if_legal-IsApplied t a times s s' x h)
  dispatch-cases t a times (some c) s s' x h = elim (Bool-cases (a.state == a.spec.to_state)) [
    | inl e ↦ inr (
      (c, refl),
      replayed t a c times s s' x ((eq_iff a.state a.spec.to_state).0 e) (ground arith),
    )
    | inr e ↦ inl (apply_if_legal-IsApplied t a times s s' x (ground arith))
  ]

  audit_denial-raises :
      (name t : String) (payload : Json) (now : ℕ) (d : Denial) (s s' : Store) (x : Outcome)
      → ¬ (audit_denial name t payload now d s ≡ (ok x, s'))
  unfolding audit_denial
  audit_denial-raises name t payload now d s s' x = ground arith

  -- on_denial returns only what the code inside returns.
  on_denial-ok :
      (r : Result Exception Outcome) (f : Denial → Exec Exception Store Outcome) (s s' : Store)
      (x : Outcome)
      → ((d : Denial) → ¬ (f d s ≡ (ok x, s')))
      → on_denial r f s ≡ (ok x, s')
      → ◌≡◌ {A = Result Exception Outcome × Store} (r, s) (ok x, s')
  on_denial-ok (ok y) f s s' x k h = h
  on_denial-ok (raised (denied d)) f s s' x k h = absurd (k d h)
  on_denial-ok (raised (crashed c)) f s s' x k h = h

  transition-inner :
      (name t : String) (payload : Json) (scope : Option String) (times : Times) (s s' : Store)
      (x : Outcome)
      → transition m b name t payload scope times s ≡ (ok x, s')
      → transition_inner m b name t payload scope times s ≡ (ok x, s')
  unfolding transition audited
  transition-inner name t payload scope times s s' x h =
      let inner = transition_inner m b name t payload scope times s in
      let (_, _, h₁) = and_then-ok (check_tenant_id t) _ s s' x h in
      on_denial-ok inner.0 (audit_denial name t payload times.denied) inner.1 s' x
        (λ d. audit_denial-raises name t payload times.denied d inner.1 s' x) h₁

  -- A transition that returns has been admitted: its caller is in scope, its request is well-formed,
  -- the tenant's stored document is valid and its state is one of the machine's, and a transition with a risk class
  -- has a valid approval record. It was then applied or replayed. Applied, the state is one from
  -- which the transition is legal, its preconditions hold, the stored document has the end state,
  -- the completed transition is recorded and no other tenant's record has changed. Replayed, the
  -- state is the end state already, the transition was recorded as completed before, and the
  -- records of all tenants and of all completed transitions are as before.
  pub transition-IsAdmitted :
      (name t : String) (payload : Json) (scope : Option String) (times : Times) (s s' : Store)
      (x : Outcome)
      → transition m b name t payload scope times s ≡ (ok x, s')
      → (a : Admitted) × IsAdmitted m name t payload scope times s a
        × (IsApplied b t a times s s' x
            ⊎ (((c : Completed) × (load_transition_record s t name ≡ some c))
                × IsReplayed b t a s s' x))
  unfolding transition_inner
  transition-IsAdmitted name t payload scope times s s' x h =
      let (a, admitted, h₁) =
        and_then-ok (admit m name t payload scope times s) _ s s' x
          (transition-inner name t payload scope times s s' x h) in
      (
        a,
        admit-IsAdmitted m name t payload scope times s a admitted,
        dispatch-cases t a times (load_transition_record s t name) s s' x h₁,
      )
