-- ===== src/Tenant/Service/History/Closed.antt =====
-- A state that no transition leaves is left only by creating the tenant anew.
use observability_kit.Prelude.{
  String, Bool, true, false, Option, some, ◌==◌, ◌≡◌, ap, sym, subst, ◌∙◌, Bool-cases, inl, inr,
  elem, eq_iff, arith,
}
use observability_kit.Prelude.Dict.{lookup, put, lookup-put}
use observability_kit.Json.{Json, str, get_item}
use observability_kit.Tenant.Store.{Store, TenantRecord, load_tenant_record}
use observability_kit.Tenant.Machine.{Machine, Spec, find_spec}
use observability_kit.Tenant.Renders.{Builders}
use observability_kit.Tenant.Service.Gates.{Times}
use observability_kit.Tenant.Service.Transition.{transition}
use observability_kit.Tenant.Service.Crud.{update_tenant, set_legal_hold}
use observability_kit.Tenant.Service.History.{Change, kept, created, updated, held, moved}
use observability_kit.Tenant.Service.History.Changes.{update-Change, hold-Change, transition-Change}

-- A call that is no creation.
pub data Quiet (m : Machine) (b : Builders) (s : Store) : Store → Type 0 where
  updates :
      (t : String) (document : Json) (scope : Option String)
      → Quiet m b s (update_tenant t document scope s).1
  holds : (t : String) (hold : Bool) → Quiet m b s (set_legal_hold t hold s).1
  moves :
      (name t : String) (payload : Json) (scope : Option String) (times : Times)
      → Quiet m b s (transition m b name t payload scope times s).1

pub data Later (m : Machine) (b : Builders) (s : Store) : Store → Type 0 where
  here : Later m b s s
  next : {s₁ s₂ : Store} → Later m b s s₁ → Quiet m b s₁ s₂ → Later m b s s₂

-- No transition of the machine starts in the state.
pub record Closed (m : Machine) (state : String) : Type 0 where
  pub at :
      (name : String) (spec : Spec)
      → find_spec m name ≡ some spec
      → elem state spec.from_states ≡ false

-- The tenant is on record, in the state.
pub record IsIn (s : Store) (t x : String) : Type 0 where
  pub tenant : TenantRecord
  pub stored : load_tenant_record s t ≡ some tenant
  pub state : get_item "lifecycle_state" tenant.document ≡ str x

put-IsIn :
    (s s' : Store) (u t x : String) (r : TenantRecord)
    → IsIn s t x
    → (u ≡ t → get_item "lifecycle_state" r.document ≡ str x)
    → s'.tenants ≡ put u r s.tenants
    → IsIn s' t x
unfolding load_tenant_record
put-IsIn s s' u t x r h new e =
    let at_t = ap (lookup t) e ∙ lookup-put u t r s.tenants in
    elim (Bool-cases (u == t)) [
      | inl same ↦ record { tenant = r; stored = ground arith; state = new ((eq_iff u t).0 same) }
      | inr other ↦
          let stored = h.stored in
          record { tenant = h.tenant; stored = ground arith; state = h.state }
    ]

false-true : false ≡ true → ⊥
false-true h = ground arith

some-record : {q r : TenantRecord} → some q ≡ some r → q ≡ r
some-record h = cc

-- The record that is there is the one in the state.
same_state :
    (s : Store) (u t x : String) (r : TenantRecord)
    → IsIn s t x
    → load_tenant_record s u ≡ some r
    → u ≡ t
    → get_item "lifecycle_state" r.document ≡ str x
same_state s u t x r h found e =
    let same : h.tenant ≡ r =
      some-record (sym h.stored ∙ ap (load_tenant_record s) (sym e) ∙ found) in
    subst (λ q. get_item "lifecycle_state" q.document ≡ str x) same h.state

str-inj : {x y : String} → str x ≡ str y → x ≡ y
str-inj h = cc

Change-IsIn :
    (m : Machine) (s s' : Store) (t x : String)
    → Closed m x
    → Change m false s s'
    → IsIn s t x
    → IsIn s' t x
unfolding load_tenant_record
Change-IsIn m s s' t x shut (kept e) h = record {
  tenant = h.tenant;
  stored = ap (lookup t) e ∙ h.stored;
  state = h.state;
}
Change-IsIn m s s' t x shut (created u fs new free valid named initial e) h =
    absurd (false-true new)
Change-IsIn m s s' t x shut (updated u r fs found valid immutable e) h =
    put-IsIn s s' u t x _ h (λ same. immutable.1.0 x (same_state s u t x r h found same)) e
Change-IsIn m s s' t x shut (held u r hold found e) h =
    put-IsIn s s' u t x _ h (same_state s u t x r h found) e
Change-IsIn m s s' t x shut (moved u name from spec r found is_spec state legal valid e) h =
    put-IsIn s s' u t x _ h
      (λ same.
        let is_x : from ≡ x = str-inj (sym state ∙ same_state s u t x r h found same) in
        absurd (
          false-true (
            sym (shut.at name spec is_spec)
            ∙ ap (λ y. elem y spec.from_states) (sym is_x)
            ∙ legal)))
      e

Quiet-IsIn :
    (m : Machine) (b : Builders) {s s' : Store} (t x : String)
    → Closed m x
    → Quiet m b s s'
    → IsIn s t x
    → IsIn s' t x
Quiet-IsIn m b t x shut (updates u document scope) h =
    Change-IsIn m _ _ t x shut (update-Change m u document scope _) h
Quiet-IsIn m b t x shut (holds u hold) h = Change-IsIn m _ _ t x shut (hold-Change m u hold _) h
Quiet-IsIn m b t x shut (moves name u payload scope times) h =
    Change-IsIn m _ _ t x shut (transition-Change m b name u payload scope times _) h

-- A tenant in a state from which the machine has no transition stays on record, in that state, after
-- any sequence of updates, legal holds and transitions of whatever tenants, whatever they return or
-- raise: only a creation takes its id out of the state.
pub Later-IsIn :
    (m : Machine) (b : Builders) (s s' : Store) (t x : String)
    → Closed m x
    → Later m b s s'
    → IsIn s t x
    → IsIn s' t x
Later-IsIn m b s s' t x shut here h = h
Later-IsIn m b s s' t x shut (next r step) h =
    Quiet-IsIn m b t x shut step (Later-IsIn m b s _ t x shut r h)
