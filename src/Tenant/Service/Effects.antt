-- ===== src/Tenant/Service/Effects.antt =====
-- What the steps of _apply and _replay leave of the records, if they return.
use observability_kit.Prelude.{ℕ, String, false, Option, some, ◌==◌, ◌≡◌, refl, ap, sym, ◌∙◌, arith}
use observability_kit.Prelude.Dict.{Dict, lookup, put, lookup-put, lookup-put_self}
use observability_kit.Prelude.Exec.{Exec, Result, ok, raised, pure, and_then, ◌>>=◌}
use observability_kit.Json.{str, set_item}
use observability_kit.Tenant.Errors.{Exception}
use observability_kit.Tenant.Store.{
  AuditRecord, Store, Completed, TenantRecord, load_tenant_record, load_transition_record,
  save_tenant_record, save_transition_record, append_audit, directory,
}
use observability_kit.Tenant.Audit.{Attempt, emit_audit}
use observability_kit.Tenant.Machine.{Spec}
use observability_kit.Tenant.Request.{Request}
use observability_kit.Tenant.Approval.{ApprovalRecord}
use observability_kit.Tenant.Renders.{Builders}
use observability_kit.Tenant.Service.Extras.{Outcome, RenderRef, audit_extras}
use observability_kit.Tenant.Service.Apply.{with_approval, finish}

-- `m` leaves the stored records, if it returns.
module _ {A B : Type 0} where
  pub and_then-ok :
      (r : Result Exception A) (f : A → Exec Exception Store B) (s s' : Store) (x : B)
      → and_then r f s ≡ (ok x, s')
      → (a : A) × (r ≡ ok a) × (f a s ≡ (ok x, s'))
  and_then-ok (ok a) f s s' x h = (a, refl, h)
  and_then-ok (raised e) f s s' x h = ground arith

pub emit_audit-records :
    (a : Attempt) (s : Store)
    → ((emit_audit a s).1.tenants ≡ s.tenants) × ((emit_audit a s).1.transitions ≡ s.transitions)
unfolding emit_audit append_audit
emit_audit-records a s = (ground arith, ground arith)

-- The tenant's document has the state, and no other tenant's record has changed.
pub record Moved (t to_state : String) (r : TenantRecord) (s s' : Store) : Type 0 where
  pub moved :
      load_tenant_record s' t
      ≡ some (record r { document = set_item "lifecycle_state" (str to_state) r.document })
  pub others : (u : String) → (t == u) ≡ false → load_tenant_record s' u ≡ load_tenant_record s u

put-Moved :
    (t to_state : String) (r : TenantRecord) (s s' : Store)
    → s'.tenants
      ≡ put t
          (record r { document = set_item "lifecycle_state" (str to_state) r.document })
          s.tenants
    → Moved t to_state r s s'
unfolding load_tenant_record
put-Moved t to_state r s s' h = record {
  moved = rw h (lookup-put_self t _ s.tenants);
  others = λ u e. rw h (simp (lookup-put, e));
}

directory-put :
    (t : String) (files : Dict Completed) (d : Dict (Dict Completed))
    → directory t (put t files d) ≡ files
unfolding directory
directory-put t files d = rw (lookup-put_self t files d, directory) refl

-- What the last steps of _apply and _replay do with a store: an audit record, and the result.
abbrev pub audit_and_return :
    {A : Type 0}
    → (A → Attempt)
    → (A → ℕ × AuditRecord → Outcome)
    → A
    → Exec Exception Store Outcome
audit_and_return f g a = do n ← emit_audit (f a); pure (g a n)

pure-same :
    {A : Type 0} (r : Result Exception A) (g : A → Outcome) (s : Store)
    → (and_then r (λ a. pure (g a)) s).1 ≡ s
pure-same (ok a) g s = refl
pure-same (raised e) g s = refl

module _ {A : Type 0} (f : A → Attempt) (g : A → ℕ × AuditRecord → Outcome) where
  pub audit_and_return-records :
      (r : Result Exception A) (s : Store)
      → ((and_then r (audit_and_return f g) s).1.tenants ≡ s.tenants)
        × ((and_then r (audit_and_return f g) s).1.transitions ≡ s.transitions)
  audit_and_return-records (raised e) s = (refl, refl)
  audit_and_return-records (ok a) s =
      let same = pure-same (emit_audit (f a) s).0 (g a) (emit_audit (f a) s).1 in
      let (tenants, transitions) = emit_audit-records (f a) s in
      (ap (λ x. x.tenants) same ∙ tenants, ap (λ x. x.transitions) same ∙ transitions)

module _ (b : Builders) where
  abbrev pub saved :
      Spec → String → TenantRecord → Option ApprovalRecord → Completed → Store → Store
  saved spec t r a c s = save_transition_record t spec.name (with_approval a c) (
      save_tenant_record t
        (record r { document = set_item "lifecycle_state" (str spec.to_state) r.document }) s)

  pub finish-records :
      (spec : Spec) (t : String) (r : TenantRecord) (q : Request) (a : Option ApprovalRecord)
      (from : String) (now : ℕ) (ref : RenderRef) (c : Completed) (s : Store)
      → ((finish b spec t r q a from now ref c s).1.tenants ≡ (saved spec t r a c s).tenants)
        × ((finish b spec t r q a from now ref c s).1.transitions
            ≡ (saved spec t r a c s).transitions)
  unfolding finish
  finish-records spec t r q a from now ref c s =
      audit_and_return-records _ _ (audit_extras q a (with_approval a c) now false)
        (saved spec t r a c s)

  pub saved-Moved :
      (spec : Spec) (t : String) (r : TenantRecord) (a : Option ApprovalRecord) (c : Completed)
      (s s₀ s' : Store)
      → s.tenants ≡ s₀.tenants
      → s'.tenants ≡ (saved spec t r a c s).tenants
      → Moved t spec.to_state r s₀ s'
  unfolding save_tenant_record save_transition_record
  saved-Moved spec t r a c s s₀ s' e h = put-Moved t spec.to_state r s₀ s' (rw (sym e) h)

  pub saved-completed :
      (spec : Spec) (t : String) (r : TenantRecord) (a : Option ApprovalRecord) (c : Completed)
      (s s' : Store)
      → s'.transitions ≡ (saved spec t r a c s).transitions
      → load_transition_record s' t spec.name ≡ some (with_approval a c)
  unfolding save_tenant_record save_transition_record load_transition_record
  saved-completed spec t r a c s s' h =
      let files = directory t s.transitions in
      ap (λ d. lookup spec.name (directory t d)) h
      ∙ ap (lookup spec.name)
          (directory-put t (put spec.name (with_approval a c) files) s.transitions)
      ∙ lookup-put_self spec.name (with_approval a c) files

  pub finish-outcome :
      (spec : Spec) (t : String) (r : TenantRecord) (q : Request) (a : Option ApprovalRecord)
      (from : String) (now : ℕ) (ref : RenderRef) (c : Completed) (s s' : Store) (x : Outcome)
      → finish b spec t r q a from now ref c s ≡ (ok x, s')
      → (x.from_state ≡ from) × (x.lifecycle_state ≡ spec.to_state) × (x.replay ≡ false)
  unfolding finish
  finish-outcome spec t r q a from now ref c s s' x h = (ground arith, ground arith, ground arith)
