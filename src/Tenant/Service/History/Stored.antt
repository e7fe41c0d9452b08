-- ===== src/Tenant/Service/History/Stored.antt =====
-- Every stored document stays valid, filed under its own id, and in a state of the lifecycle.
use observability_kit.Prelude.{
  String, true, some, ◌==◌, ◌≡◌, refl, ap, sym, subst, ◌∙◌, Bool-cases, inl, inr, elem, eq_iff,
  arith, if◌then◌else◌,
}
use observability_kit.Prelude.Dict.{lookup, put, lookup-put}
use observability_kit.Prelude.Exec.{ok}
use observability_kit.Json.{str, obj, get_item}
use observability_kit.Tenant.Store.{Store, TenantRecord, load_tenant_record}
use observability_kit.Tenant.Machine.{Machine, Spec, find_spec}
use observability_kit.Tenant.Document.{validate_tenant_document, lifecycle_states}
use observability_kit.Tenant.Document.Update.{validate-set_state, get_item-set_item_ne}
use observability_kit.Tenant.Renders.{Builders}
use observability_kit.Tenant.Service.History.{
  Reach, here, next, Change, kept, created, updated, held, moved,
}
use observability_kit.Tenant.Service.History.Changes.{Step-Change}

pub record IsStored (t : String) (r : TenantRecord) : Type 0 where
  pub valid : validate_tenant_document (obj r.document) ≡ ok tt
  pub named : get_item "tenant_id" r.document ≡ str t

-- For every tenant on record.
pub record AllStored (s : Store) : Type 0 where
  pub at : (t : String) (r : TenantRecord) → load_tenant_record s t ≡ some r → IsStored t r

-- The machine's transitions end in states that the tenant contract knows.
pub record KnownTargets (m : Machine) : Type 0 where
  pub at :
      (name : String) (spec : Spec)
      → find_spec m name ≡ some spec
      → elem spec.to_state lifecycle_states ≡ true

put-AllStored :
    (s s' : Store) (t : String) (r : TenantRecord)
    → AllStored s
    → IsStored t r
    → s'.tenants ≡ put t r s.tenants
    → AllStored s'
unfolding load_tenant_record
put-AllStored s s' t r h new e = record {
  at = λ u q found.
      let there : (if t == u then some r else lookup u s.tenants) ≡ some q =
        sym (lookup-put t u r s.tenants) ∙ sym (ap (lookup u) e) ∙ found in
      elim (Bool-cases (t == u)) [
        | inl same ↦
            subst (λ v. IsStored v q) ((eq_iff t u).0 same) (subst (IsStored t) (ground arith) new)
        | inr other ↦ h.at u q (ground arith)
      ];
}

Change-AllStored :
    (m : Machine) (s s' : Store) → KnownTargets m → Change m true s s' → AllStored s → AllStored s'
unfolding load_tenant_record
Change-AllStored m s s' known (kept e) h = record {
  at = λ t r found. h.at t r (ap (lookup t) (sym e) ∙ found);
}
Change-AllStored m s s' known (created t fs new free valid named initial e) h =
    put-AllStored s s' t _ h (record { valid = valid; named = named }) e
Change-AllStored m s s' known (updated t r fs found valid immutable e) h =
    put-AllStored s s' t _ h
      (record { valid = valid; named = immutable.0 t (h.at t r found).named }) e
Change-AllStored m s s' known (held t r hold found e) h =
    let old = h.at t r found in
    put-AllStored s s' t _ h (record { valid = old.valid; named = old.named }) e
Change-AllStored m s s' known (moved t name from spec r found is_spec state legal valid e) h =
    put-AllStored s s' t _ h
      (record {
        valid = validate-set_state r.document spec.to_state valid (known.at name spec is_spec);
        named =
            get_item-set_item_ne "lifecycle_state" (str spec.to_state) "tenant_id" r.document refl
            ∙ (h.at t r found).named;
      })
      e

-- After any sequence of calls of the control plane, with whatever results, every stored document is
-- valid and filed under its own tenant_id, if that was so at the start and the machine's transitions
-- end in lifecycle states of the tenant contract.
pub Reach-AllStored :
    (m : Machine) (b : Builders) (s s' : Store)
    → KnownTargets m
    → Reach m b s s'
    → AllStored s
    → AllStored s'
Reach-AllStored m b s s' known here h = h
Reach-AllStored m b s s' known (next r step) h =
    Change-AllStored m _ _ known (Step-Change m b step) (Reach-AllStored m b s _ known r h)
