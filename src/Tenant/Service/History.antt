-- ===== src/Tenant/Service/History.antt =====
-- The control plane over time: the calls of its operations, in any order and with any result, as
-- steps between stores.
use observability_kit.Prelude.{
  String, Bool, true, false, Option, some, ◌==◌, ◌≡◌, refl, ap, elem, if◌then◌else◌,
}
use observability_kit.Prelude.Dict.{put}
use observability_kit.Prelude.Exec.{ok}
use observability_kit.Json.{Json, str, obj, Fields, get_item, set_item}
use observability_kit.Tenant.Store.{Store, TenantRecord, load_tenant_record}
use observability_kit.Tenant.Machine.{Machine, Spec, find_spec}
use observability_kit.Tenant.Document.{validate_tenant_document}
use observability_kit.Tenant.Renders.{Builders}
use observability_kit.Tenant.Service.Gates.{Times}
use observability_kit.Tenant.Service.Transition.{transition}
use observability_kit.Tenant.Service.Crud.{
  create_tenant, update_tenant, set_legal_hold, immutable_fields,
}
use observability_kit.Tenant.Service.Records.{AllKept, IsFree}
pub mod Changes
pub mod Stored
pub mod Closed

-- One call, whatever it returns or raises.
pub data Step (m : Machine) (b : Builders) (s : Store) : Store → Type 0 where
  creates :
      (document : Json) (scope : Option String) → Step m b s (create_tenant m document scope s).1
  updates :
      (t : String) (document : Json) (scope : Option String)
      → Step m b s (update_tenant t document scope s).1
  holds : (t : String) (hold : Bool) → Step m b s (set_legal_hold t hold s).1
  moves :
      (name t : String) (payload : Json) (scope : Option String) (times : Times)
      → Step m b s (transition m b name t payload scope times s).1

pub data Reach (m : Machine) (b : Builders) (s : Store) : Store → Type 0 where
  here : Reach m b s s
  next : {s₁ s₂ : Store} → Reach m b s s₁ → Step m b s₁ s₂ → Reach m b s s₂

-- What one call does to the records of the tenants.
-- `creates_any` is false of the calls that create no tenant.
pub data Change (m : Machine) (creates_any : Bool) (s s' : Store) : Type 0 where
  kept : s'.tenants ≡ s.tenants → Change m creates_any s s'
  created :
      (t : String) (fs : Fields)
      → creates_any ≡ true
      → IsFree m t s
      → validate_tenant_document (obj fs) ≡ ok tt
      → get_item "tenant_id" fs ≡ str t
      → get_item "lifecycle_state" fs ≡ str m.initial_state
      → s'.tenants ≡ put t (record { document = fs; legal_hold = false }) s.tenants
      → Change m creates_any s s'
  updated :
      (t : String) (r : TenantRecord) (fs : Fields)
      → load_tenant_record s t ≡ some r
      → validate_tenant_document (obj fs) ≡ ok tt
      → AllKept r.document fs immutable_fields
      → s'.tenants ≡ put t (record r { document = fs }) s.tenants
      → Change m creates_any s s'
  held :
      (t : String) (r : TenantRecord) (hold : Bool)
      → load_tenant_record s t ≡ some r
      → s'.tenants ≡ put t (record r { legal_hold = hold }) s.tenants
      → Change m creates_any s s'
  moved :
      (t name from : String) (spec : Spec) (r : TenantRecord)
      → load_tenant_record s t ≡ some r
      → find_spec m name ≡ some spec
      → get_item "lifecycle_state" r.document ≡ str from
      → elem from spec.from_states ≡ true
      → validate_tenant_document (obj r.document) ≡ ok tt
      → s'.tenants
        ≡ put t
            (record r { document = set_item "lifecycle_state" (str spec.to_state) r.document })
            s.tenants
      → Change m creates_any s s'
