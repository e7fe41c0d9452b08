-- ===== src/Tenant/Service/Records.antt =====
-- What create_tenant and update_tenant store.
use observability_kit.Prelude.{
  String, Bool, true, false, List, [], ◌∷◌, Option, none, some, ◌≡◌, refl, ap, sym, ◌∙◌, arith,
  eq_iff, if◌then◌else◌,
}
use observability_kit.Prelude.Exec.{Exec, Result, ok, raise}
use observability_kit.Json.{Json, str, obj, Fields, get_item, is_text}
use observability_kit.Tenant.Errors.{Exception}
use observability_kit.Tenant.Store.{
  Store, TenantRecord, load_tenant_record, save_tenant_record, clear_transition_records,
}
use observability_kit.Prelude.Dict.{put}
use observability_kit.Tenant.Machine.{Machine}
use observability_kit.Tenant.Request.{text_at}
use observability_kit.Tenant.Document.{validate_tenant_document}
use observability_kit.Tenant.Document.Spec.{IsTenantDocument}
use observability_kit.Tenant.Document.Valid.{object-IsTenantDocument}
use observability_kit.Tenant.Service.Gates.{
  check_tenant_id, check_scope, check_document_identity, require_record,
}
use observability_kit.Tenant.Service.Crud.{
  is_one_of, release_id, create_fields, create_object, create_tenant, same_value, immutable_fields,
  check_immutable, update_document, update_tenant,
}
use observability_kit.Tenant.Service.Legal.{InScope, check_scope-InScope}
use observability_kit.Tenant.Service.Effects.{and_then-ok}

-- A field with a text keeps it.
abbrev pub KeptText : Fields → Fields → String → Type 0
KeptText old new k = (v : String) → get_item k old ≡ str v → get_item k new ≡ str v

abbrev pub AllKept : Fields → Fields → List String → Type 0
AllKept old new [] = Unit
AllKept old new (k ∷ ks) = KeptText old new k × AllKept old new ks

pub is_text-eq : (v : String) (j : Json) → is_text v j ≡ true → j ≡ str v
is_text-eq v (str w) h = ground (arith, eq_iff v w, eq_iff w v)
is_text-eq v _ h = ground arith

same_value-KeptText :
    (old new : Json) (v : String) → same_value old new ≡ true → old ≡ str v → new ≡ str v
same_value-KeptText old new v h e = is_text-eq v new (cc (h, ap (λ j. same_value j new) e))

pub check_immutable-AllKept :
    (t : String) (fs stored : Fields) (ks : List String)
    → check_immutable t fs stored ks ≡ ok tt
    → AllKept stored fs ks
unfolding check_immutable
check_immutable-AllKept t fs stored [] h = tt
check_immutable-AllKept t fs stored (k ∷ ks) h = (
  λ v. same_value-KeptText (get_item k stored) (get_item k fs) v (ground arith),
  check_immutable-AllKept t fs stored ks (ground arith),
)

-- What an accepted update has established.
pub record IsUpdate (t : String) (document : Json) (scope : Option String) (s s' : Store)
    (fs : Fields) : Type 0 where
  pub before : TenantRecord
  pub scoped : InScope scope t
  pub stored : load_tenant_record s t ≡ some before
  pub object : document ≡ obj fs
  pub valid : IsTenantDocument fs
  pub tenant_id : KeptText before.document fs "tenant_id"
  pub lifecycle_state : KeptText before.document fs "lifecycle_state"
  pub created_at : KeptText before.document fs "created_at"
  pub written : s' ≡ save_tenant_record t (record before { document = fs }) s

returned :
    {A : Type 0} (a c : A) (s s' : Store)
    → ◌≡◌ {A = Result Exception A × Store} (ok a, s) (ok c, s')
    → (a ≡ c) × (s ≡ s')
returned a c s s' h = (ground arith, ground arith)

update_document-ok :
    (t : String) (r : TenantRecord) (j : Json) (s s' : Store) (fs : Fields)
    → update_document t r j s ≡ (ok fs, s')
    → (j ≡ obj fs)
      × (validate_tenant_document (obj fs) ≡ ok tt)
      × (check_immutable t fs r.document immutable_fields ≡ ok tt)
      × (s' ≡ save_tenant_record t (record r { document = fs }) s)
unfolding update_document
update_document-ok t r (obj gs) s s' fs h =
    let (_, immutable, h₁) =
      and_then-ok (check_immutable t gs r.document immutable_fields) _ s s' fs h in
    let (_, valid, h₂) = and_then-ok (validate_tenant_document (obj gs)) _ s s' fs h₁ in
    let (same, written) = returned gs fs _ s' h₂ in
    (
      ap obj same,
      cc (valid, ap (λ x. validate_tenant_document (obj x)) same),
      cc (immutable, ap (λ x. check_immutable t x r.document immutable_fields) same),
      sym written ∙ ap (λ x. save_tenant_record t (record r { document = x }) s) same,
    )
update_document-ok t r _ s s' fs h = ground arith

-- An update that returns was in the caller's scope, replaces the document of a tenant that exists
-- with the given one, which is a valid tenant document, and changes nothing else in the store. If the
-- stored tenant_id, lifecycle_state or created_at is a text, the new document has the same text there.
pub update_tenant-IsUpdate :
    (t : String) (document : Json) (scope : Option String) (s s' : Store) (fs : Fields)
    → update_tenant t document scope s ≡ (ok fs, s')
    → IsUpdate t document scope s s' fs
unfolding update_tenant require_record
update_tenant-IsUpdate t document scope s s' fs h =
    let (_, _, h₁) = and_then-ok (check_tenant_id t) _ s s' fs h in
    let (_, scoped, h₂) = and_then-ok (check_scope scope t) _ s s' fs h₁ in
    let (r, required, h₃) = and_then-ok (require_record t s) _ s s' fs h₂ in
    let (_, _, h₄) = and_then-ok (check_document_identity t r.document) _ s s' fs h₃ in
    let (object, valid, immutable, written) = update_document-ok t r document s s' fs h₄ in
    record {
      before = r;
      scoped = check_scope-InScope scope t scoped;
      stored = ground arith;
      object = object;
      valid = object-IsTenantDocument fs valid;
      tenant_id = (check_immutable-AllKept t fs r.document immutable_fields immutable).0;
      lifecycle_state = (check_immutable-AllKept t fs r.document immutable_fields immutable).1.0;
      created_at = (check_immutable-AllKept t fs r.document immutable_fields immutable).1.1.0;
      written = written;
    }

-- The id is free, or its tenant is in a terminal state.
pub data IsFree (m : Machine) (t : String) (s : Store) : Type 0 where
  absent : load_tenant_record s t ≡ none → IsFree m t s
  terminal :
      (r : TenantRecord)
      → load_tenant_record s t ≡ some r
      → is_one_of m.terminal_states (get_item "lifecycle_state" r.document) ≡ true
      → IsFree m t s

-- What an accepted creation has established.
pub record IsCreation (m : Machine) (document : Json) (scope : Option String) (s s' : Store)
    (fs : Fields) : Type 0 where
  pub tenant_id : String
  pub object : document ≡ obj fs
  pub valid : IsTenantDocument fs
  pub named : get_item "tenant_id" fs ≡ str tenant_id
  pub scoped : InScope scope tenant_id
  pub initial : get_item "lifecycle_state" fs ≡ str m.initial_state
  pub free : IsFree m tenant_id s
  pub tenants : s'.tenants ≡ put tenant_id (record { document = fs; legal_hold = false }) s.tenants

release_id-ok :
    (m : Machine) (t : String) (s s' : Store) (o : Option TenantRecord) (x : Unit {0})
    → load_tenant_record s t ≡ o
    → release_id m t o s ≡ (ok x, s')
    → IsFree m t s × (s'.tenants ≡ s.tenants)
unfolding release_id clear_transition_records
release_id-ok m t s s' none x e h = (absent e, ground arith)
release_id-ok m t s s' (some r) x e h = (terminal r e (ground arith), ground arith)

if-ok :
    {A : Type 0} (c : Bool) (m : Exec Exception Store A) (e : Exception) (s s' : Store) (x : A)
    → (if c then m else raise e) s ≡ (ok x, s')
    → (c ≡ true) × (m s ≡ (ok x, s'))
if-ok true m e s s' x h = (refl, h)
if-ok false m e s s' x h = ground arith

pub text_at-str :
    (fs : Fields) (t : String) → text_at fs "tenant_id" ≡ ok t → get_item "tenant_id" fs ≡ str t
unfolding text_at
text_at-str fs t h = ground arith

save-tenants :
    (t : String) (r : TenantRecord) (s₁ s : Store)
    → s₁.tenants ≡ s.tenants
    → (save_tenant_record t r s₁).tenants ≡ put t r s.tenants
unfolding save_tenant_record
save-tenants t r s₁ s h = rw h refl

module _ (m : Machine) where
  create_fields-ok :
      (fs gs : Fields) (scope : Option String) (s s' : Store)
      → validate_tenant_document (obj fs) ≡ ok tt
      → create_fields m fs scope s ≡ (ok gs, s')
      → IsCreation m (obj fs) scope s s' gs
  unfolding create_fields
  create_fields-ok fs gs scope s s' valid h =
      let (t, named, h₁) = and_then-ok (text_at fs "tenant_id") _ s s' gs h in
      let (_, scoped, h₂) = and_then-ok (check_scope scope t) _ s s' gs h₁ in
      let (is_initial, h₃) =
        if-ok (is_text m.initial_state (get_item "lifecycle_state" fs)) _ _ s s' gs h₂ in
      let (x, released, h₄) =
        and_then-ok (release_id m t (load_tenant_record s t) s).0 _
          (release_id m t (load_tenant_record s t) s).1 s' gs h₃ in
      let (same, written) = returned fs gs _ s' h₄ in
      let (free, tenants) =
        release_id-ok m t s (release_id m t (load_tenant_record s t) s).1 (load_tenant_record s t) x
          refl (ground (released, arith)) in
      record {
        tenant_id = t;
        object = ap obj same;
        valid =
            object-IsTenantDocument gs
              (cc (valid, ap (λ y. validate_tenant_document (obj y)) same));
        named = text_at-str gs t (cc (named, ap (λ y. text_at y "tenant_id") same));
        scoped = check_scope-InScope scope t scoped;
        initial = is_text-eq m.initial_state _ (
            cc (is_initial, ap (λ y. is_text m.initial_state (get_item "lifecycle_state" y)) same));
        free = free;
        tenants =
            ap (λ y. y.tenants) (sym written)
            ∙ save-tenants t (record { document = fs; legal_hold = false }) _ s tenants
            ∙ ap (λ y. put t (record { document = y; legal_hold = false }) s.tenants) same;
      }

  -- A creation that returns: the document is valid, in the caller's scope and in the initial state,
  -- its tenant did not exist or was in a terminal state, and it is stored without a legal hold; the
  -- record of no other tenant changes.
  pub create_tenant-IsCreation :
      (document : Json) (scope : Option String) (s s' : Store) (fs : Fields)
      → create_tenant m document scope s ≡ (ok fs, s')
      → IsCreation m document scope s s' fs
  unfolding create_tenant create_object
  create_tenant-IsCreation (obj gs) scope s s' fs h =
      let (_, valid, h₁) = and_then-ok (validate_tenant_document (obj gs)) _ s s' fs h in
      create_fields-ok gs fs scope s s' valid h₁
  create_tenant-IsCreation _ scope s s' fs h = ground arith
