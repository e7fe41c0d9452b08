-- ===== src/Tenant/Service/History/Changes.antt =====
-- Each call makes one of the changes.
use observability_kit.Prelude.{
  ℕ, String, Bool, true, false, Option, none, some, ◌==◌, ◌≡◌, inl, inr, refl, ◌∙◌, elem, arith,
  Bool-cases, if◌then◌else◌,
}
use observability_kit.Prelude.Dict.{put}
use observability_kit.Prelude.Exec.{Exec, Result, ok, raised, pure, raise, modify, and_then, ◌>>◌}
use observability_kit.Json.{Json, str, obj, Fields, get_item, set_item, is_text}
use observability_kit.Time.{floor_second}
use observability_kit.Tenant.Errors.{Denial, Exception, denied, crashed}
use observability_kit.Tenant.Store.{
  Store, TenantRecord, Completed, load_tenant_record, load_transition_record, save_tenant_record,
  save_transition_record, clear_transition_records,
}
use observability_kit.Tenant.Audit.{emit_audit}
use observability_kit.Tenant.Machine.{Machine, find_spec}
use observability_kit.Tenant.Request.{text_at}
use observability_kit.Tenant.Document.{validate_tenant_document}
use observability_kit.Tenant.Renders.{Builders}
use observability_kit.Tenant.Service.Gates.{
  Times, check_tenant_id, check_scope, check_document_identity, check_preconditions, require_record,
}
use observability_kit.Tenant.Service.Extras.{Outcome, audit_extras}
use observability_kit.Tenant.Service.Apply.{apply, apply_named}
use observability_kit.Tenant.Service.Replay.{replay, replay_named}
use observability_kit.Tenant.Service.Transition.{
  Admitted, admit, apply_if_legal, dispatch, transition_inner, on_denial, audit_denial,
  denial_attempt, audited, transition,
}
use observability_kit.Tenant.Service.Crud.{
  release_id, create_fields, create_object, create_tenant, check_immutable, immutable_fields,
  update_document, update_tenant, set_legal_hold, is_one_of,
}
use observability_kit.Tenant.Service.Keeps.{apply_named-KeepsRecords, replay_named-KeepsRecords}
use observability_kit.Tenant.Service.Effects.{
  emit_audit-records, audit_and_return-records, finish-records, saved,
}
use observability_kit.Tenant.Service.Legal.{admit-IsAdmitted}
use observability_kit.Tenant.Service.Records.{
  text_at-str, is_text-eq, check_immutable-AllKept, absent, terminal,
}
use observability_kit.Tenant.Service.History.{
  Step, creates, updates, holds, moves, Change, kept, created, updated, held, moved,
}

-- A check that raises leaves the store; one that passes goes on.
module _ {A B : Type 0} (P : Store → Type 0) where
  after_check :
      (r : Result Exception A) (f : A → Exec Exception Store B) (s : Store)
      → P s
      → ((a : A) → r ≡ ok a → P (f a s).1)
      → P (and_then r f s).1
  after_check (ok a) f s p k = k a refl
  after_check (raised e) f s p k = p

  -- The store that `m` leaves, and what follows.
  after_run :
      (r : Result Exception A) (f : A → Exec Exception Store B) (s : Store)
      → P s
      → ((a : A) → P (f a s).1)
      → P (and_then r f s).1
  after_run (ok a) f s p k = k a
  after_run (raised e) f s p k = p

required :
    (t : String) (s : Store) (r : TenantRecord)
    → require_record t s ≡ ok r
    → load_tenant_record s t ≡ some r
unfolding require_record
required t s r h = ground arith

module _ (m : Machine) where
  pub hold-Change :
      (t : String) (hold : Bool) (s : Store) → Change m false s (set_legal_hold t hold s).1
  unfolding set_legal_hold save_tenant_record
  hold-Change t hold s = after_check (Change m false s) (check_tenant_id t) _ s (kept refl) λ _ _.
      after_check (Change m false s) (require_record t s) _ s (kept refl)
        λ r h. held t r hold (required t s r h) refl

  update_document-Change :
      (t : String) (r : TenantRecord) (j : Json) (s : Store)
      → load_tenant_record s t ≡ some r
      → Change m false s (update_document t r j s).1
  unfolding update_document save_tenant_record
  update_document-Change t r (obj fs) s found =
      after_check (Change m false s) (check_immutable t fs r.document immutable_fields) _ s
        (kept refl)
        λ _ immutable.
          after_check (Change m false s) (validate_tenant_document (obj fs)) _ s (kept refl)
            λ _ valid.
              updated t r fs found valid
                (check_immutable-AllKept t fs r.document immutable_fields immutable) refl
  update_document-Change t r _ s found = kept refl

  pub update-Change :
      (t : String) (document : Json) (scope : Option String) (s : Store)
      → Change m false s (update_tenant t document scope s).1
  unfolding update_tenant
  update-Change t document scope s =
      after_check (Change m false s) (check_tenant_id t) _ s (kept refl) λ _ _.
        after_check (Change m false s) (check_scope scope t) _ s (kept refl) λ _ _.
          after_check (Change m false s) (require_record t s) _ s (kept refl) λ r h.
            after_check (Change m false s) (check_document_identity t r.document) _ s (kept refl)
              λ _ _. update_document-Change t r document s (required t s r h)

  -- What create_fields does after its checks.
  abbrev store_new : String → Fields → Exec Exception Store (Unit {0}) → Exec Exception Store Fields
  store_new t fs release = do
    release
    modify (save_tenant_record t (record { document = fs; legal_hold = false }))
    pure fs

  module _ (t : String) (fs : Fields) (s : Store)
      (valid : validate_tenant_document (obj fs) ≡ ok tt) (named : get_item "tenant_id" fs ≡ str t)
      (initial : get_item "lifecycle_state" fs ≡ str m.initial_state) where
    released-Change :
        (c : Bool) (r : TenantRecord) (e : Exception)
        → load_tenant_record s t ≡ some r
        → is_one_of m.terminal_states (get_item "lifecycle_state" r.document) ≡ c
        → Change m true s
            (store_new t fs (if c then modify (clear_transition_records t) else raise e) s).1
    unfolding save_tenant_record clear_transition_records
    released-Change true r e found ended =
        created t fs refl (terminal r found ended) valid named initial refl
    released-Change false r e found going = kept refl

    release-Change :
        (o : Option TenantRecord)
        → load_tenant_record s t ≡ o
        → Change m true s (store_new t fs (release_id m t o) s).1
    unfolding release_id save_tenant_record
    release-Change none e = created t fs refl (absent e) valid named initial refl
    release-Change (some r) e =
        released-Change (is_one_of m.terminal_states (get_item "lifecycle_state" r.document)) r _ e
          refl

  if-Change :
      {A : Type 0} {new : Bool} (c : Bool) (run : Exec Exception Store A) (e : Exception)
      (s : Store)
      → (c ≡ true → Change m new s (run s).1)
      → Change m new s ((if c then run else raise e) s).1
  if-Change true run e s h = h refl
  if-Change false run e s h = kept refl

  create_fields-Change :
      (fs : Fields) (scope : Option String) (s : Store)
      → validate_tenant_document (obj fs) ≡ ok tt
      → Change m true s (create_fields m fs scope s).1
  unfolding create_fields
  create_fields-Change fs scope s valid =
      after_check (Change m true s) (text_at fs "tenant_id") _ s (kept refl) λ t named.
        after_check (Change m true s) (check_scope scope t) _ s (kept refl) λ _ _.
          if-Change (is_text m.initial_state (get_item "lifecycle_state" fs)) _ _ s λ is_initial.
            release-Change t fs s valid (text_at-str fs t named)
              (is_text-eq m.initial_state _ is_initial) (load_tenant_record s t) refl

  create-Change :
      (document : Json) (scope : Option String) (s : Store)
      → Change m true s (create_tenant m document scope s).1
  unfolding create_tenant create_object
  create-Change (obj fs) scope s =
      after_check (Change m true s) (validate_tenant_document (obj fs)) _ s (kept refl)
        λ _ valid. create_fields-Change fs scope s valid
  create-Change j scope s =
      after_check (Change m true s) (validate_tenant_document j) _ s (kept refl) λ _ _. kept refl

saved-tenants :
    (b : Builders) (a : Admitted) (c : Completed) (t : String) (s s₀ : Store)
    → s.tenants ≡ s₀.tenants
    → (saved b a.spec t a.tenant a.approval c s).tenants
      ≡ put t
          (record a.tenant {
            document = set_item "lifecycle_state" (str a.spec.to_state) a.tenant.document;
          })
          s₀.tenants
unfolding save_tenant_record save_transition_record
saved-tenants b a c t s s₀ h = rw h refl

audit_denial-tenants :
    (name t : String) (payload : Json) (now : ℕ) (d : Denial) (s : Store)
    → (audit_denial name t payload now d s).1.tenants ≡ s.tenants
unfolding audit_denial
audit_denial-tenants name t payload now d s =
    let emitted = emit_audit (denial_attempt name t payload now d) s in
    after_run (λ s'. s'.tenants ≡ s.tenants) emitted.0 _ emitted.1
      (emit_audit-records (denial_attempt name t payload now d) s).0
      (λ _. (emit_audit-records (denial_attempt name t payload now d) s).0)

-- A change to a store with the same records.
Change-same :
    {m : Machine} {new : Bool} {s s₁ s₂ : Store}
    → s₂.tenants ≡ s₁.tenants
    → Change m new s s₁
    → Change m new s s₂
Change-same e (kept h) = kept (e ∙ h)
Change-same e (created t fs new free valid named initial h) =
    created t fs new free valid named initial (e ∙ h)
Change-same e (updated t r fs found valid immutable h) =
    updated t r fs found valid immutable (e ∙ h)
Change-same e (held t r hold found h) = held t r hold found (e ∙ h)
Change-same e (moved t name from spec r stored found state legal valid h) =
    moved t name from spec r stored found state legal valid (e ∙ h)

module _ (m : Machine) (b : Builders) where
  apply-Change :
      (name t : String) (a : Admitted) (times : Times) (s : Store)
      → find_spec m name ≡ some a.spec
      → load_tenant_record s t ≡ some a.tenant
      → validate_tenant_document (obj a.tenant.document) ≡ ok tt
      → get_item "lifecycle_state" a.tenant.document ≡ str a.state
      → elem a.state a.spec.from_states ≡ true
      → Change m false s (apply b a.spec t a.tenant a.request a.approval a.state times s).1
  unfolding apply
  apply-Change name t a times s spec stored valid state legal =
      let named = apply_named b a.spec t a.tenant a.request times in
      let same = (apply_named-KeepsRecords b a.spec t a.tenant a.request times).at s in
      after_check (Change m false s) (check_preconditions a.spec t a.tenant times.checked s) _ s
        (kept refl)
        λ _ _. after_run (Change m false s) (named s).0 _ (named s).1 (kept same.tenants) λ x.
          moved t name a.state a.spec a.tenant stored spec state legal valid (
            (finish-records b a.spec t a.tenant a.request a.approval a.state
              (floor_second times.started) x.0 x.1 (named s).1).0
            ∙ saved-tenants b a x.1 t (named s).1 s same.tenants)

  replay-Change :
      (t : String) (a : Admitted) (c : Completed) (times : Times) (s : Store)
      → Change m false s (replay b a.spec t a.tenant.document a.request a.approval c times s).1
  unfolding replay
  replay-Change t a c times s =
      let named = replay_named b a.spec t a.tenant.document in
      let same = (replay_named-KeepsRecords b a.spec t a.tenant.document).at s in
      after_run (Change m false s) (named s).0 _ (named s).1 (kept same.tenants) λ ref. kept (
        (audit_and_return-records _ _
          (audit_extras a.request a.approval c (floor_second times.started) true) (named s).1).0
        ∙ same.tenants)

  dispatch-Change :
      (t : String) (a : Admitted) (times : Times) (c : Option Completed) (s : Store)
      → (elem a.state a.spec.from_states ≡ true
          → Change m false s (apply b a.spec t a.tenant a.request a.approval a.state times s).1)
      → Change m false s (dispatch m b t a times c s).1
  unfolding dispatch apply_if_legal
  dispatch-Change t a times none s h = if-Change m (elem a.state a.spec.from_states) _ _ s h
  dispatch-Change t a times (some c) s h = elim (Bool-cases (a.state == a.spec.to_state)) [
    | inl e ↦ rw e (replay-Change t a c times s)
    | inr e ↦ rw e (if-Change m (elem a.state a.spec.from_states) _ _ s h)
  ]

  inner-Change :
      (name t : String) (payload : Json) (scope : Option String) (times : Times) (s : Store)
      → Change m false s (transition_inner m b name t payload scope times s).1
  unfolding transition_inner
  inner-Change name t payload scope times s =
      after_check (Change m false s) (admit m name t payload scope times s) _ s (kept refl)
        λ a admitted.
          let h = admit-IsAdmitted m name t payload scope times s a admitted in
          dispatch-Change t a times (load_transition_record s t name) s
            (λ legal. apply-Change name t a times s h.spec h.stored h.valid h.state legal)

  -- What the except clause adds is an audit record.
  denial-Change :
      (r : Result Exception Outcome) (f : Denial → Exec Exception Store Outcome) (s s' : Store)
      → Change m false s s'
      → ((d : Denial) → (f d s').1.tenants ≡ s'.tenants)
      → Change m false s (on_denial r f s').1
  denial-Change (ok x) f s s' h k = h
  denial-Change (raised (denied d)) f s s' h k = Change-same (k d) h
  denial-Change (raised (crashed c)) f s s' h k = h

  pub transition-Change :
      (name t : String) (payload : Json) (scope : Option String) (times : Times) (s : Store)
      → Change m false s (transition m b name t payload scope times s).1
  unfolding transition audited
  transition-Change name t payload scope times s =
      let inner = transition_inner m b name t payload scope times s in
      after_check (Change m false s) (check_tenant_id t) _ s (kept refl) λ _ _.
        denial-Change inner.0 _ s inner.1 (inner-Change name t payload scope times s)
          (λ d. audit_denial-tenants name t payload times.denied d inner.1)

  any : {s s' : Store} → Change m false s s' → Change m true s s'
  any (kept h) = kept h
  any (created t fs new free valid named initial h) = created t fs refl free valid named initial h
  any (updated t r fs found valid immutable h) = updated t r fs found valid immutable h
  any (held t r hold found h) = held t r hold found h
  any (moved t name from spec r stored found state legal valid h) =
      moved t name from spec r stored found state legal valid h

  -- Every call makes at most one of the changes to the records of the tenants.
  pub Step-Change : {s s' : Store} → Step m b s s' → Change m true s s'
  Step-Change (creates document scope) = create-Change m document scope _
  Step-Change (updates t document scope) = any (update-Change m t document scope _)
  Step-Change (holds t hold) = any (hold-Change m t hold _)
  Step-Change (moves name t payload scope times) =
      any (transition-Change name t payload scope times _)
