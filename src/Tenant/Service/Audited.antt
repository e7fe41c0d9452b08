-- ===== src/Tenant/Service/Audited.antt =====
-- Every denied transition is audited, and changes nothing else.
use observability_kit.Prelude.{
  suc, String, Bool, true, false, Option, none, some, ◌==◌, ◌≡◌, refl, ap, ◌∙◌, length, arith,
  Bool-cases, inl, inr, eq_iff, if◌then◌else◌,
}
use observability_kit.Tenant.Service.Extras.{Outcome}
use observability_kit.Prelude.Exec.{Exec, Result, ok, raised, raise, lift, and_then, ◌>>=◌}
use observability_kit.Json.{Json}
use observability_kit.Regex.Patterns.{is_tenant_id}
use observability_kit.Tenant.Errors.{Denial, Exception, denied}
use observability_kit.Tenant.Store.{
  Store, Completed, TenantRecord, AuditRecord, write_audit, append_audit, load_transition_record,
}
use observability_kit.Tenant.Audit.{emit_audit, build_record}
use observability_kit.Tenant.Machine.{Machine, Spec}
use observability_kit.Tenant.Request.{Request}
use observability_kit.Tenant.Approval.{ApprovalRecord}
use observability_kit.Tenant.Renders.{Builders}
use observability_kit.Tenant.Service.Gates.{Times, check_tenant_id}
use observability_kit.Tenant.Service.Apply.{apply}
use observability_kit.Tenant.Service.Transition.{
  Admitted, admit, apply_if_legal, dispatch, transition_inner, denial_attempt, tenant_or,
  audit_denial, audited, transition,
}
use observability_kit.Tenant.Service.Denials.{
  NeverDenies, NeverDenies-bind, apply_named-NeverDenies, finish-NeverDenies, replay-NeverDenies,
}
use observability_kit.Tenant.Service.DenialRecord.{
  denial_record, build_record-denial, verify-denial,
}

-- Where `m` raises a ControlPlaneError it has written nothing.
pub record DenialKeeps {A : Type 0} (m : Exec Exception Store A) : Type 0 where
  pub at : (s : Store) (d : Denial) → (m s).0 ≡ raised (denied d) → (m s).1 ≡ s

module _ {A B : Type 0} where
  after-DenialKeeps :
      (r : Result Exception A) (f : A → Exec Exception Store B) (s : Store) (d : Denial)
      → ((a : A) → DenialKeeps (f a))
      → (and_then r f s).0 ≡ raised (denied d)
      → (and_then r f s).1 ≡ s
  after-DenialKeeps (ok a) f s d k h = (k a).at s d h
  after-DenialKeeps (raised e) f s d k h = refl

  -- A check that reads the store, and then `f`.
  DenialKeeps-check :
      (r : Store → Result Exception A) (f : A → Exec Exception Store B)
      → ((a : A) → DenialKeeps (f a))
      → DenialKeeps ((λ s. lift (r s) s) >>= f)
  DenialKeeps-check r f k = record { at = λ s d h. after-DenialKeeps (r s) f s d k h }

module _ {A : Type 0} where
  NeverDenies-DenialKeeps : (m : Exec Exception Store A) → NeverDenies m → DenialKeeps m
  NeverDenies-DenialKeeps m h = record { at = λ s d e. absurd ((h.at s).at d e) }

  DenialKeeps-raise : (e : Exception) → DenialKeeps {A = A} (raise e)
  DenialKeeps-raise e = record { at = λ s d h. refl }

  DenialKeeps-if :
      (b : Bool) (m n : Exec Exception Store A)
      → DenialKeeps m
      → DenialKeeps n
      → DenialKeeps (if b then m else n)
  DenialKeeps-if true m n h k = h
  DenialKeeps-if false m n h k = k

module _ (m : Machine) (b : Builders) where
  apply-DenialKeeps :
      (spec : Spec) (t : String) (r : TenantRecord) (q : Request) (a : Option ApprovalRecord)
      (from : String) (times : Times)
      → DenialKeeps (apply b spec t r q a from times)
  unfolding apply
  apply-DenialKeeps spec t r q a from times = DenialKeeps-check _ _ λ _. NeverDenies-DenialKeeps _ (
      NeverDenies-bind _ _ (apply_named-NeverDenies b spec t r q times)
        (λ x. finish-NeverDenies b spec t r q a from _ x.0 x.1))

  apply_if_legal-DenialKeeps :
      (t : String) (a : Admitted) (times : Times) → DenialKeeps (apply_if_legal m b t a times)
  unfolding apply_if_legal
  apply_if_legal-DenialKeeps t a times =
      DenialKeeps-if _ _ _ (apply-DenialKeeps a.spec t a.tenant a.request a.approval a.state times)
        (DenialKeeps-raise _)

  dispatch-DenialKeeps :
      (t : String) (a : Admitted) (times : Times) (c : Option Completed)
      → DenialKeeps (dispatch m b t a times c)
  unfolding dispatch
  dispatch-DenialKeeps t a times none = apply_if_legal-DenialKeeps t a times
  dispatch-DenialKeeps t a times (some c) =
      DenialKeeps-if _ _ _
        (NeverDenies-DenialKeeps _
          (replay-NeverDenies b a.spec t a.tenant.document a.request a.approval c times))
        (apply_if_legal-DenialKeeps t a times)

  transition_inner-DenialKeeps :
      (name t : String) (payload : Json) (scope : Option String) (times : Times)
      → DenialKeeps (transition_inner m b name t payload scope times)
  unfolding transition_inner
  transition_inner-DenialKeeps name t payload scope times =
      DenialKeeps-check (λ s. admit m name t payload scope times s)
        (λ a s. dispatch m b t a times (load_transition_record s t name) s)
        λ a. record {
          at = λ s d. (dispatch-DenialKeeps t a times (load_transition_record s t name)).at s d;
        }

tenant_id-nonempty : (t : String) → is_tenant_id t ≡ true → (t == "") ≡ false
unfolding is_tenant_id
tenant_id-nonempty t h = elim (Bool-cases (t == "")) [
  | inl e ↦ cc (h, ap is_tenant_id ((eq_iff t "").0 e))
  | inr e ↦ e
]

-- A raised denial with its number, and the store with its record.
abbrev log_denial : Denial → String → AuditRecord → Store → Result Exception Outcome × Store
log_denial d t r s = (
  raised (
      denied (record d {
        audit_record_id = some (suc (length s.audits));
        tenant_id = tenant_or d.tenant_id t;
      })),
  record s { audits = write_audit (suc (length s.audits)) r s.audits },
)

module _ (m : Machine) (b : Builders) where
  audited-denied :
      (name t : String) (payload : Json) (scope : Option String) (times : Times) (s : Store)
      (d : Denial)
      → (t == "") ≡ false
      → (name == "") ≡ false
      → (transition_inner m b name t payload scope times s).0 ≡ raised (denied d)
      → audited m b name t payload scope times s ≡ (
        raised (
            denied (record d {
              audit_record_id = some (suc (length s.audits));
              tenant_id = tenant_or d.tenant_id t;
            })),
        record s {
          audits =
              write_audit
                (suc (length s.audits))
                (build_record (denial_attempt name t payload times.denied d))
                s.audits;
        },
      )
  unfolding audited audit_denial emit_audit append_audit
  audited-denied name t payload scope times s d ht hn h = ground (
    arith,
    (transition_inner-DenialKeeps m b name t payload scope times).at s d h,
    verify-denial name t payload times.denied d ht hn,
  )

  -- A transition of a well-formed tenant id, with a name that is not empty, that the gates or the
  -- preconditions deny is raised with the number of a new audit record. The record has the tenant,
  -- the transition, the request's actor ("unknown" if it gives none), the outcome "denied", the
  -- second of the denial, its error code and its message, and writing it is the only change to the
  -- store.
  pub transition-IsAudited :
      (name t : String) (payload : Json) (scope : Option String) (times : Times) (s : Store)
      (d : Denial)
      → is_tenant_id t ≡ true
      → (name == "") ≡ false
      → (transition_inner m b name t payload scope times s).0 ≡ raised (denied d)
      → transition m b name t payload scope times s ≡ (
        raised (
            denied (record d {
              audit_record_id = some (suc (length s.audits));
              tenant_id = tenant_or d.tenant_id t;
            })),
        record s {
          audits =
              write_audit
                (suc (length s.audits))
                (denial_record name t payload times.denied d)
                s.audits;
        },
      )
  unfolding transition check_tenant_id
  transition-IsAudited name t payload scope times s d ht hn h = rw ht (
      audited-denied name t payload scope times s d (tenant_id-nonempty t ht) hn h
      ∙ ap (λ r. log_denial d t r s) (build_record-denial name t payload times.denied d))
