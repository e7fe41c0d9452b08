-- ===== src/Tenant/Service/Denials.antt =====
-- Code that raises no ControlPlaneError, by the way it is built.
use observability_kit.Prelude.{
  ℕ, String, Bool, true, false, List, [], ◌∷◌, Option, none, some, ◌≡◌, refl, arith, if◌then◌else◌,
}
use observability_kit.Prelude.Exec.{
  Exec, Result, ok, raised, lift, pure, gets, modify, and_then, ◌>>=◌,
}
use observability_kit.Prelude.Raise
use observability_kit.Json.{Fields}
use observability_kit.Tenant.Errors.{Denial, Exception, denied, crashed}
use observability_kit.Tenant.Store.{Store, AuditRecord, Completed, TenantRecord}
use observability_kit.Tenant.Audit.{
  Attempt, emit_audit, verify_record, ensure_base_invariants, ensure_required_fields, build_record,
  check_required,
}
use observability_kit.Tenant.Approval.{ApprovalRecord}
use observability_kit.Tenant.Request.{Request}
use observability_kit.Tenant.Machine.{Spec}
use observability_kit.Tenant.Renders.{Builders, execute_isolation_renders, remove_overlay}
use observability_kit.Tenant.Service.Gates.{Times, retention_window_end}
use observability_kit.Tenant.Service.Extras.{RenderRef, audit_extras, offboard_extras, purge_extras}
use observability_kit.Tenant.Service.Apply.{
  record_evidence, execute_purge, execute_provision, apply_provision, apply_kept, apply_purge,
  apply_named, finish,
}
use observability_kit.Tenant.Service.Replay.{
  converge_overlay, replay_provision, replay_purge, replay_named, replay,
}

-- A pure part raises no ControlPlaneError.
pub record Pure {A : Type 0} (r : Result Exception A) : Type 0 where
  pub at : (d : Denial) → ¬ (r ≡ raised (denied d))

-- Nor does an action, from any store.
pub record NeverDenies {A : Type 0} (m : Exec Exception Store A) : Type 0 where
  pub at : (s : Store) → Pure (m s).0

module _ {A B : Type 0} where
  pub and_then-Pure :
      (r : Result Exception A) (f : A → Exec Exception Store B) (s : Store)
      → Pure r
      → ((a : A) → NeverDenies (f a))
      → Pure (and_then r f s).0
  and_then-Pure (ok a) f s h k = (k a).at s
  and_then-Pure (raised (denied d)) f s h k = absurd (h.at d refl)
  and_then-Pure (raised (crashed c)) f s h k = record { at = λ d e. cc }

  pub NeverDenies-bind :
      (m : Exec Exception Store A) (f : A → Exec Exception Store B)
      → NeverDenies m
      → ((a : A) → NeverDenies (f a))
      → NeverDenies (m >>= f)
  NeverDenies-bind m f h k = record { at = λ s. and_then-Pure (m s).0 f (m s).1 (h.at s) k }

  pub Pure-bind :
      (r : Result Exception A) (f : A → Result Exception B)
      → Pure r
      → ((a : A) → Pure (f a))
      → Pure (Raise.◌>>=◌ r f)
  Pure-bind (ok a) f h k = k a
  Pure-bind (raised (denied d)) f h k = absurd (h.at d refl)
  Pure-bind (raised (crashed c)) f h k = record { at = λ d e. cc }

module _ {A : Type 0} where
  pub NeverDenies-lift : (r : Result Exception A) → Pure r → NeverDenies (lift r)
  NeverDenies-lift r h = record { at = λ s. h }

  pub NeverDenies-pure : (a : A) → NeverDenies (pure a)
  NeverDenies-pure a = record { at = λ s. record { at = λ d e. cc } }

  pub NeverDenies-gets : (f : Store → A) → NeverDenies (gets f)
  NeverDenies-gets f = record { at = λ s. record { at = λ d e. cc } }

  pub NeverDenies-if :
      (b : Bool) (m n : Exec Exception Store A)
      → NeverDenies m
      → NeverDenies n
      → NeverDenies (if b then m else n)
  NeverDenies-if true m n h k = h
  NeverDenies-if false m n h k = k

pub NeverDenies-modify : (f : Store → Store) → NeverDenies (modify f)
NeverDenies-modify f = record { at = λ s. record { at = λ d e. cc } }

ruleset denial_rules = (
  NeverDenies-bind, NeverDenies-lift, NeverDenies-pure, NeverDenies-gets, NeverDenies-if,
  NeverDenies-modify,
)

pub ensure_required_fields-Pure :
    (r : AuditRecord) (ks : List String) → Pure (ensure_required_fields r ks)
unfolding ensure_required_fields
ensure_required_fields-Pure r ks = record { at = λ d. ground arith }

pub ensure_base_invariants-Pure : (r : AuditRecord) → Pure (ensure_base_invariants r)
unfolding ensure_base_invariants ensure_required_fields
ensure_base_invariants-Pure r = record { at = λ d. ground arith }

pub check_required-Pure : (r : AuditRecord) (o : Option (List String)) → Pure (check_required r o)
check_required-Pure r none = record { at = λ d e. cc }
check_required-Pure r (some ks) = ensure_required_fields-Pure r ks

pub verify_record-Pure : (a : Attempt) → Pure (verify_record a)
unfolding verify_record
verify_record-Pure a =
    Pure-bind _ (λ _. check_required (build_record a) a.required_fields)
      (ensure_base_invariants-Pure (build_record a))
      (λ _. check_required-Pure (build_record a) a.required_fields)

pub retention_window_end-Pure : (fs : Fields) (now : ℕ) → Pure (retention_window_end fs now)
unfolding retention_window_end
retention_window_end-Pure fs now = record { at = λ d. ground arith }

pub retention_some-Pure :
    (fs : Fields) (now : ℕ)
    → Pure {A = Option ℕ} (Raise.◌>>=◌ (retention_window_end fs now) (λ ends. ok (some ends)))
retention_some-Pure fs now =
    Pure-bind (retention_window_end fs now) (λ ends. ok (some ends))
      (retention_window_end-Pure fs now) (λ ends. record { at = λ d e. cc })

pub audit_extras-Pure :
    (q : Request) (a : Option ApprovalRecord) (c : Completed) (now : ℕ) (replay : Bool)
    → Pure (audit_extras q a c now replay)
unfolding audit_extras offboard_extras purge_extras
audit_extras-Pure q a c now replay = record { at = λ d. ground arith }

pub emit_audit-NeverDenies : (a : Attempt) → NeverDenies (emit_audit a)
unfolding emit_audit
emit_audit-NeverDenies a = record {
  at = λ s. record { at = λ d. ground (arith, (verify_record-Pure a).at d) };
}

pub record_evidence-NeverDenies :
    (t : String) (dedicated : Bool) (now : ℕ) (cs : List String)
    → NeverDenies (record_evidence t dedicated now cs)
unfolding record_evidence
record_evidence-NeverDenies t dedicated now [] = record { at = λ s. record { at = λ d e. cc } }
record_evidence-NeverDenies t dedicated now (c ∷ cs) = record {
  at = λ s.
      Pure-bind _ _ ((record_evidence-NeverDenies t dedicated now cs).at _)
        (λ more. record { at = λ d e. cc });
}

pub remove_overlay-NeverDenies : (t : String) → NeverDenies (remove_overlay t)
unfolding remove_overlay
remove_overlay-NeverDenies t = record { at = λ s. record { at = λ d. ground arith } }

pub execute_purge-NeverDenies :
    (t : String) (dedicated : Bool) (now : ℕ) → NeverDenies (execute_purge t dedicated now)
unfolding execute_purge
execute_purge-NeverDenies t dedicated now =
    search (denial_rules, remove_overlay-NeverDenies, record_evidence-NeverDenies)

module _ (b : Builders) where
  pub execute_isolation_renders-NeverDenies :
      (t : String) (fs : Fields) → NeverDenies (execute_isolation_renders b t fs)
  unfolding execute_isolation_renders
  execute_isolation_renders-NeverDenies t fs = record { at = λ s. record { at = λ d e. cc } }

  pub execute_provision-NeverDenies :
      (t : String) (fs : Fields) → NeverDenies (execute_provision b t fs)
  unfolding execute_provision
  execute_provision-NeverDenies t fs =
      search (denial_rules, execute_isolation_renders-NeverDenies) depth 8

  pub apply_provision-NeverDenies :
      (t : String) (r : TenantRecord) (c : Completed) (now : ℕ)
      → NeverDenies (apply_provision b t r c now)
  unfolding apply_provision
  apply_provision-NeverDenies t r c now = search (denial_rules, execute_provision-NeverDenies)

  pub apply_kept-NeverDenies :
      (spec : Spec) (t : String) (r : TenantRecord) (q : Request) (c : Completed) (now : ℕ)
      → NeverDenies (apply_kept b spec t r q c now)
  unfolding apply_kept
  apply_kept-NeverDenies spec t r q c now = search (denial_rules, retention_some-Pure) depth 8

  pub apply_purge-NeverDenies :
      (t : String) (r : TenantRecord) (c : Completed) (now : ℕ)
      → NeverDenies (apply_purge b t r c now)
  unfolding apply_purge
  apply_purge-NeverDenies t r c now = search (denial_rules, execute_purge-NeverDenies)

  pub apply_named-NeverDenies :
      (spec : Spec) (t : String) (r : TenantRecord) (q : Request) (times : Times)
      → NeverDenies (apply_named b spec t r q times)
  unfolding apply_named
  apply_named-NeverDenies spec t r q times =
      search
        (denial_rules, apply_provision-NeverDenies, apply_kept-NeverDenies, apply_purge-NeverDenies)

  -- What follows the preconditions of _apply raises no ControlPlaneError.
  pub finish-NeverDenies :
      (spec : Spec) (t : String) (r : TenantRecord) (q : Request) (a : Option ApprovalRecord)
      (from : String) (now : ℕ) (ref : RenderRef) (c : Completed)
      → NeverDenies (finish b spec t r q a from now ref c)
  unfolding finish
  finish-NeverDenies spec t r q a from now ref c =
      search (denial_rules, audit_extras-Pure, emit_audit-NeverDenies) depth 8

  pub converge_overlay-NeverDenies :
      (t : String) (fs : Fields) → NeverDenies (converge_overlay b t fs)
  unfolding converge_overlay
  converge_overlay-NeverDenies t fs = search denial_rules depth 8

  pub replay_provision-NeverDenies :
      (t : String) (fs : Fields) → NeverDenies (replay_provision b t fs)
  unfolding replay_provision
  replay_provision-NeverDenies t fs =
      search (denial_rules, converge_overlay-NeverDenies, execute_isolation_renders-NeverDenies)

  pub replay_purge-NeverDenies : (t : String) (fs : Fields) → NeverDenies (replay_purge b t fs)
  unfolding replay_purge
  replay_purge-NeverDenies t fs = search (denial_rules, remove_overlay-NeverDenies)

  pub replay_named-NeverDenies :
      (spec : Spec) (t : String) (fs : Fields) → NeverDenies (replay_named b spec t fs)
  unfolding replay_named
  replay_named-NeverDenies spec t fs =
      search (denial_rules, replay_provision-NeverDenies, replay_purge-NeverDenies)

  pub replay-NeverDenies :
      (spec : Spec) (t : String) (fs : Fields) (q : Request) (a : Option ApprovalRecord)
      (c : Completed) (times : Times)
      → NeverDenies (replay b spec t fs q a c times)
  unfolding replay
  replay-NeverDenies spec t fs q a c times =
      search (denial_rules, replay_named-NeverDenies, audit_extras-Pure, emit_audit-NeverDenies)
        depth 8
