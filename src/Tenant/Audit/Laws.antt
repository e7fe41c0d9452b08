-- ===== src/Tenant/Audit/Laws.antt =====
-- The audit log only grows, and an emitted record meets its contract.
use observability_kit.Prelude.{
  ℕ, suc, ◌+◌, String, false, List, [], ◌∷◌, ◌++◌, some, ◌≡◌, refl, length, arith, =?_iff,
}
use observability_kit.Prelude.Dict.{lookup}
use observability_kit.Prelude.Exec.{ok}
use observability_kit.Tenant.Store.{AuditRecord, Store, write_audit, append_audit}
use observability_kit.Tenant.Audit.{
  is_missing, missing_fields, ensure_required_fields, Attempt, build_record, verify_record,
  emit_audit,
}

-- The files of the audit directory are numbered without a gap.
abbrev pub NumberedFrom : ℕ → List (ℕ × AuditRecord) → Type 0
NumberedFrom k [] = Unit
NumberedFrom k ((n, r) ∷ files) = (n ≡ k) × NumberedFrom (suc k) files

write_audit-end :
    (k n : ℕ) (r : AuditRecord) (files : List (ℕ × AuditRecord))
    → NumberedFrom k files
    → n ≡ k + length files
    → (write_audit n r files ≡ files ++ (n, r) ∷ []) × NumberedFrom k (write_audit n r files)
unfolding write_audit
write_audit-end k n r [] h e = (refl, (omega arith, tt))
write_audit-end k n r ((m, q) ∷ files) h e =
    ground (arith, write_audit-end (suc k) n r files h.1, =?_iff m n)

-- In a log whose records are numbered from 1 without a gap, append_audit gives the new record the
-- next number and changes no record that is there: the log is the old log with the record behind it,
-- and is again numbered without a gap.
pub append_audit-grows :
    (r : AuditRecord) (s : Store)
    → NumberedFrom 1 s.audits
    → ((append_audit r s).1.audits ≡ s.audits ++ (suc (length s.audits), r) ∷ [])
      × NumberedFrom 1 (append_audit r s).1.audits
unfolding append_audit
append_audit-grows r s h = write_audit-end 1 (suc (length s.audits)) r s.audits h (omega arith)

abbrev pub AllPresent : AuditRecord → List String → Type 0
AllPresent r [] = Unit
AllPresent r (k ∷ ks) = (is_missing (lookup k r) ≡ false) × AllPresent r ks

missing_fields-eq-nil :
    (r : AuditRecord) (ks : List String) → missing_fields r ks ≡ [] → AllPresent r ks
unfolding missing_fields
missing_fields-eq-nil r [] h = tt
missing_fields-eq-nil r (k ∷ ks) h = ground (arith, missing_fields-eq-nil r ks)

ensure-AllPresent :
    (r : AuditRecord) (ks : List String) → ensure_required_fields r ks ≡ ok tt → AllPresent r ks
unfolding ensure_required_fields
ensure-AllPresent r ks h = missing_fields-eq-nil r ks (ground arith)

emit_audit-ok :
    (a : Attempt) (s : Store) (n : ℕ) (r : AuditRecord)
    → (emit_audit a s).0 ≡ ok (n, r)
    → (verify_record a ≡ ok tt) × (r ≡ build_record a) × (n ≡ suc (length s.audits))
unfolding emit_audit append_audit
emit_audit-ok a s n r h = ground arith

verify-required :
    (a : Attempt) (ks : List String)
    → a.required_fields ≡ some ks
    → verify_record a ≡ ok tt
    → ensure_required_fields (build_record a) ks ≡ ok tt
unfolding verify_record
verify-required a ks e h = ground arith

-- A record that emit_audit returns has every required field of the transition, none of them blank.
pub emit_audit-AllPresent :
    (a : Attempt) (s : Store) (n : ℕ) (r : AuditRecord) (ks : List String)
    → a.required_fields ≡ some ks
    → (emit_audit a s).0 ≡ ok (n, r)
    → AllPresent r ks
emit_audit-AllPresent a s n r ks e h =
    let (verified, is_built, _) = emit_audit-ok a s n r h in
    rw is_built (ensure-AllPresent (build_record a) ks (verify-required a ks e verified))
