-- ===== src/Tenant/Audit.antt =====
-- services/tenancy/tenantctl/audit.py.
pub mod Laws
use observability_kit.Prelude.{
  ℕ, String, Bool, true, false, ◌||◌, ◌&&◌, not, List, [], ◌∷◌, Option, none, some, ◌==◌, elem,
  if◌then◌else◌,
}
use observability_kit.Prelude.Dict.{Dict, lookup, update}
use observability_kit.Prelude.Exec.{Exec, Result, ok, raised}
use observability_kit.Prelude.Raise.{◌>>=◌, ◌>>◌}
use observability_kit.Tenant.Errors.{Exception, crashed, audit_contract_violation}
use observability_kit.Tenant.Store.{
  Value, text, flag, time, refs, message, AuditRecord, Store, append_audit,
}

abbrev pub outcomes : List String
outcomes = "applied" ∷ "replayed" ∷ "denied" ∷ []

-- _is_missing of a value that is there; only an empty text counts as missing.
abbrev pub is_blank : Value → Bool
is_blank (text s) = s == ""
is_blank _ = false

abbrev pub is_missing : Option Value → Bool
is_missing none = true
is_missing (some v) = is_blank v

unfoldable pub missing_fields : AuditRecord → List String → List String
missing_fields r [] = []
missing_fields r (k ∷ ks) =
    let rest = missing_fields r ks in if is_missing (lookup k r) then k ∷ rest else rest

abbrev reject_missing : List String → Result Exception (Unit {0})
reject_missing [] = ok tt
reject_missing (k ∷ ks) = raised (crashed (audit_contract_violation (k ∷ ks)))

unfoldable pub ensure_required_fields : AuditRecord → List String → Result Exception (Unit {0})
ensure_required_fields r required = reject_missing (missing_fields r required)

-- `isinstance(value, str) and value`
abbrev pub is_named : Option Value → Bool
is_named (some (text s)) = not (s == "")
is_named _ = false

abbrev pub is_flag : Option Value → Bool
is_flag (some (flag b)) = true
is_flag _ = false

-- The texts that the service writes for instants match the date-time pattern.
abbrev pub is_instant : Option Value → Bool
is_instant (some (time t)) = true
is_instant _ = false

abbrev pub is_outcome : Option Value → Bool
is_outcome (some (text s)) = elem s outcomes
is_outcome _ = false

abbrev violates : String → Result Exception (Unit {0})
violates key = raised (crashed (audit_contract_violation (key ∷ [])))

abbrev check : Bool → String → Result Exception (Unit {0})
check b key = if b then ok tt else violates key

abbrev is_denied : Option Value → Bool
is_denied (some (text s)) = s == "denied"
is_denied _ = false

unfoldable pub ensure_base_invariants : AuditRecord → Result Exception (Unit {0})
ensure_base_invariants r = do
  check (is_named (lookup "tenant_id" r)) "tenant_id"
  check (is_named (lookup "transition" r)) "transition"
  check (is_named (lookup "actor" r)) "actor"
  check (is_flag (lookup "replay" r)) "replay"
  check (is_outcome (lookup "outcome" r)) "outcome"
  check (is_instant (lookup "recorded_at" r)) "recorded_at"
  if is_denied (lookup "outcome" r)
      then ensure_required_fields r ("error_code" ∷ "message" ∷ [])
      else ok tt

-- The keyword arguments of emit_audit.
pub record Attempt : Type 0 where
  pub tenant_id : String
  pub transition : String
  pub actor : String
  pub replay : Bool
  pub outcome : String
  pub recorded_at : ℕ
  pub extra_fields : AuditRecord
  pub required_fields : Option (List String)

unfoldable pub build_record : Attempt → AuditRecord
build_record a =
    update
      (("tenant_id", text a.tenant_id)
        ∷ ("transition", text a.transition)
        ∷ ("actor", text a.actor)
        ∷ ("replay", flag a.replay)
        ∷ ("outcome", text a.outcome)
        ∷ ("recorded_at", time a.recorded_at)
        ∷ [])
      a.extra_fields

abbrev pub check_required : AuditRecord → Option (List String) → Result Exception (Unit {0})
check_required r none = ok tt
check_required r (some required) = ensure_required_fields r required

unfoldable pub verify_record : Attempt → Result Exception (Unit {0})
verify_record a = do
  ensure_base_invariants (build_record a)
  check_required (build_record a) a.required_fields

abbrev persist : Result Exception (Unit {0}) → AuditRecord → Exec Exception Store (ℕ × AuditRecord)
persist (ok _) r s = let (n, s') = append_audit r s in (ok (n, r), s')
persist (raised e) r s = (raised e, s)

-- Returns the number that the record was given, and the record.
unfoldable pub emit_audit : Attempt → Exec Exception Store (ℕ × AuditRecord)
emit_audit a = persist (verify_record a) (build_record a)
