-- ===== src/Tenant/Service/Scope.antt =====
-- The scope of a caller, and what a tenant id may hold.
use observability_kit.Prelude.{
  ℕ, suc, String, Bool, true, false, [], ◌∷◌, ◌||◌, none, some, ◌&&◌, leb, ◌==◌, ◌=?◌, ◌≡◌, refl,
  all, codes, length, arith,
}
use observability_kit.Prelude.Exec.{raised}
use observability_kit.Json.{Json}
use observability_kit.Regex.{chars}
use observability_kit.Regex.Patterns.{
  is_tenant_id, tenant_id_pattern, is_slug_char, is_slug_end, between,
}
use observability_kit.Regex.Language.{Within-up_to, full_match-all}
use observability_kit.Tenant.Errors.{
  error_code, cross_tenant, cross_tenant_access_denied, Denial, denied,
}
use observability_kit.Tenant.Store.{Store, text, flag, time, message, write_audit}
use observability_kit.Time.{floor_second}
use observability_kit.Tenant.Machine.{Machine}
use observability_kit.Tenant.Renders.{Builders}
use observability_kit.Tenant.Service.Gates.{Times, check_scope}
use observability_kit.Tenant.Service.Transition.{admit, transition_inner, transition}
use observability_kit.Tenant.Service.DenialRecord.{denied_actor}
use observability_kit.Tenant.Service.Audited.{transition-IsAudited}

-- The denial of a caller that addresses another tenant.
abbrev pub foreign : String → Denial
foreign t = record {
  code = cross_tenant_access_denied;
  message = cross_tenant;
  tenant_id = some t;
  audit_record_id = none;
}

module _ (m : Machine) (b : Builders) where
  inner-foreign :
      (name t u : String) (payload : Json) (times : Times) (s : Store)
      → (u == t) ≡ false
      → (transition_inner m b name t payload (some u) times s).0 ≡ raised (denied (foreign t))
  unfolding transition_inner admit check_scope
  inner-foreign name t u payload times s e = rw e refl

  -- A caller scoped to another tenant is denied a transition of a well-formed tenant id with
  -- cross_tenant_access_denied, whatever its name (not the empty one), the payload and the store are,
  -- also when the addressed tenant does not exist. One audit record, which has the tenant, the
  -- transition, the actor and the error code, is the only change to the store.
  pub transition-foreign :
      (name t u : String) (payload : Json) (times : Times) (s : Store)
      → is_tenant_id t ≡ true
      → (name == "") ≡ false
      → (u == t) ≡ false
      → transition m b name t payload (some u) times s ≡ (
        raised (denied (record (foreign t) { audit_record_id = some (suc (length s.audits)) })),
        record s {
          audits =
              write_audit
                (suc (length s.audits))
                (("tenant_id", text t)
                  ∷ ("transition", text name)
                  ∷ ("actor", text (denied_actor payload))
                  ∷ ("replay", flag false)
                  ∷ ("outcome", text "denied")
                  ∷ ("recorded_at", time (floor_second times.denied))
                  ∷ ("error_code", text "cross-tenant-access-denied")
                  ∷ ("message", message cross_tenant)
                  ∷ [])
                s.audits;
        },
      )
  unfolding error_code
  transition-foreign name t u payload times s ht hn e =
      transition-IsAudited m b name t payload (some u) times s (foreign t) ht hn
        (inner-foreign name t u payload times s e)

-- A lower-case letter, a digit or the dash, or the newline that the pattern's `$` leaves.
abbrev pub is_id_char : ℕ → Bool
is_id_char c = (leb b'a' c && leb c b'z') || (leb b'0' c && leb c b'9') || c =? b'-' || c =? 10

end_class : (c : ℕ) → is_id_char c ≡ false → is_slug_end c ≡ false
unfolding is_slug_end between
end_class c h = ground arith

char_class : (c : ℕ) → is_id_char c ≡ false → is_slug_char c ≡ false
unfolding is_slug_char is_slug_end between
char_class c h = ground arith

-- Every character of a tenant id that the service accepts is one of a to z, 0 to 9, the dash and the
-- newline: no dot and no path separator is among them.
pub tenant_id-all : (t : String) → is_tenant_id t ≡ true → all is_id_char (codes t) ≡ true
unfolding is_tenant_id tenant_id_pattern
tenant_id-all t h =
    full_match-all is_id_char tenant_id_pattern t
      (end_class, (tt, (Within-up_to is_id_char 30 (chars is_slug_char) char_class, end_class)))
      refl h
