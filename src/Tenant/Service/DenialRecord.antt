-- ===== src/Tenant/Service/DenialRecord.antt =====
-- The audit record of a denial.
use observability_kit.Prelude.{
  ℕ, String, false, ◌==◌, [], ◌∷◌, ◌≡◌, refl, ap, Bool-cases, inl, inr, if◌then◌else◌,
}
use observability_kit.Prelude.Dict.{lookup, update, put}
use observability_kit.Time.{floor_second}
use observability_kit.Prelude.Exec.{ok}
use observability_kit.Json.{Json, str, obj, get_item}
use observability_kit.Tenant.Errors.{Code, validation_failed, error_code, Denial}
use observability_kit.Tenant.Store.{AuditRecord, text, flag, time, message}
use observability_kit.Tenant.Audit.{
  verify_record, build_record, ensure_base_invariants, ensure_required_fields, missing_fields,
}
use observability_kit.Tenant.Service.Transition.{actor_of, actor_or_unknown, denial_attempt}

pub actor_named : (j : Json) → (actor_or_unknown j == "") ≡ false
actor_named (str s) = elim (Bool-cases (s == "")) [ inl e ↦ rw e refl | inr e ↦ rw e e ]
actor_named _ = refl

pub actor_of_named : (j : Json) → (actor_of j == "") ≡ false
actor_of_named (obj fs) = actor_named (get_item "actor" fs)
actor_of_named _ = refl

pub code_named : (c : Code) → (error_code c == "") ≡ false
unfolding error_code
code_named validation_failed = refl
code_named _ = refl

-- The record of a denial meets the contract: its names are not empty, and it has the reason.
pub verify-denial :
    (name t : String) (payload : Json) (now : ℕ) (d : Denial)
    → (t == "") ≡ false
    → (name == "") ≡ false
    → verify_record (denial_attempt name t payload now d) ≡ ok tt
unfolding verify_record ensure_base_invariants ensure_required_fields build_record denial_attempt
    lookup update missing_fields
verify-denial name t payload now d ht hn =
    rw (ht, hn, actor_of_named payload) (rw (code_named d.code) refl)

-- `payload.get("actor")` of an object where that is a text and not empty, and "unknown" otherwise.
abbrev pub denied_actor : Json → String
denied_actor (obj fs) = elim (get_item "actor" fs) [
  | str s ↦ if s == "" then "unknown" else s
  | _ ↦ "unknown"
]
denied_actor _ = "unknown"

-- What the audit log has of a denial.
abbrev pub denial_record : String → String → Json → ℕ → Denial → AuditRecord
denial_record name t payload now d =
    ("tenant_id", text t)
    ∷ ("transition", text name)
    ∷ ("actor", text (denied_actor payload))
    ∷ ("replay", flag false)
    ∷ ("outcome", text "denied")
    ∷ ("recorded_at", time (floor_second now))
    ∷ ("error_code", text (error_code d.code))
    ∷ ("message", message d.message)
    ∷ []

pub actor_or_unknown-denied :
    (j : Json)
    → actor_or_unknown j ≡ elim j [ str s ↦ if s == "" then "unknown" else s | _ ↦ "unknown" ]
actor_or_unknown-denied (str s) = refl
actor_or_unknown-denied _ = refl

pub actor_of-denied : (payload : Json) → actor_of payload ≡ denied_actor payload
actor_of-denied (obj fs) = actor_or_unknown-denied (get_item "actor" fs)
actor_of-denied _ = refl

pub build_record-denial :
    (name t : String) (payload : Json) (now : ℕ) (d : Denial)
    → build_record (denial_attempt name t payload now d) ≡ denial_record name t payload now d
unfolding build_record denial_attempt update put
build_record-denial name t payload now d =
    ap
      (λ actor.
        ("tenant_id", text t)
        ∷ ("transition", text name)
        ∷ ("actor", text actor)
        ∷ ("replay", flag false)
        ∷ ("outcome", text "denied")
        ∷ ("recorded_at", time (floor_second now))
        ∷ ("error_code", text (error_code d.code))
        ∷ ("message", message d.message)
        ∷ [])
      (actor_of-denied payload)
