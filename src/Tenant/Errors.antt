-- ===== src/Tenant/Errors.antt =====
-- The error classes of services/tenancy/tenantctl/models.py. A message is a value with the facts
-- that its text is formatted from, one constructor for each message of the source; every such
-- text is non-empty.
use observability_kit.Prelude.{ℕ, String, List, Option, none, some}
use observability_kit.Json.{Json}

pub data Code : Type 0 where
  validation_failed tenant_not_found tenant_already_exists update_forbidden_field : Code
  illegal_transition precondition_failed approval_required approval_invalid : Code
  cross_tenant_access_denied : Code

unfoldable pub error_code : Code → String
error_code validation_failed = "validation-failed"
error_code tenant_not_found = "tenant-not-found"
error_code tenant_already_exists = "tenant-already-exists"
error_code update_forbidden_field = "update-forbidden-field"
error_code illegal_transition = "illegal-transition"
error_code precondition_failed = "precondition-failed"
error_code approval_required = "approval-required"
error_code approval_invalid = "approval-invalid"
error_code cross_tenant_access_denied = "cross-tenant-access-denied"

unfoldable pub http_status : Code → ℕ
http_status validation_failed = 400
http_status tenant_not_found = 404
http_status tenant_already_exists = 409
http_status update_forbidden_field = 409
http_status illegal_transition = 409
http_status precondition_failed = 409
http_status approval_required = 403
http_status approval_invalid = 403
http_status cross_tenant_access_denied = 403

-- Where in a document or a request a field stands.
pub data Context : Type 0 where
  tenant_document tenant residency quotas quotas_ingest quotas_retention owner : Context
  contacts : ℕ → Context
  request approval : Context

-- One line of a validator's list of errors.
pub data Violation : Type 0 where
  missing_field unknown_field : Context → String → Violation
  not_a_string no_pattern_match not_in_enum not_nonempty_string : Context → String → Violation
  too_short too_long : Context → String → ℕ → Violation
  not_an_object : Context → Violation
  not_boolean not_positive_number not_positive_integer not_in_range : Context → String → Violation
  bad_allowed_regions no_contacts pool_not_dedicated : Violation
  unknown_approval_fields : List String → Violation

pub data Message : Type 0 where
  document_not_object : Message
  document_invalid : List Violation → Message
  bad_tenant_id : Message
  identity_mismatch : Json → String → Message
  not_initial_state : String → Message
  already_exists : Json → Message
  no_document unknown_state : Message
  immutable_field : String → Message
  cross_tenant : Message
  body_not_object : Message
  body_invalid : List Violation → Message
  empty_field : String → Message
  bad_trigger_type bad_reason : Message
  unknown_transition : String → Message
  not_legal_from : (state : String) (allowed_from : List String) → Message
  region_not_allowed not_offboarded no_window legal_hold : Message
  window_open : (ends_at : ℕ) → Message
  unknown_risk_class no_approval approval_not_object not_approved bad_decided_at : Message
  approval_fields : List Violation → Message
  decided_later : Message
  timed_out : (risk_class : String) (window_minutes : ℕ) → Message

-- A ControlPlaneError, before and after the service has set `audit_record_id`.
pub record Denial : Type 0 where
  pub code : Code
  pub message : Message
  pub tenant_id : Option String
  pub audit_record_id : Option ℕ

-- Exceptions that are no ControlPlaneError and leave the service as they are.
pub data Crash : Type 0 where
  overflow_error key_error type_error attribute_error assertion_error value_error : Crash
  audit_contract_violation : List String → Crash

pub data Exception : Type 0 where
  denied : Denial → Exception
  crashed : Crash → Exception

-- `raise C(message)` and `raise C(message, tenant_id=t)`
abbrev pub deny : Code → Message → Exception
deny c m = denied (record { code = c; message = m; tenant_id = none; audit_record_id = none })

abbrev pub deny_for : String → Code → Message → Exception
deny_for t c m =
    denied (record { code = c; message = m; tenant_id = some t; audit_record_id = none })
