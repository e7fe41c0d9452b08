-- ===== src/Tenant/Approval.antt =====
-- services/tenancy/tenantctl/approval.py: the approval gate of destructive transitions.
pub mod Laws
use observability_kit.Prelude.{
  ℕ, ◌+◌, ◌-◌, ◌*◌, String, Bool, true, false, ◌||◌, ◌&&◌, not, List, [], ◌∷◌, ◌++◌, Option, none,
  some, ◌==◌, ltb, leb, elem, if◌then◌else◌,
}
use observability_kit.Prelude.Exec.{Result, ok, raised}
use observability_kit.Prelude.Raise.{◌>>=◌, ◌>>◌, or_raise}
use observability_kit.Json.{Json, null, str, obj, Fields, get_item, keys, is_text, is_nonempty_text}
use observability_kit.Regex.Patterns.{is_datetime}
use observability_kit.Time.{Stamp, from_isoformat, to_utc, minute}
use observability_kit.Tenant.Errors.{
  approval, Violation, not_nonempty_string, unknown_approval_fields, Message, unknown_risk_class,
  no_approval, approval_not_object, not_approved, bad_decided_at, approval_fields, decided_later,
  timed_out, overflow_error, type_error, approval_required, approval_invalid, Exception, crashed,
  deny,
}
use observability_kit.Tenant.Document.Checks.{when}
use observability_kit.Tenant.Request.{text_at}

-- REQUIRED_FIELDS and PENDING_TIMEOUT_MINUTES of one risk class.
pub record Flow : Type 0 where
  pub required : List String
  pub window : ℕ

unfoldable pub approval_flow : String → Option Flow
approval_flow risk =
    if risk == "write.high-risk"
    then some (record {
      required = "approval_id" ∷ "approver" ∷ "decision" ∷ "decided_at" ∷ [];
      window = 60;
    })
    else if risk == "write.critical"
    then some (record {
      required = "approval_id" ∷ "approver" ∷ "decision" ∷ "decided_at" ∷ "change_ticket" ∷ [];
      window = 120;
    })
    else none

pub record ApprovalRecord : Type 0 where
  pub approval_id : String
  pub approver : String
  pub decision : String
  pub decided_at : String
  pub change_ticket : Option String

abbrev invalid : {A : Type 0} → Message → Result Exception A
invalid m = raised (deny approval_invalid m)

unfoldable pub parse_decided_at : String → Result Exception ℕ
parse_decided_at text =
    if is_datetime text
    then elim (from_isoformat text) [
      | none ↦ invalid bad_decided_at
      | some stamp ↦ or_raise (to_utc stamp) (crashed overflow_error)
    ]
    else invalid bad_decided_at

unfoldable pub check_timeout : ℕ → String → ℕ → ℕ → Result Exception (Unit {0})
check_timeout decided_at risk window now =
    if ltb now decided_at
    then invalid decided_later
    else if leb (now - decided_at) (window * minute)
    then ok tt
    else invalid (timed_out risk window)

-- The loop over the required fields.
unfoldable pub field_problems : Fields → List String → List Violation
field_problems fs [] = []
field_problems fs (k ∷ ks) =
    when (not (is_nonempty_text (get_item k fs))) (not_nonempty_string approval k)
    ++ field_problems fs ks

-- `set(payload) - set(required)`
unfoldable pub minus : List String → List String → List String
minus [] required = []
minus (k ∷ ks) required = let rest = minus ks required in if elem k required then rest else k ∷ rest

unfoldable pub unknown_problems : List String → List Violation
unknown_problems [] = []
unknown_problems (k ∷ ks) = unknown_approval_fields (k ∷ ks) ∷ []

unfoldable pub reject_problems : List Violation → Result Exception (Unit {0})
reject_problems [] = ok tt
reject_problems (v ∷ vs) = invalid (approval_fields (v ∷ vs))

-- `payload.get("change_ticket")` of a record whose fields have been checked
abbrev optional_text : Json → Option String
optional_text (str s) = some s
optional_text _ = none

unfoldable pub check_fields : Flow → String → Fields → ℕ → Result Exception ApprovalRecord
check_fields flow risk fs now = do
  reject_problems
      (field_problems fs flow.required ++ unknown_problems (minus (keys fs) flow.required))
  (if is_text "approved" (get_item "decision" fs) then ok tt else invalid not_approved)
  decided_raw ← text_at fs "decided_at"
  decided_at ← parse_decided_at decided_raw
  check_timeout decided_at risk flow.window now
  id ← text_at fs "approval_id"
  approver ← text_at fs "approver"
  ok (record {
    approval_id = id;
    approver = approver;
    decision = "approved";
    decided_at = decided_raw;
    change_ticket = optional_text (get_item "change_ticket" fs);
  })

unfoldable pub check_payload : Flow → String → Json → ℕ → Result Exception ApprovalRecord
check_payload flow risk null now = raised (deny approval_required no_approval)
check_payload flow risk (obj fs) now = check_fields flow risk fs now
check_payload flow risk _ now = invalid approval_not_object

-- `now` is the current time, which the service's call leaves to the function.
unfoldable pub validate_approval : Json → String → ℕ → Result Exception ApprovalRecord
validate_approval payload risk now = elim (approval_flow risk) [
  | none ↦ invalid unknown_risk_class
  | some flow ↦ check_payload flow risk payload now
]
