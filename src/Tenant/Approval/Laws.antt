-- ===== src/Tenant/Approval/Laws.antt =====
-- What an accepted approval record has shown.
use observability_kit.Prelude.{
  ℕ, ◌+◌, ◌*◌, ◌≤◌, String, true, not, List, [], ◌∷◌, ◌++◌, Option, none, some, ◌≡◌, refl, ap, elem,
  arith, eq_iff, inl, inr, Bool-cases, append-eq-nil,
}
use observability_kit.Prelude.Exec.{Result, ok, raised}
use observability_kit.Json.{Json, str, obj, Fields, get_item, keys, is_text, is_nonempty_text}
use observability_kit.Time.{minute}
use observability_kit.Tenant.Errors.{Exception, Violation}
use observability_kit.Tenant.Document.Checks.{when}
use observability_kit.Tenant.Request.{text_at}
use observability_kit.Tenant.Approval.{
  Flow, approval_flow, ApprovalRecord, parse_decided_at, check_timeout, field_problems, minus,
  unknown_problems, reject_problems, check_fields, check_payload, validate_approval,
}

-- `decided_at` denotes an instant that is at most `window` minutes before `now`, and not after it.
pub record IsTimely (decided_raw : String) (window now : ℕ) : Type 0 where
  pub decided_at : ℕ
  pub denotes : parse_decided_at decided_raw ≡ ok decided_at
  pub not_later : decided_at ≤ now
  pub within : now ≤ decided_at + window * minute

abbrev All {ℓ} : (String → Type ℓ) → List String → Type ℓ
All P [] = Unit
All P (k ∷ ks) = P k × All P ks

-- The payload behind an accepted record of a risk class.
pub record IsApproved (fs : Fields) (flow : Flow) (now : ℕ) (a : ApprovalRecord) : Type 0 where
  pub complete : All (λ k. is_nonempty_text (get_item k fs) ≡ true) flow.required
  pub exact : All (λ k. elem k flow.required ≡ true) (keys fs)
  pub decision : get_item "decision" fs ≡ str "approved"
  pub id : get_item "approval_id" fs ≡ str a.approval_id
  pub decided_at : get_item "decided_at" fs ≡ str a.decided_at
  pub timely : IsTimely a.decided_at flow.window now

check_timeout-IsTimely :
    (raw risk : String) (decided window now : ℕ)
    → parse_decided_at raw ≡ ok decided
    → check_timeout decided risk window now ≡ ok tt
    → IsTimely raw window now
unfolding check_timeout
check_timeout-IsTimely raw risk decided window now e h = record {
  decided_at = decided;
  denotes = e;
  not_later = ground arith;
  within = ground arith;
}

problem_free :
    (j : Json) (v : Violation) → when (not (is_nonempty_text j)) v ≡ [] → is_nonempty_text j ≡ true
problem_free j v h = ground arith

field_problems-eq-nil :
    (fs : Fields) (ks : List String)
    → field_problems fs ks ≡ []
    → All (λ k. is_nonempty_text (get_item k fs) ≡ true) ks
unfolding field_problems
field_problems-eq-nil fs [] h = tt
field_problems-eq-nil fs (k ∷ ks) h =
    let (here, later) = append-eq-nil _ _ h in
    (problem_free (get_item k fs) _ here, field_problems-eq-nil fs ks later)

minus-eq-nil :
    (ks required : List String) → minus ks required ≡ [] → All (λ k. elem k required ≡ true) ks
unfolding minus
minus-eq-nil [] required h = tt
minus-eq-nil (k ∷ ks) required h = elim (Bool-cases (elem k required)) [
  | inl known ↦ (known, minus-eq-nil ks required (rw known at h))
  | inr unknown ↦ ground arith
]

text_at-eq-ok :
    (j : Json) (fs : Fields) (key s : String)
    → get_item key fs ≡ j
    → text_at fs key ≡ ok s
    → j ≡ str s
unfolding text_at
text_at-eq-ok (str r) fs key s e h = ground arith
text_at-eq-ok _ fs key s e h = cc

is_text-eq : (t : String) (j : Json) → is_text t j ≡ true → j ≡ str t
is_text-eq t (str s) h = ap str ((eq_iff s t).0 h)
is_text-eq t _ h = cc

problems-eq-nil : (vs : List Violation) → reject_problems vs ≡ ok tt → vs ≡ []
unfolding reject_problems
problems-eq-nil [] h = refl
problems-eq-nil (v ∷ vs) h = cc

unknown-eq-nil : (ks : List String) → unknown_problems ks ≡ [] → ks ≡ []
unfolding unknown_problems
unknown-eq-nil [] h = refl
unknown-eq-nil (k ∷ ks) h = cc

abbrev value_or : ℕ → Result Exception ℕ → ℕ
value_or d (ok n) = n
value_or d (raised e) = d

-- The steps of an accepted payload, each with what it returned.
check_fields-steps :
    (flow : Flow) (risk : String) (fs : Fields) (now : ℕ) (a : ApprovalRecord)
    → check_fields flow risk fs now ≡ ok a
    → (decided : ℕ) × (parse_decided_at a.decided_at ≡ ok decided)
      × (reject_problems
            (field_problems fs flow.required ++ unknown_problems (minus (keys fs) flow.required))
          ≡ ok tt)
      × (is_text "approved" (get_item "decision" fs) ≡ true)
      × (text_at fs "decided_at" ≡ ok a.decided_at)
      × (check_timeout decided risk flow.window now ≡ ok tt)
      × (text_at fs "approval_id" ≡ ok a.approval_id)
unfolding check_fields
check_fields-steps flow risk fs now a h = (
  value_or 0 (parse_decided_at a.decided_at),
  ground arith,
  ground arith,
  ground arith,
  ground arith,
  ground arith,
  ground arith,
)

check_fields-IsApproved :
    (flow : Flow) (risk : String) (fs : Fields) (now : ℕ) (a : ApprovalRecord)
    → check_fields flow risk fs now ≡ ok a
    → IsApproved fs flow now a
check_fields-IsApproved flow risk fs now a h =
    let (decided, parsed, clean, approved, raw, timely, id) =
      check_fields-steps flow risk fs now a h in
    let (fields, unknown) =
      append-eq-nil (field_problems fs flow.required) _ (problems-eq-nil _ clean) in
    record {
      complete = field_problems-eq-nil fs flow.required fields;
      exact = minus-eq-nil (keys fs) flow.required (unknown-eq-nil _ unknown);
      decision = is_text-eq "approved" _ approved;
      id = text_at-eq-ok _ fs "approval_id" a.approval_id refl id;
      decided_at = text_at-eq-ok _ fs "decided_at" a.decided_at refl raw;
      timely = check_timeout-IsTimely a.decided_at risk decided flow.window now parsed timely;
    }

check_payload-IsApproved :
    (flow : Flow) (risk : String) (payload : Json) (now : ℕ) (a : ApprovalRecord)
    → check_payload flow risk payload now ≡ ok a
    → (fs : Fields) × (payload ≡ obj fs) × IsApproved fs flow now a
unfolding check_payload
check_payload-IsApproved flow risk (obj fs) now a h =
    (fs, refl, check_fields-IsApproved flow risk fs now a h)
check_payload-IsApproved flow risk _ now a h = cc

flow-cases :
    (o : Option Flow) (risk : String) (payload : Json) (now : ℕ) (a : ApprovalRecord)
    → approval_flow risk ≡ o
    → validate_approval payload risk now ≡ ok a
    → (flow : Flow) × (approval_flow risk ≡ some flow)
      × (check_payload flow risk payload now ≡ ok a)
unfolding validate_approval
flow-cases none risk payload now a e h = cc
flow-cases (some flow) risk payload now a e h = (flow, e, ground arith)

-- validate_approval accepts only an object with exactly the fields of its risk class, each a
-- non-empty text, whose decision is "approved" and whose decided_at is a valid date-time that is
-- neither after the current time nor more than the class's window (60 or 120 minutes) before it.
pub validate_approval-IsApproved :
    (payload : Json) (risk : String) (now : ℕ) (a : ApprovalRecord)
    → validate_approval payload risk now ≡ ok a
    → (flow : Flow) × (fs : Fields) × (approval_flow risk ≡ some flow)
      × (payload ≡ obj fs)
      × IsApproved fs flow now a
validate_approval-IsApproved payload risk now a h =
    let (flow, found, checked) = flow-cases (approval_flow risk) risk payload now a refl h in
    let (fs, is_obj, good) = check_payload-IsApproved flow risk payload now a checked in
    (flow, fs, found, is_obj, good)
