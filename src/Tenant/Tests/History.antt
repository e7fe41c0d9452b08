-- ===== src/Tenant/Tests/History.antt =====
-- The machine's contract and a tenant's history.
use observability_kit.Prelude.{
  String, true, false, List, [], ◌∷◌, ◌++◌, none, some, ◌≡◌, refl, elem,
}
use observability_kit.Prelude.Dict.{lookup, put, lookup-AllEntries}
use observability_kit.Prelude.Exec.{ok}
use observability_kit.Json.{str, obj, set_item}
use observability_kit.Text.{strip, rstrip, lstrip, indent_of, after_colon}
use observability_kit.Regex.Patterns.{is_space}
use observability_kit.Tenant.Document.{lifecycle_states, validate_tenant_document}
use observability_kit.Tenant.Document.Update.{validate-set_state}
use observability_kit.Tenant.Machine.{Machine, Spec, find_spec}
use observability_kit.Tenant.Machine.Loader.{
  amend, machine_line, transition_key, transition_value, transition_line, open_section,
  open_transition, transitions_line, scan_line, scan_lines, check_states, complete_draft, spec_of,
  specs_of, missing_names, build_machine, load_state_machine,
}
use observability_kit.Tenant.Machine.Loaded.{IsMachine, load_state_machine-IsMachine}
use observability_kit.Tenant.Store.{Store}
use observability_kit.Tenant.Service.History.{here, next, moves}
use observability_kit.Tenant.Service.History.Stored.{
  IsStored, AllStored, KnownTargets, Reach-AllStored,
}
use observability_kit.Tenant.Service.History.Closed.{
  here as at_once, next as then, holds, Closed, IsIn, Later-IsIn,
}
use observability_kit.Tenant.Service.Crud.{set_legal_hold}
use observability_kit.Tenant.Samples.{
  machine, builders, clocks, store_in, document, suspend_payload,
}
use observability_kit.Tenant.Tests.{program, active, suspension}

loading : Unit {0}
unfolding lookup put amend machine_line transition_key transition_value transition_line open_section
    open_transition transitions_line scan_line scan_lines check_states complete_draft spec_of
    specs_of missing_names build_machine load_state_machine strip rstrip lstrip is_space indent_of
    after_colon
loading = tt

-- A transition as the contract writes it.
abbrev lines_of : String → String → String → List String
lines_of title from to =
    title ∷ "    description: |" ∷ "    from:" ∷ from ∷ to ∷ "    idempotent: true" ∷ "    audit:"
    ∷ "      required_fields:" ∷ "        - actor" ∷ []

abbrev contract : List String
contract =
    "# lifecycle"
      ∷ "state_machine:"
      ∷ "  states:"
      ∷ "    - provisioning"
      ∷ "    - active"
      ∷ "    - purged"
      ∷ "  initial_state: provisioning"
      ∷ "  terminal_states:"
      ∷ "    - purged"
      ∷ ""
      ∷ "transitions:"
      ∷ lines_of "  provision:" "      - provisioning" "    to: active"
    ++ lines_of "  suspend:" "      - active" "    to: active"
    ++ lines_of "  resume:" "      - active" "    to: active"
    ++ lines_of "  offboard:" "      - active" "    to: active"
    ++ lines_of "  purge:" "      - active" "    to: purged"

abbrev spec : String → String → String → Spec
spec name from to = record {
  name = name;
  from_states = from ∷ [];
  to_state = to;
  idempotent = true;
  approval_risk_class = none;
  audit_required_fields = "actor" ∷ [];
}

abbrev loaded : Machine
loaded = record {
  states = "provisioning" ∷ "active" ∷ "purged" ∷ [];
  initial_state = "provisioning";
  terminal_states = "purged" ∷ [];
  transitions =
      ("provision", spec "provision" "provisioning" "active")
      ∷ ("suspend", spec "suspend" "active" "active")
      ∷ ("resume", spec "resume" "active" "active")
      ∷ ("offboard", spec "offboard" "active" "active")
      ∷ ("purge", spec "purge" "active" "purged")
      ∷ [];
}

load_state_machine-IsMachine_example : IsMachine loaded
unfolding loading
load_state_machine-IsMachine_example = load_state_machine-IsMachine contract loaded refl

validate-set_state_example :
    validate_tenant_document
      (obj (set_item "lifecycle_state" (str "suspended") (document "active")))
    ≡ ok tt
unfolding program
validate-set_state_example = validate-set_state (document "active") "suspended" refl refl

known : KnownTargets machine
unfolding find_spec
known = record {
  at = λ name s found.
      lookup-AllEntries (λ n x. elem x.to_state lifecycle_states ≡ true) machine.transitions name s
        (refl, (refl, (refl, tt))) found;
}

stored : AllStored active
unfolding program
stored = record {
  at = λ t r found.
      lookup-AllEntries IsStored active.tenants t r (record { valid = refl; named = refl }, tt)
        found;
}

Reach-AllStored_example : AllStored suspension.1
Reach-AllStored_example =
    Reach-AllStored machine builders active suspension.1 known
      (next here (moves "suspend" "acme" suspend_payload (some "acme") clocks)) stored

purged-Closed : Closed machine "purged"
unfolding find_spec
purged-Closed = record {
  at = λ name s found.
      lookup-AllEntries (λ n x. elem "purged" x.from_states ≡ false) machine.transitions name s
        (refl, (refl, (refl, tt))) found;
}

abbrev purged : Store
purged = store_in "purged"

purged-IsIn : IsIn purged "acme" "purged"
unfolding program
purged-IsIn = record {
  tenant = record { document = document "purged"; legal_hold = false };
  stored = refl;
  state = refl;
}

Later-IsIn_example : IsIn (set_legal_hold "acme" true purged).1 "acme" "purged"
Later-IsIn_example =
    Later-IsIn machine builders purged _ "acme" "purged" purged-Closed
      (then at_once (holds "acme" true)) purged-IsIn
