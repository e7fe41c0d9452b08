-- ===== src/Tenant/Machine/Loader.antt =====
-- load_state_machine of services/tenancy/tenantctl/state_machine.py, from the lines of the contract.
use observability_kit.Prelude.{
  ℕ, String, Bool, true, false, ◌||◌, ◌&&◌, List, [], ◌∷◌, ◌++◌, Option, none, some, ◌==◌, ◌=?◌,
  elem, null, if◌then◌else◌,
}
use observability_kit.Prelude.Dict.{Dict, lookup, put}
use observability_kit.Prelude.Exec.{Result, ok, raised}
use observability_kit.Prelude.Raise.{◌>>=◌}
use observability_kit.Text.{
  strip, drop, starts_with, but_last, ends_with_colon, after_colon, indent_of,
}
use observability_kit.Tenant.Machine.{Spec, Machine}

-- The dict of one transition while its lines are read.
pub record Draft : Type 0 where
  pub from_states : List String
  pub to_state : Option String
  pub idempotent : Option Bool
  pub risk_class : Option String
  pub audit_fields : List String

abbrev pub blank : Draft
blank = record {
  from_states = [];
  to_state = none;
  idempotent = none;
  risk_class = none;
  audit_fields = [];
}

pub data MachineField : Type 0 where
  no_machine_field in_states in_terminal_states : MachineField

pub data TransitionField : Type 0 where
  no_field in_from in_approval in_audit : TransitionField

-- The loop's variables; `current` is the key under which the current dict stands in `transitions`.
pub record Scan : Type 0 where
  pub states : List String
  pub initial_state : Option String
  pub terminal_states : List String
  pub transitions : Dict Draft
  pub section : Option String
  pub machine_field : MachineField
  pub current : Option String
  pub field : TransitionField
  pub in_required_fields : Bool

abbrev pub start : Scan
start = record {
  states = [];
  initial_state = none;
  terminal_states = [];
  transitions = [];
  section = none;
  machine_field = no_machine_field;
  current = none;
  field = no_field;
  in_required_fields = false;
}

-- A line without indentation opens a section, or closes the last.
unfoldable pub open_section : Scan → String → Scan
open_section s line = record s {
  section = if ends_with_colon line then some (but_last line) else none;
  machine_field = no_machine_field;
  current = none;
  field = no_field;
  in_required_fields = false;
}

abbrev item_of : String → String
item_of line = strip (drop 2 line)

abbrev add_state : MachineField → String → Scan → Scan
add_state no_machine_field x s = s
add_state in_states x s = record s { states = s.states ++ x ∷ [] }
add_state in_terminal_states x s = record s { terminal_states = s.terminal_states ++ x ∷ [] }

unfoldable pub machine_line : Scan → ℕ → String → Scan
machine_line s indent line =
    if indent =? 2
    then if line == "states:"
      then record s { machine_field = in_states }
      else if line == "terminal_states:"
      then record s { machine_field = in_terminal_states }
      else if starts_with "initial_state:" line
      then record s {
        initial_state = some (strip (after_colon line));
        machine_field = no_machine_field;
      }
      else record s { machine_field = no_machine_field }
    else if indent =? 4 && starts_with "- " line
    then add_state s.machine_field (item_of line) s
    else s

-- `current[...] = ...` on the dict in `transitions`.
unfoldable pub amend : (Draft → Draft) → String → Dict Draft → Dict Draft
amend f name [] = []
amend f name ((k, d) ∷ more) =
    let rest = amend f name more in if k == name then (k, f d) ∷ more else (k, d) ∷ rest

abbrev change : String → (Draft → Draft) → Scan → Scan
change name f s = record s { transitions = amend f name s.transitions }

-- The keys of a transition, at four blanks.
unfoldable pub transition_key : Scan → String → String → Scan
transition_key s name line =
    if line == "from:"
    then record s { field = in_from }
    else if starts_with "to:" line
    then change name (λ d. record d { to_state = some (strip (after_colon line)) })
        (record s { field = no_field })
    else if starts_with "idempotent:" line
    then change name (λ d. record d { idempotent = some (strip (after_colon line) == "true") })
        (record s { field = no_field })
    else if line == "approval:"
    then record s { field = in_approval }
    else if line == "audit:"
    then record s { field = in_audit }
    else record s { field = no_field }

-- What stands below a key, at six blanks.
unfoldable pub transition_value : Scan → String → String → Scan
transition_value s name line = elim s.field [
  | in_from ↦
      if starts_with "- " line
      then change name (λ d. record d { from_states = d.from_states ++ item_of line ∷ [] }) s
      else s
  | in_approval ↦
      if starts_with "risk_class:" line
      then change name (λ d. record d { risk_class = some (strip (after_colon line)) }) s
      else s
  | in_audit ↦ if line == "required_fields:" then record s { in_required_fields = true } else s
  | no_field ↦ s
]

unfoldable pub transition_line : Scan → ℕ → String → String → Scan
transition_line s indent name line =
    if indent =? 4
    then transition_key (record s { in_required_fields = false }) name line
    else if indent =? 6
    then transition_value s name line
    else if indent =? 8 && s.in_required_fields && starts_with "- " line
    then change name (λ d. record d { audit_fields = d.audit_fields ++ item_of line ∷ [] }) s
    else s

unfoldable pub open_transition : Scan → String → Scan
open_transition s name = record s {
  transitions = put name blank s.transitions;
  current = some name;
  field = no_field;
  in_required_fields = false;
}

unfoldable pub transitions_line : Scan → ℕ → String → Scan
transitions_line s indent line =
    if indent =? 2 && ends_with_colon line
    then open_transition s (but_last line)
    else elim s.current [ none ↦ s | some name ↦ transition_line s indent name line ]

abbrev in_section : String → Option String → Bool
in_section name none = false
in_section name (some s) = s == name

-- The loop's body.
unfoldable pub scan_line : Scan → String → Scan
scan_line s raw =
    let line = strip raw in
    if line == "" || starts_with "#" line
    then s
    else if indent_of raw =? 0
    then open_section s line
    else if in_section "state_machine" s.section
    then machine_line s (indent_of raw) line
    else if in_section "transitions" s.section
    then transitions_line s (indent_of raw) line
    else s

unfoldable pub scan_lines : Scan → List String → Scan
scan_lines s [] = s
scan_lines s (raw ∷ more) = scan_lines (scan_line s raw) more

-- The causes of a LifecycleContractError.
pub data LoadError : Type 0 where
  no_machine : LoadError
  missing_facts : (name : String) → LoadError
  unknown_state : (name state : String) → LoadError
  missing_transitions : List String → LoadError

unfoldable pub check_states : String → List String → List String → Result LoadError (Unit {0})
check_states name states [] = ok tt
check_states name states (x ∷ xs) =
    let rest = check_states name states xs in
    if elem x states then rest else raised (unknown_state name x)

unfoldable pub complete_draft :
    String → Draft → Option String → Option Bool → Result LoadError (String × Bool)
complete_draft name d none idempotent = raised (missing_facts name)
complete_draft name d (some to) none = raised (missing_facts name)
complete_draft name d (some to) (some b) =
    if null d.from_states || null d.audit_fields then raised (missing_facts name) else ok (to, b)

-- The body of the loop over the transitions that were read.
unfoldable pub spec_of : List String → String → Draft → Result LoadError Spec
spec_of states name d = complete_draft name d d.to_state d.idempotent >>= λ facts.
    check_states name states (d.from_states ++ facts.0 ∷ []) >>= λ _. ok (record {
      name = name;
      from_states = d.from_states;
      to_state = facts.0;
      idempotent = facts.1;
      approval_risk_class = d.risk_class;
      audit_required_fields = d.audit_fields;
    })

unfoldable pub specs_of : List String → Dict Draft → Result LoadError (Dict Spec)
specs_of states [] = ok []
specs_of states ((name, d) ∷ more) =
    spec_of states name d >>= λ spec. specs_of states more >>= λ specs. ok ((name, spec) ∷ specs)

abbrev pub transition_names : List String
transition_names = "provision" ∷ "suspend" ∷ "resume" ∷ "offboard" ∷ "purge" ∷ []

-- TRANSITION_NAMES that have no entry, in that order; the source sorts them for its message.
unfoldable pub missing_names : List String → Dict Spec → List String
missing_names [] specs = []
missing_names (n ∷ ns) specs =
    let rest = missing_names ns specs in elim (lookup n specs) [ none ↦ n ∷ rest | some _ ↦ rest ]

abbrev pub reject_missing : List String → Result LoadError (Unit {0})
reject_missing [] = ok tt
reject_missing (n ∷ ns) = raised (missing_transitions (n ∷ ns))

unfoldable pub build_machine : Scan → Option String → Result LoadError Machine
build_machine s none = raised no_machine
build_machine s (some initial) =
    if null s.states || null s.terminal_states
    then raised no_machine
    else specs_of s.states s.transitions >>= λ specs.
        reject_missing (missing_names transition_names specs) >>= λ _. ok (record {
          states = s.states;
          initial_state = initial;
          terminal_states = s.terminal_states;
          transitions = specs;
        })

unfoldable pub load_state_machine : List String → Result LoadError Machine
load_state_machine lines = let s = scan_lines start lines in build_machine s s.initial_state
