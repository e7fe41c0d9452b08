-- ===== src/Tenant/Machine/Loaded.antt =====
-- What a loaded state machine satisfies.
use observability_kit.Prelude.{
  String, Bool, true, false, ◌||◌, List, [], ◌∷◌, ◌++◌, Option, none, some, ◌==◌, ◌≡◌, refl, ap,
  sym, ◌∙◌, Bool-cases, Option-cases, inl, inr, elem, null, eq_iff, arith, if◌then◌else◌,
}
use mathlib.Core.Path.{subst}
use observability_kit.Prelude.Dict.{Dict, lookup}
use observability_kit.Prelude.Exec.{Result, ok, raised}
use observability_kit.Prelude.Raise.{bind-ok, ok-inj}
use observability_kit.Tenant.Machine.{Spec, Machine, find_spec}
use observability_kit.Tenant.Machine.Loader.{
  Draft, Scan, LoadError, check_states, complete_draft, spec_of, specs_of, missing_names,
  transition_names, build_machine, load_state_machine, reject_missing, scan_lines, start,
}

abbrev pub AllIn : List String → List String → Type 0
AllIn [] states = Unit
AllIn (x ∷ xs) states = (elem x states ≡ true) × AllIn xs states

-- A transition of a machine with the states.
pub record IsSpec (states : List String) (name : String) (spec : Spec) : Type 0 where
  pub named : spec.name ≡ name
  pub origins : AllIn spec.from_states states
  pub has_origin : null spec.from_states ≡ false
  pub target : elem spec.to_state states ≡ true
  pub audited : null spec.audit_required_fields ≡ false

pub record IsMachine (m : Machine) : Type 0 where
  pub has_state : null m.states ≡ false
  pub has_end : null m.terminal_states ≡ false
  pub specs :
      (name : String) (spec : Spec) → find_spec m name ≡ some spec → IsSpec m.states name spec
  pub complete :
      (name : String)
      → elem name transition_names ≡ true
      → (spec : Spec) × (find_spec m name ≡ some spec)

check_states-AllIn :
    (name : String) (states xs : List String) (y : String)
    → check_states name states (xs ++ y ∷ []) ≡ ok tt
    → AllIn xs states × (elem y states ≡ true)
unfolding check_states
check_states-AllIn name states [] y h = (tt, ground arith)
check_states-AllIn name states (x ∷ xs) y h =
    let (xs_in, y_in) = check_states-AllIn name states xs y (ground arith) in
    ((ground arith, xs_in), y_in)

complete_draft-ok :
    (name : String) (d : Draft) (to : Option String) (idempotent : Option Bool) (x : String × Bool)
    → complete_draft name d to idempotent ≡ ok x
    → (null d.from_states ≡ false) × (null d.audit_fields ≡ false)
unfolding complete_draft
complete_draft-ok name d none i x h = ground arith
complete_draft-ok name d (some to) none x h = ground arith
complete_draft-ok name d (some to) (some i) x h = (ground arith, ground arith)

spec_of-IsSpec :
    (states : List String) (name : String) (d : Draft) (spec : Spec)
    → spec_of states name d ≡ ok spec
    → IsSpec states name spec
unfolding spec_of
spec_of-IsSpec states name d spec h =
    let (facts, complete, h₁) = bind-ok (complete_draft name d d.to_state d.idempotent) _ spec h in
    let (_, checked, h₂) =
      bind-ok (check_states name states (d.from_states ++ facts.0 ∷ [])) _ spec h₁ in
    let (origins, target) = check_states-AllIn name states d.from_states facts.0 checked in
    let (some_from, some_audit) = complete_draft-ok name d d.to_state d.idempotent facts complete in
    subst (IsSpec states name) (ok-inj h₂) (record {
      named = refl;
      origins = origins;
      has_origin = some_from;
      target = target;
      audited = some_audit;
    })

specs_of-IsSpec :
    (states : List String) (ds : Dict Draft) (specs : Dict Spec) (name : String) (spec : Spec)
    → specs_of states ds ≡ ok specs
    → lookup name specs ≡ some spec
    → IsSpec states name spec
unfolding specs_of lookup
specs_of-IsSpec states [] specs name spec h found = ground arith
specs_of-IsSpec states ((k, d) ∷ ds) specs name spec h found =
    let (x, made, h₁) = bind-ok (spec_of states k d) _ specs h in
    let (xs, more, h₂) = bind-ok (specs_of states ds) _ specs h₁ in
    let at_name : lookup name ((k, x) ∷ xs) ≡ some spec = ap (lookup name) (ok-inj h₂) ∙ found in
    elim (Bool-cases (k == name)) [
      | inl e ↦
          subst (λ j. IsSpec states j spec) ((eq_iff k name).0 e)
            (subst (IsSpec states k) (ground arith) (spec_of-IsSpec states k d x made))
      | inr e ↦ specs_of-IsSpec states ds xs name spec more (ground arith)
    ]

missing_names-none :
    (ns : List String) (specs : Dict Spec) (name : String)
    → missing_names ns specs ≡ []
    → elem name ns ≡ true
    → (spec : Spec) × (lookup name specs ≡ some spec)
unfolding missing_names
missing_names-none [] specs name h e = ground arith
missing_names-none (n ∷ ns) specs name h e = elim (Option-cases (lookup n specs)) [
  | inl none_there ↦ ground arith
  | inr (x, found) ↦ elim (Bool-cases (n == name)) [
    | inl same ↦ (x, ap (λ k. lookup k specs) (sym ((eq_iff n name).0 same)) ∙ found)
    | inr other ↦ missing_names-none ns specs name (ground arith) (ground arith)
  ]
]

reject_missing-nil : (ns : List String) → reject_missing ns ≡ ok tt → ns ≡ []
reject_missing-nil [] h = refl
reject_missing-nil (n ∷ ns) h = ground arith

if-ok :
    (c : Bool) (e : LoadError) (r : Result LoadError Machine) (m : Machine)
    → (if c then raised e else r) ≡ ok m
    → (c ≡ false) × (r ≡ ok m)
if-ok true e r m h = ground arith
if-ok false e r m h = (refl, h)

build_machine-IsMachine :
    (s : Scan) (o : Option String) (m : Machine) → build_machine s o ≡ ok m → IsMachine m
unfolding build_machine find_spec
build_machine-IsMachine s none m h = ground arith
build_machine-IsMachine s (some initial) m h =
    let (none_missing, h₀) = if-ok (null s.states || null s.terminal_states) _ _ m h in
    let (specs, made, h₁) = bind-ok (specs_of s.states s.transitions) _ m h₀ in
    let (_, all_there, h₂) =
      bind-ok (reject_missing (missing_names transition_names specs)) _ m h₁ in
    subst IsMachine (ok-inj h₂) (record {
      has_state = ground arith;
      has_end = ground arith;
      specs = λ name spec found. specs_of-IsSpec s.states s.transitions specs name spec made found;
      complete = λ name e.
          missing_names-none transition_names specs name
            (reject_missing-nil (missing_names transition_names specs) all_there) e;
    })

-- A machine that load_state_machine returns has states and terminal states, each of the five
-- transitions of the API, and every transition is filed under its own name, starts in at least one
-- state, all of them states of the machine, ends in a state of the machine, and names at least one
-- required audit field.
pub load_state_machine-IsMachine :
    (lines : List String) (m : Machine) → load_state_machine lines ≡ ok m → IsMachine m
unfolding load_state_machine
load_state_machine-IsMachine lines m h =
    build_machine-IsMachine (scan_lines start lines) (scan_lines start lines).initial_state m h
