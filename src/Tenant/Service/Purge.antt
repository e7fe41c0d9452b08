-- ===== src/Tenant/Service/Purge.antt =====
-- A purge that is applied: the offboarding is on record, its retention window is over, no legal hold.
use observability_kit.Prelude.{
  ℕ, ◌≤◌, String, Bool, true, false, Option, none, some, ◌==◌, ◌≡◌, inl, inr, refl, arith,
}
use observability_kit.Prelude.Exec.{ok}
use observability_kit.Json.{Json}
use observability_kit.Tenant.Store.{
  Store, Completed, TenantRecord, load_tenant_record, load_transition_record,
}
use observability_kit.Tenant.Machine.{Machine, Spec, find_spec}
use observability_kit.Tenant.Renders.{Builders}
use observability_kit.Tenant.Service.Gates.{Times, check_window, check_purge, check_preconditions}
use observability_kit.Tenant.Service.Extras.{Outcome}
use observability_kit.Tenant.Service.Transition.{transition}
use observability_kit.Tenant.Service.Applied.{transition-IsAdmitted}

-- The offboard record names a window that ended before `now`.
pub record WindowOver (s : Store) (t : String) (now : ℕ) : Type 0 where
  pub offboarded : Completed
  pub ends_at : ℕ
  pub recorded : load_transition_record s t "offboard" ≡ some offboarded
  pub window : offboarded.retention_window_ends_at ≡ some ends_at
  pub over : ends_at ≤ now

pub record IsPurgeable (s : Store) (t : String) (r : TenantRecord) (now : ℕ) : Type 0 where
  pub stored : load_tenant_record s t ≡ some r
  pub window : WindowOver s t now
  pub not_held : r.legal_hold ≡ false

check_window-eq-ok :
    (t : String) (hold : Bool) (now : ℕ) (o : Option ℕ)
    → check_window t hold now o ≡ ok tt
    → ((ends_at : ℕ) × (o ≡ some ends_at) × (ends_at ≤ now)) × (hold ≡ false)
unfolding check_window
check_window-eq-ok t hold now none h = ground arith
check_window-eq-ok t hold now (some n) h = ((n, refl, ground arith), ground arith)

check_purge-eq-ok :
    (t : String) (hold : Bool) (now : ℕ) (s : Store) (o : Option Completed)
    → load_transition_record s t "offboard" ≡ o
    → check_purge t hold now o ≡ ok tt
    → WindowOver s t now × (hold ≡ false)
unfolding check_purge
check_purge-eq-ok t hold now s none e h = ground arith
check_purge-eq-ok t hold now s (some c) e h =
    let ((ends_at, window, over), free) = check_window-eq-ok t hold now _ h in
    (record { offboarded = c; ends_at = ends_at; recorded = e; window = window; over = over }, free)

preconditions-purge :
    (spec : Spec) (t : String) (r : TenantRecord) (now : ℕ) (s : Store)
    → spec.name ≡ "purge"
    → check_preconditions spec t r now s ≡ ok tt
    → check_purge t r.legal_hold now (load_transition_record s t "offboard") ≡ ok tt
unfolding check_preconditions
preconditions-purge spec t r now s e h =
    let is_purge : (spec.name == "purge") ≡ true = rw e refl in ground arith

-- Each transition of the machine is filed under its name.
abbrev pub NamesSpecs : Machine → Type 0
NamesSpecs m = (name : String) (spec : Spec) → find_spec m name ≡ some spec → spec.name ≡ name

-- A purge that returns and is no replay: the tenant has been offboarded, the retention window that
-- the offboarding recorded was over when the preconditions were checked, and the tenant was under no
-- legal hold.
pub purge-IsPurgeable :
    (m : Machine) (b : Builders) (t : String) (payload : Json) (scope : Option String)
    (times : Times) (s s' : Store) (x : Outcome)
    → NamesSpecs m
    → transition m b "purge" t payload scope times s ≡ (ok x, s')
    → x.replay ≡ false
    → (r : TenantRecord) × IsPurgeable s t r times.checked
purge-IsPurgeable m b t payload scope times s s' x named h fresh =
    let (a, admitted, done) = transition-IsAdmitted m b "purge" t payload scope times s s' x h in
    elim done [
      | inl applied ↦
          let (window, free) =
            check_purge-eq-ok t a.tenant.legal_hold times.checked s
              (load_transition_record s t "offboard") refl
              (preconditions-purge a.spec t a.tenant times.checked s
                (named "purge" a.spec admitted.spec) applied.preconditions) in
          (a.tenant, record { stored = admitted.stored; window = window; not_held = free })
      | inr (_, replayed) ↦ cc (fresh, replayed.outcome.2)
    ]
