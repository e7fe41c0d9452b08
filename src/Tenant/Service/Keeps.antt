-- ===== src/Tenant/Service/Keeps.antt =====
-- The actions of a transition before its own writes: they leave the records of the tenants, of the
-- completed transitions and of the audit log as they are.
use observability_kit.Prelude.{
  ℕ, String, Bool, true, false, List, [], ◌∷◌, ◌≡◌, refl, ◌∙◌, if◌then◌else◌, arith,
}
use observability_kit.Prelude.Exec.{
  Exec, Result, ok, raised, lift, pure, gets, modify, and_then, ◌>>=◌,
}
use observability_kit.Json.{Fields}
use observability_kit.Tenant.Errors.{Exception}
use observability_kit.Tenant.Store.{
  Store, Completed, TenantRecord, save_prepared_commit, save_evidence,
}
use observability_kit.Tenant.Request.{Request}
use observability_kit.Tenant.Machine.{Spec}
use observability_kit.Tenant.Renders.{Builders, execute_isolation_renders, remove_overlay}
use observability_kit.Tenant.Service.Gates.{Times}
use observability_kit.Tenant.Service.Apply.{
  record_evidence, execute_purge, execute_provision, apply_provision, apply_kept, apply_purge,
  apply_named,
}
use observability_kit.Tenant.Service.Replay.{
  converge_overlay, replay_provision, replay_purge, replay_named,
}

-- Two stores hold the same records.
pub record SameRecords (s s' : Store) : Type 0 where
  pub tenants : s'.tenants ≡ s.tenants
  pub transitions : s'.transitions ≡ s.transitions
  pub audits : s'.audits ≡ s.audits

pub SameRecords-refl : (s : Store) → SameRecords s s
SameRecords-refl s = record { tenants = refl; transitions = refl; audits = refl }

SameRecords-trans : (r s t : Store) → SameRecords r s → SameRecords s t → SameRecords r t
SameRecords-trans r s t h k = record {
  tenants = k.tenants ∙ h.tenants;
  transitions = k.transitions ∙ h.transitions;
  audits = k.audits ∙ h.audits;
}

pub record KeepsRecords {A : Type 0} (m : Exec Exception Store A) : Type 0 where
  pub at : (s : Store) → SameRecords s (m s).1

module _ {A B : Type 0} where
  and_then-SameRecords :
      (r : Result Exception A) (f : A → Exec Exception Store B) (s : Store)
      → ((a : A) → KeepsRecords (f a))
      → SameRecords s (and_then r f s).1
  and_then-SameRecords (ok a) f s k = (k a).at s
  and_then-SameRecords (raised e) f s k = SameRecords-refl s

  KeepsRecords-bind :
      (m : Exec Exception Store A) (f : A → Exec Exception Store B)
      → KeepsRecords m
      → ((a : A) → KeepsRecords (f a))
      → KeepsRecords (m >>= f)
  KeepsRecords-bind m f h k = record {
    at = λ s. SameRecords-trans s (m s).1 _ (h.at s) (and_then-SameRecords (m s).0 f (m s).1 k);
  }

module _ {A : Type 0} where
  KeepsRecords-lift : (r : Result Exception A) → KeepsRecords (lift r)
  KeepsRecords-lift r = record { at = SameRecords-refl }

  KeepsRecords-pure : (a : A) → KeepsRecords (pure a)
  KeepsRecords-pure a = record { at = SameRecords-refl }

  KeepsRecords-gets : (f : Store → A) → KeepsRecords (gets f)
  KeepsRecords-gets f = record { at = SameRecords-refl }

  KeepsRecords-if :
      (b : Bool) (m n : Exec Exception Store A)
      → KeepsRecords m
      → KeepsRecords n
      → KeepsRecords (if b then m else n)
  KeepsRecords-if true m n h k = h
  KeepsRecords-if false m n h k = k

KeepsRecords-tree :
    (f : Store → List (String × String)) → KeepsRecords (modify (λ s. record s { tree = f s }))
KeepsRecords-tree f = record {
  at = λ s. record { tenants = refl; transitions = refl; audits = refl };
}

KeepsRecords-commit :
    (t name content : String) → KeepsRecords (modify (save_prepared_commit t name content))
unfolding save_prepared_commit
KeepsRecords-commit t name content = record {
  at = λ s. record { tenants = refl; transitions = refl; audits = refl };
}

record_evidence-KeepsRecords :
    (t : String) (dedicated : Bool) (now : ℕ) (cs : List String)
    → KeepsRecords (record_evidence t dedicated now cs)
unfolding record_evidence save_evidence
record_evidence-KeepsRecords t dedicated now [] = record { at = SameRecords-refl }
record_evidence-KeepsRecords t dedicated now (c ∷ cs) = record {
  at = λ s.
      SameRecords-trans s _ _ (record { tenants = refl; transitions = refl; audits = refl })
        ((record_evidence-KeepsRecords t dedicated now cs).at _);
}

remove_overlay-KeepsRecords : (t : String) → KeepsRecords (remove_overlay t)
unfolding remove_overlay
remove_overlay-KeepsRecords t = record {
  at = λ s. record { tenants = ground arith; transitions = ground arith; audits = ground arith };
}

ruleset keeping_rules = (
  KeepsRecords-bind, KeepsRecords-lift, KeepsRecords-pure, KeepsRecords-gets, KeepsRecords-if,
  KeepsRecords-tree, KeepsRecords-commit, record_evidence-KeepsRecords, remove_overlay-KeepsRecords,
)

execute_purge-KeepsRecords :
    (t : String) (dedicated : Bool) (now : ℕ) → KeepsRecords (execute_purge t dedicated now)
unfolding execute_purge
execute_purge-KeepsRecords t dedicated now = search keeping_rules depth 8

module _ (b : Builders) where
  execute_isolation_renders-KeepsRecords :
      (t : String) (fs : Fields) → KeepsRecords (execute_isolation_renders b t fs)
  unfolding execute_isolation_renders
  execute_isolation_renders-KeepsRecords t fs = record {
    at = λ s. record { tenants = refl; transitions = refl; audits = refl };
  }

  execute_provision-KeepsRecords :
      (t : String) (fs : Fields) → KeepsRecords (execute_provision b t fs)
  unfolding execute_provision
  execute_provision-KeepsRecords t fs =
      search (keeping_rules, execute_isolation_renders-KeepsRecords) depth 8

  apply_provision-KeepsRecords :
      (t : String) (r : TenantRecord) (c : Completed) (now : ℕ)
      → KeepsRecords (apply_provision b t r c now)
  unfolding apply_provision
  apply_provision-KeepsRecords t r c now = search (keeping_rules, execute_provision-KeepsRecords)

  apply_kept-KeepsRecords :
      (spec : Spec) (t : String) (r : TenantRecord) (q : Request) (c : Completed) (now : ℕ)
      → KeepsRecords (apply_kept b spec t r q c now)
  unfolding apply_kept
  apply_kept-KeepsRecords spec t r q c now = search keeping_rules depth 8

  apply_purge-KeepsRecords :
      (t : String) (r : TenantRecord) (c : Completed) (now : ℕ)
      → KeepsRecords (apply_purge b t r c now)
  unfolding apply_purge
  apply_purge-KeepsRecords t r c now = search (keeping_rules, execute_purge-KeepsRecords)

  pub apply_named-KeepsRecords :
      (spec : Spec) (t : String) (r : TenantRecord) (q : Request) (times : Times)
      → KeepsRecords (apply_named b spec t r q times)
  unfolding apply_named
  apply_named-KeepsRecords spec t r q times = search (
    keeping_rules, apply_provision-KeepsRecords, apply_kept-KeepsRecords, apply_purge-KeepsRecords,
  )

  converge_overlay-KeepsRecords :
      (t : String) (fs : Fields) → KeepsRecords (converge_overlay b t fs)
  unfolding converge_overlay
  converge_overlay-KeepsRecords t fs = search keeping_rules depth 8

  replay_provision-KeepsRecords :
      (t : String) (fs : Fields) → KeepsRecords (replay_provision b t fs)
  unfolding replay_provision
  replay_provision-KeepsRecords t fs =
      search (keeping_rules, converge_overlay-KeepsRecords, execute_isolation_renders-KeepsRecords)

  replay_purge-KeepsRecords : (t : String) (fs : Fields) → KeepsRecords (replay_purge b t fs)
  unfolding replay_purge
  replay_purge-KeepsRecords t fs = search keeping_rules

  pub replay_named-KeepsRecords :
      (spec : Spec) (t : String) (fs : Fields) → KeepsRecords (replay_named b spec t fs)
  unfolding replay_named
  replay_named-KeepsRecords spec t fs =
      search (keeping_rules, replay_provision-KeepsRecords, replay_purge-KeepsRecords)
