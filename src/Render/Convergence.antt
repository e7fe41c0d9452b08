-- ===== src/Render/Convergence.antt =====
-- Rendering converges: after execute_plan nothing is left to change, and nothing else was touched.
use observability_kit.Prelude.{
  String, Bool, ◌++◌, Option, none, true, false, ap, sym, ◌∙◌, ◌⊎◌, inl, inr, Bool-cases, List, [],
  ◌∷◌, some, ◌==◌, ◌≡◌, refl, elem, arith, eq_iff, if◌then◌else◌,
}
use observability_kit.Prelude.Dict.{Dict, lookup, put, lookup-put}
use observability_kit.Prelude.Exec.{Result, ok, raised}
use observability_kit.Render.{
  Artifact, Plan, paths, is_current, changed_from, changed_paths, write_from, write_files, files_of,
  RenderError, outside_root, execute_plan,
}

-- A path that was seen is not written again.
lookup-write_from_seen :
    (q : String) (seen : List String) (files : List Artifact) (t : Dict String)
    → elem q seen ≡ true
    → lookup q (write_from seen files t) ≡ lookup q t
unfolding write_from
lookup-write_from_seen q seen [] t h = refl
lookup-write_from_seen q seen ((p, c) ∷ more) t h = ground (
  arith,
  lookup-write_from_seen q (p ∷ seen) more (if elem p seen then t else put p c t),
  lookup-put p q c t,
  eq_iff p q,
)

-- Nor is one that is no artifact's.
lookup-write_from_ne :
    (q : String) (seen : List String) (files : List Artifact) (t : Dict String)
    → elem q (paths files) ≡ false
    → lookup q (write_from seen files t) ≡ lookup q t
unfolding write_from
lookup-write_from_ne q seen [] t h = refl
lookup-write_from_ne q seen ((p, c) ∷ more) t h = ground (
  arith,
  lookup-write_from_ne q (p ∷ seen) more (if elem p seen then t else put p c t),
  lookup-put p q c t,
  eq_iff p q,
)

elem-head : (p : String) (seen : List String) → elem p (p ∷ seen) ≡ true
elem-head p seen = ground (arith, eq_iff p p)

is_current-of_lookup :
    (t : Dict String) (p c : String) → lookup p t ≡ some c → is_current t p c ≡ true
unfolding is_current
is_current-of_lookup t p c h = ground (arith, eq_iff c c)

is_current-put_ne :
    (t : Dict String) (p c m d : String)
    → (m == p) ≡ false
    → is_current (put m d t) p c ≡ is_current t p c
unfolding is_current
is_current-put_ne t p c m d h = ground (arith, lookup-put m p d t)

-- What execute_plan wrote is current, whatever was on the tree.
changed_from-write_from :
    (seen : List String) (files : List Artifact) (t : Dict String)
    → changed_from seen files (write_from seen files t) ≡ []
unfolding changed_from write_from
changed_from-write_from seen [] t = refl
changed_from-write_from seen ((p, c) ∷ more) t =
    let t' : Dict String = if elem p seen then t else put p c t in
    let t'' : Dict String = write_from (p ∷ seen) more t' in
    ground (
      arith,
      changed_from-write_from (p ∷ seen) more t',
      lookup-write_from_seen p (p ∷ seen) more t' (elem-head p seen),
      lookup-put p p c t,
      is_current-of_lookup t'' p c,
      eq_iff p p,
    )

-- A write outside the artifacts changes nothing of the comparison.
changed_from-put_ne :
    (m d : String) (seen : List String) (files : List Artifact) (t : Dict String)
    → elem m (paths files) ≡ false
    → changed_from seen files (put m d t) ≡ changed_from seen files t
unfolding changed_from
changed_from-put_ne m d seen [] t h = refl
changed_from-put_ne m d seen ((p, c) ∷ more) t h = ground (
  arith,
  changed_from-put_ne m d (p ∷ seen) more t,
  is_current-put_ne t p c m d,
  eq_iff p m,
  eq_iff m p,
)

changed_paths-write_files :
    (plan : Plan) (t : Dict String)
    → elem plan.manifest_path (paths plan.artifacts) ≡ false
    → changed_paths plan (write_files plan t) ≡ []
unfolding changed_paths write_files
changed_paths-write_files plan t apart =
    let done = write_from [] plan.artifacts t in
    ground (
      arith,
      changed_from-put_ne plan.manifest_path plan.manifest_content [] plan.artifacts done apart,
      changed_from-write_from [] plan.artifacts t,
      lookup-put plan.manifest_path plan.manifest_path plan.manifest_content done,
      is_current-of_lookup (put plan.manifest_path plan.manifest_content done) plan.manifest_path
          plan.manifest_content,
      eq_iff plan.manifest_path plan.manifest_path,
    )

changed_paths-put_ne :
    (plan : Plan) (p c : String) (t : Dict String)
    → elem p (plan.manifest_path ∷ paths plan.artifacts) ≡ false
    → changed_paths plan (put p c t) ≡ changed_paths plan t
unfolding changed_paths
changed_paths-put_ne plan p c t apart = ground (
  arith,
  changed_from-put_ne p c [] plan.artifacts t,
  is_current-put_ne t plan.manifest_path plan.manifest_content p c,
  eq_iff plan.manifest_path p,
  eq_iff p plan.manifest_path,
)

-- The path of the commit message, if there is one, is neither the manifest's nor an artifact's.
abbrev pub IsApart : Plan → Option String → Type 0
IsApart plan none = Unit
IsApart plan (some p) = elem p (plan.manifest_path ∷ paths plan.artifacts) ≡ false

if-ok :
    (b : Bool) (x y : List String) (t u v : Dict String) (e : RenderError)
    → ◌≡◌ {A = Result RenderError (List String) × Dict String}
        (if b then (ok x, t) else (raised e, u))
        (ok y, v)
    → t ≡ v
if-ok true x y t u v e h = ap (λ r. r.1) h
if-ok false x y t u v e h = ground arith

-- When execute_plan returns, changed_paths of the same plan is empty, on any tree, for any plan whose
-- manifest is not one of its artifacts, with no commit message path or one that is neither the
-- manifest's nor an artifact's.
pub changed_paths-execute_plan :
    (contained : String → Bool) (plan : Plan) (out : Option String) (t t' : Dict String)
    (written : List String)
    → elem plan.manifest_path (paths plan.artifacts) ≡ false
    → IsApart plan out
    → execute_plan contained plan out t ≡ (ok written, t')
    → changed_paths plan t' ≡ []
unfolding execute_plan
changed_paths-execute_plan contained plan none t t' written own apart h =
    sym (ap (λ r. changed_paths plan r.1) h) ∙ changed_paths-write_files plan t own
changed_paths-execute_plan contained plan (some p) t t' written own apart h =
    let done = write_files plan t in
    let after : put p plan.commit_message done ≡ t' =
      if-ok (contained p) (files_of plan ++ p ∷ []) written _ t t' (outside_root p) h in
    sym (ap (changed_paths plan) after)
    ∙ changed_paths-put_ne plan p plan.commit_message done apart
    ∙ changed_paths-write_files plan t own

lookup-write_files_ne :
    (plan : Plan) (t : Dict String) (q : String)
    → elem q (plan.manifest_path ∷ paths plan.artifacts) ≡ false
    → lookup q (write_files plan t) ≡ lookup q t
unfolding write_files
lookup-write_files_ne plan t q h = ground (
  arith,
  lookup-put plan.manifest_path q plan.manifest_content (write_from [] plan.artifacts t),
  lookup-write_from_ne q [] plan.artifacts t,
)

-- The files that execute_plan may write.
abbrev pub targets : Plan → Option String → List String
targets plan none = plan.manifest_path ∷ paths plan.artifacts
targets plan (some p) = p ∷ plan.manifest_path ∷ paths plan.artifacts

-- execute_plan, returning or raising, leaves every file alone that is neither an artifact of the plan,
-- nor its manifest, nor the commit message's; and where it raises, it leaves all files alone.
pub lookup-execute_plan_ne :
    (contained : String → Bool) (plan : Plan) (out : Option String) (t : Dict String) (q : String)
    → (elem q (targets plan out) ≡ false)
      ⊎ ((e : RenderError) × ((execute_plan contained plan out t).0 ≡ raised e))
    → lookup q (execute_plan contained plan out t).1 ≡ lookup q t
unfolding execute_plan
lookup-execute_plan_ne contained plan none t q (inl h) = lookup-write_files_ne plan t q h
lookup-execute_plan_ne contained plan none t q (inr (e, h)) = ground arith
lookup-execute_plan_ne contained plan (some p) t q (inl h) = elim (Bool-cases (contained p)) [
  | inl c ↦ rw c (
      ground (
        arith,
        lookup-put p q plan.commit_message (write_files plan t),
        lookup-write_files_ne plan t q,
        eq_iff p q,
        eq_iff q p,
      ))
  | inr c ↦ rw c refl
]
lookup-execute_plan_ne contained plan (some p) t q (inr (e, h)) = elim (Bool-cases (contained p)) [
  | inl c ↦ absurd (ground (arith, c, h))
  | inr c ↦ rw c refl
]
