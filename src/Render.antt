-- ===== src/Render.antt =====
-- The write path of tools/obskit/obskit/configrender/render.py: changed_paths and execute_plan of a
-- RenderPlan, over the tree of files as a dictionary from paths to contents. A path is a text that
-- names one file, from the repository's root, and no two name the same file; changed_paths reports
-- the manifest by that path too. Directories are not modelled, since the code makes those that are
-- missing. Whether a path resolves inside the repository, which depends on links, is a parameter.
pub mod Convergence
mod Tests
use observability_kit.Prelude.{
  String, Bool, true, false, ◌||◌, ◌&&◌, List, [], ◌∷◌, ◌++◌, Option, none, some, ◌==◌, elem, map,
  if◌then◌else◌,
}
use observability_kit.Prelude.Dict.{Dict, lookup, put}
use observability_kit.Prelude.Exec.{Result, ok, raised}

-- A PlannedArtifact, by what is written of it: its path and its content.
abbrev pub Artifact : Type 0
Artifact = String × String

pub record Plan : Type 0 where
  pub document_digest : String
  pub artifacts : List Artifact
  pub manifest_path : String
  pub manifest_content : String
  pub commit_message : String

abbrev pub paths : List Artifact → List String
paths [] = []
paths ((p, c) ∷ more) = p ∷ paths more

abbrev pub has_content : String → Option String → Bool
has_content c none = false
has_content c (some d) = d == c

-- `target.is_file() and target.read_bytes() == expected`
unfoldable pub is_current : Dict String → String → String → Bool
unfolding lookup
is_current t p c = has_content c (lookup p t)

-- The loop of changed_paths; a path that was seen is skipped.
unfoldable pub changed_from : List String → List Artifact → Dict String → List String
unfolding is_current
changed_from seen [] t = []
changed_from seen ((p, c) ∷ more) t =
    let rest = changed_from (p ∷ seen) more t in
    if elem p seen || is_current t p c then rest else p ∷ rest

unfoldable pub changed_paths : Plan → Dict String → List String
unfolding changed_from
changed_paths plan t =
    changed_from [] plan.artifacts t
    ++ (if is_current t plan.manifest_path plan.manifest_content
        then []
        else plan.manifest_path ∷ [])

-- The loop of execute_plan.
unfoldable pub write_from : List String → List Artifact → Dict String → Dict String
unfolding put
write_from seen [] t = t
write_from seen ((p, c) ∷ more) t =
    write_from (p ∷ seen) more (if elem p seen then t else put p c t)

unfoldable pub written_from : List String → List Artifact → List String
written_from seen [] = []
written_from seen ((p, c) ∷ more) =
    let rest = written_from (p ∷ seen) more in if elem p seen then rest else p ∷ rest

-- The artifacts and the manifest are written: execute_plan without a commit message path.
unfoldable pub write_files : Plan → Dict String → Dict String
unfolding write_from
write_files plan t = put plan.manifest_path plan.manifest_content (write_from [] plan.artifacts t)

abbrev pub files_of : Plan → List String
files_of plan = written_from [] plan.artifacts ++ plan.manifest_path ∷ []

-- ConfigRenderError of _assert_contained
pub data RenderError : Type 0 where
  outside_root : String → RenderError

-- The paths that were written, and the tree; the commit message's path is checked before any write.
unfoldable pub execute_plan :
    (String → Bool)
    → Plan
    → Option String
    → Dict String
    → Result RenderError (List String) × Dict String
execute_plan contained plan none t = (ok (files_of plan), write_files plan t)
execute_plan contained plan (some p) t =
    if contained p
    then (ok (files_of plan ++ p ∷ []), put p plan.commit_message (write_files plan t))
    else (raised (outside_root p), t)
