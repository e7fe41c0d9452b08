-- ===== src/Render/Tests.antt =====
-- One plan, and a tree with a stale and a foreign file.
use observability_kit.Prelude.{String, Bool, true, some, [], ◌∷◌, ◌≡◌, inl, refl}
use observability_kit.Prelude.Dict.{Dict, lookup}
use observability_kit.Render.{Plan, changed_paths, written_from, execute_plan}
use observability_kit.Render.Convergence.{changed_paths-execute_plan, lookup-execute_plan_ne}

abbrev plan : Plan
plan = record {
  document_digest = "sha256:1";
  artifacts = ("a.yaml", "one") ∷ ("b.yaml", "two") ∷ ("a.yaml", "again") ∷ [];
  manifest_path = "manifest.json";
  manifest_content = "{}";
  commit_message = "render";
}

abbrev tree : Dict String
tree = ("b.yaml", "stale") ∷ ("c.yaml", "kept") ∷ []

abbrev inside : String → Bool
inside p = true

changed_paths-execute_plan_example :
    changed_paths plan (execute_plan inside plan (some "message.txt") tree).1 ≡ []
unfolding execute_plan written_from
changed_paths-execute_plan_example =
    changed_paths-execute_plan inside plan (some "message.txt") tree
      (execute_plan inside plan (some "message.txt") tree).1
      ("a.yaml" ∷ "b.yaml" ∷ "manifest.json" ∷ "message.txt" ∷ []) refl refl refl

lookup-execute_plan_ne_example :
    lookup "c.yaml" (execute_plan inside plan (some "message.txt") tree).1 ≡ lookup "c.yaml" tree
lookup-execute_plan_ne_example =
    lookup-execute_plan_ne inside plan (some "message.txt") tree "c.yaml" (inl refl)
