-- ===== src/Tests/Dirs.antt =====
-- Examples of the project configuration: directories, changes and triggered workspaces.
use tfbuddy.Prelude.{◌≡◌, refl, ◌↔◌, true, some, [], ◌∷◌, Any}
use tfbuddy.Text.{lit, text_eq, has_suffix}
use tfbuddy.Project.{workspace_for_dir, has_changes_for_workspace, triggered_workspaces, with_slash}
use tfbuddy.Project.Dirs.{Chosen, workspace_for_dir-Chosen}
use tfbuddy.Project.Owner.{Owns, workspace_for_dir_iff}
use tfbuddy.Project.Changes.{IsRelevant, has_changes_for_workspace_iff}
use tfbuddy.Project.Triggered.{
  Touches, triggered_workspaces_iff, HasDistinctDirs, triggered_workspaces-HasDistinctDirs,
}
use tfbuddy.Tests.Samples.{sample_glob, dev, top}

deepest_example :
    Chosen (lit "dev") (dev ∷ top ∷ []) (workspace_for_dir (dev ∷ top ∷ []) (lit "dev"))
unfolding lit text_eq with_slash has_suffix
deepest_example = workspace_for_dir-Chosen (dev ∷ top ∷ []) (lit "dev") (refl, (refl, tt))

changes_example :
    (has_changes_for_workspace sample_glob dev (lit "dev/main.tf" ∷ []) ≡ true)
    ↔ Any (IsRelevant sample_glob dev) (lit "dev/main.tf" ∷ [])
changes_example = has_changes_for_workspace_iff sample_glob dev (lit "dev/main.tf" ∷ [])

triggered_example :
    Any
      (λ w. w.dir ≡ lit "dev")
      (triggered_workspaces sample_glob (dev ∷ top ∷ []) (lit "dev/main.tf" ∷ []))
    ↔ Any (Touches sample_glob (dev ∷ top ∷ []) (lit "dev")) (lit "dev/main.tf" ∷ [])
triggered_example =
    triggered_workspaces_iff sample_glob (dev ∷ top ∷ []) (lit "dev/main.tf" ∷ []) (lit "dev")

distinct_example :
    HasDistinctDirs (
      triggered_workspaces sample_glob
        (dev ∷ dev ∷ top ∷ [])
        (lit "dev/a.tf" ∷ lit "dev/b.tf" ∷ []))
distinct_example =
    triggered_workspaces-HasDistinctDirs sample_glob (dev ∷ dev ∷ top ∷ [])
      (lit "dev/a.tf" ∷ lit "dev/b.tf" ∷ [])

owner_example :
    (workspace_for_dir (top ∷ dev ∷ dev ∷ []) (lit "infra/dev") ≡ some dev)
    ↔ Owns (lit "infra/dev") (top ∷ dev ∷ dev ∷ []) dev
owner_example = workspace_for_dir_iff (lit "infra/dev") (top ∷ dev ∷ dev ∷ []) dev
