-- ===== src/Config.antt =====
-- internal/config/config.go: the settings that the modelled code reads.
pub mod Bindings
use tfbuddy.Prelude.{Bool, List, [], ◌∷◌, is_empty, if◌then◌else◌}
use tfbuddy.Text.{Text, split, trim_space}

pub record Config : Type 0 where
  pub gitlab_hook_secret_key : Text
  pub default_tfc_organization : Text
  pub workspace_allow_list : List Text
  pub workspace_deny_list : List Text
  pub allow_auto_merge : Bool
  pub fail_ci_on_sentinel_soft_fail : Bool
  pub gitlab_project_allow_list : List Text
  pub legacy_project_allow_list : List Text
  pub github_repo_allow_list : List Text

-- The nil slice and the empty one are one list.
unfoldable pub trim_and_filter : List Text → List Text
trim_and_filter [] = []
trim_and_filter (item ∷ items) =
    let trimmed = trim_space item in
    let rest = trim_and_filter items in if is_empty trimmed then rest else trimmed ∷ rest

-- `trimStringSliceHook` on a text, such as that of an environment variable, and on a list.
unfoldable pub string_slice_of_text : Text → List Text
unfolding trim_and_filter
string_slice_of_text s = trim_and_filter (split b',' s)
