-- ===== src/AllowList.antt =====
-- pkg/allow_list: which repositories may use the service, and
-- pkg/tfc_trigger/workspace_allowdeny_list.go: which workspaces may be run.
pub mod Laws
pub mod Capitals
use tfbuddy.Prelude.{Bool, true, false, List, [], ◌∷◌, ◌++◌, if◌then◌else◌, is_empty, any}
use tfbuddy.Text.{Text, text_eq, has_prefix, contains, to_lower, trim_space}
use tfbuddy.Config.{Config}

-- The nil slice and the empty one are one list.
unfoldable pub get_allow_list : List Text → List Text
get_allow_list [] = []
get_allow_list (entry ∷ entries) =
    let prefix = trim_space entry in
    let rest = get_allow_list entries in if is_empty prefix then rest else prefix ∷ rest

unfoldable pub is_github_repo_allowed : Config → Text → Bool
is_github_repo_allowed cfg full_name =
    let allow_list = get_allow_list cfg.github_repo_allow_list in
    if is_empty allow_list then false else any (has_prefix full_name) allow_list

unfoldable pub is_gitlab_project_allowed : Config → Text → Bool
is_gitlab_project_allowed cfg project =
    let gitlab = get_allow_list cfg.gitlab_project_allow_list in
    let allow_list =
      if is_empty gitlab then get_allow_list cfg.legacy_project_allow_list else gitlab in
    if is_empty allow_list then false else any (has_prefix project) allow_list

-- One round of either loop of `getWorkspaceAllowDenyList`.
unfoldable pub qualify : Text → Text → Text
qualify default_org entry =
    let ws = to_lower (trim_space entry) in
    if contains ws (b'/' ∷ []) then ws else default_org ++ b'/' ∷ ws

unfoldable pub qualify_all : Text → List Text → List Text
qualify_all default_org [] = []
qualify_all default_org (entry ∷ entries) =
    qualify default_org entry ∷ qualify_all default_org entries

unfoldable pub get_workspace_allow_deny_list : Config → List Text × List Text
get_workspace_allow_deny_list cfg =
    let default_org = cfg.default_tfc_organization in
    (
      qualify_all default_org cfg.workspace_allow_list,
      qualify_all default_org cfg.workspace_deny_list,
    )

unfoldable pub is_workspace_allowed : Config → Text → Text → Bool
unfolding get_workspace_allow_deny_list
is_workspace_allowed cfg workspace org =
    let (allow_list, deny_list) = get_workspace_allow_deny_list cfg in
    let full_name = org ++ b'/' ∷ workspace in
    if any (text_eq full_name) deny_list
    then false
    else (if any (text_eq full_name) allow_list then true else is_empty allow_list)
