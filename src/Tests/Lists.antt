-- ===== src/Tests/Lists.antt =====
-- Examples of the allow lists, the lock tags, the errors and the markers.
use tfbuddy.Prelude.{◌≡◌, refl, ◌↔◌, ◌⊎◌, inl, true, some, [], ◌∷◌, ◌++◌, map, Any, All, arith}
use tfbuddy.Text.{lit, itoa}
use tfbuddy.AllowList.{is_github_repo_allowed, is_gitlab_project_allowed, is_workspace_allowed}
use tfbuddy.AllowList.Laws.{
  Permits, IsBlank, Names, is_github_repo_allowed_iff, is_gitlab_project_allowed_iff,
  is_workspace_allowed_iff,
}
use tfbuddy.AllowList.Capitals.{is_workspace_allowed-capital}
use tfbuddy.Locks.{find_locking_mr}
use tfbuddy.Locks.Laws.{lock_tag, find_locking_mr-lock_tag}
use tfbuddy.Marker.{format_tfbuddy_marker, parse_tfbuddy_marker}
use tfbuddy.Marker.Laws.{parse_tfbuddy_marker-format}
use tfbuddy.Tests.Samples.{sample_config}

github_example :
    (is_github_repo_allowed sample_config (lit "zapier/tfbuddy") ≡ true)
    ↔ Any (Permits (lit "zapier/tfbuddy")) (lit "zapier/" ∷ [])
github_example = is_github_repo_allowed_iff sample_config (lit "zapier/tfbuddy")

gitlab_example : (is_gitlab_project_allowed sample_config (lit "infra/network") ≡ true) ↔ (
    Any (Permits (lit "infra/network")) (lit " infra/" ∷ [])
    ⊎ (All IsBlank (lit " infra/" ∷ []) × Any (Permits (lit "infra/network")) []))
gitlab_example = is_gitlab_project_allowed_iff sample_config (lit "infra/network")

workspace_example : (is_workspace_allowed sample_config (lit "dev") (lit "acme") ≡ true) ↔ (
    (¬ Any (Names (lit "acme") (lit "acme" ++ b'/' ∷ lit "dev")) (lit "acme/legacy" ∷ []))
    × (Any (Names (lit "acme") (lit "acme" ++ b'/' ∷ lit "dev")) []
        ⊎ (sample_config.workspace_allow_list ≡ [])))
workspace_example = is_workspace_allowed_iff sample_config (lit "dev") (lit "acme")

-- "acme/Legacy" is on the deny list, but for the capital.
capital_example : is_workspace_allowed sample_config (lit "Legacy") (lit "acme") ≡ true
unfolding lit
capital_example =
    is_workspace_allowed-capital sample_config (lit "Legacy") (lit "acme") (inl (ground arith))
      (ground arith)

lock_example : find_locking_mr (map lock_tag (5 ∷ 50 ∷ 7 ∷ [])) (itoa 5) ≡ itoa 50
lock_example = find_locking_mr-lock_tag 5 (5 ∷ 50 ∷ 7 ∷ [])

marker_example :
    parse_tfbuddy_marker
      (lit "Starting\n" ++ format_tfbuddy_marker (lit "dev") (lit "plan") ++ lit "!")
    ≡ some (lit "dev", lit "plan")
unfolding lit
marker_example =
    parse_tfbuddy_marker-format (lit "Starting\n") (lit "dev") (lit "plan") (lit "!") (ground arith)
      (ground arith) (ground arith, refl) (ground arith, refl)
