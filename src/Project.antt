-- ===== src/Project.antt =====
-- pkg/tfc_trigger/project_config.go: the file .tfbuddy.yaml, and which workspaces a change touches.
-- The YAML decoder with its defaults, the validator and the glob matcher are third-party code, and
-- are parameters.
pub mod Dirs
pub mod Changes
pub mod Touching
pub mod Owner
pub mod Triggered
use tfbuddy.Prelude.{
  ℕ, Bool, true, false, Option, none, some, List, [], ◌∷◌, ◌++◌, if◌then◌else◌, is_empty, length,
  ltb, ◌&&◌, ◌||◌, not,
}
use tfbuddy.Text.{Text, lit, text_eq, has_prefix, has_suffix, split}
use tfbuddy.Paths.{dir, slash, dot}
use tfbuddy.Config.{Config}
use tfbuddy.Types.{TfcWorkspace, TfcTriggerOptions}
use tfbuddy.Errors.{Error, sentinel, plain, wrap, permanent, create_permanent_error, error_text}
use tfbuddy.Effects.{
  World, Io, Res, ok, err, ◌>>=◌, fail, perform, attempt, on_result, of_res, get_repo_file,
}

-- `wsDir`: the directory with a slash at its end.
unfoldable pub with_slash : Text → Text
with_slash d = if has_suffix d slash then d else d ++ slash

-- `len(strings.Split(wsDir, "/"))`
unfoldable pub depth : Text → ℕ
depth ws_dir = length (split b'/' ws_dir)

unfoldable pub dir_matches : Text → Text → Bool
dir_matches ws_dir d = has_suffix (d ++ slash) ws_dir || has_suffix d ws_dir

-- The loop of `workspaceForDir`, over the longest match so far and its depth.
unfoldable pub workspace_from :
    Text → Option TfcWorkspace → ℕ → List TfcWorkspace → Option TfcWorkspace
workspace_from d longest_match longest_depth [] = longest_match
workspace_from d longest_match longest_depth (ws ∷ rest) =
    let ws_dir = with_slash ws.dir in
    let skipped = workspace_from d longest_match longest_depth rest in
    let taken = workspace_from d (some ws) (depth ws_dir) rest in
    if text_eq ws_dir slash
    then (if text_eq d dot then some ws else skipped)
    else (if dir_matches ws_dir d && ltb longest_depth (depth ws_dir) then taken else skipped)

unfoldable pub workspace_for_dir : List TfcWorkspace → Text → Option TfcWorkspace
workspace_for_dir workspaces d = workspace_from d none 0 workspaces

-- `doublestar.Match`: a pattern that is malformed is an error, and then there is no match.
abbrev pub Glob : Type 0
Glob = Text → Text → Res Bool

abbrev pub is_match : Res Bool → Bool
is_match (ok b) = b
is_match (err e) = false

-- `triggeredMap`: from a directory to the workspace that was put there last.
abbrev pub DirMap : Type 0
DirMap = List (Text × TfcWorkspace)

unfoldable pub put : Text → TfcWorkspace → DirMap → DirMap
put k v [] = (k, v) ∷ []
put k v ((j, w) ∷ m) = if text_eq j k then (k, v) ∷ m else (j, w) ∷ put k v m

-- The order in which Go walks a map is not specified: this one is the order of insertion.
abbrev pub values : DirMap → List TfcWorkspace
values [] = []
values ((k, v) ∷ m) = v ∷ values m

abbrev pub put_found : Option TfcWorkspace → DirMap → DirMap
put_found none m = m
put_found (some ws) m = put ws.dir ws m

abbrev pub put_all : List TfcWorkspace → DirMap → DirMap
put_all [] m = m
put_all (ws ∷ rest) m = put_all rest (put ws.dir ws m)

unfoldable pub changed_dir : Text → Text
changed_dir d = if not (is_empty d) && not (has_suffix d slash) then d ++ slash else d

abbrev pub is_root_dir : Text → Bool
is_root_dir ws_dir = is_empty ws_dir || text_eq ws_dir slash

-- A file of the workspace's own directory: for the root, one directly in the root.
unfoldable pub own_file : Text → Text → Bool
own_file ws_dir mf = if is_root_dir ws_dir then text_eq (dir mf) dot else has_prefix mf ws_dir

module _ (glob : Glob) where
  -- The inner loop of `workspacesForTriggerDir`: a workspace stands once for each of its patterns
  -- that matches.
  unfoldable pub matches_of : TfcWorkspace → Text → List Text → List TfcWorkspace
  matches_of ws d [] = []
  matches_of ws d (td ∷ tds) =
      let rest = matches_of ws d tds in if is_match (glob td d) then ws ∷ rest else rest

  unfoldable pub workspaces_for_trigger_dir : List TfcWorkspace → Text → List TfcWorkspace
  workspaces_for_trigger_dir [] d = []
  workspaces_for_trigger_dir (ws ∷ rest) d =
      matches_of ws d ws.trigger_dirs ++ workspaces_for_trigger_dir rest d

  -- The loop of `triggeredWorkspaces` over the modified files.
  unfoldable pub triggered_from : List TfcWorkspace → List Text → DirMap → DirMap
  triggered_from workspaces [] m = m
  triggered_from workspaces (mf ∷ files) m =
      let d = dir mf in
      triggered_from workspaces files (
        put_all (workspaces_for_trigger_dir workspaces d)
          (put_found (workspace_for_dir workspaces d) m))

  unfoldable pub triggered_workspaces : List TfcWorkspace → List Text → List TfcWorkspace
  triggered_workspaces workspaces files = values (triggered_from workspaces files [])

  -- The loop over `ws.TriggerDirs`: a malformed pattern counts as a match.
  unfoldable pub trigger_dir_hit : Text → Text → List Text → Bool
  trigger_dir_hit file_dir mf [] = false
  trigger_dir_hit file_dir mf (td ∷ tds) =
      let rest = trigger_dir_hit file_dir mf tds in
      elim (glob td file_dir) [
        | err e ↦ true
        | ok dir_match ↦ if dir_match then true else elim (glob td mf) [
          | err e ↦ true
          | ok file_match ↦ if file_match then true else rest
        ]
      ]

  unfoldable pub has_changes_for_workspace : TfcWorkspace → List Text → Bool
  has_changes_for_workspace ws [] = false
  has_changes_for_workspace ws (mf ∷ files) =
      let rest = has_changes_for_workspace ws files in
      if own_file (changed_dir ws.dir) mf
      then true
      else (if trigger_dir_hit (dir mf) mf ws.trigger_dirs then true else rest)

abbrev pub project_config_filename : Text
project_config_filename = lit ".tfbuddy.yaml"

unfoldable pub get_default_org_name : Config → Text
get_default_org_name cfg = cfg.default_tfc_organization

unfoldable pub fill_organizations : Text → List TfcWorkspace → List TfcWorkspace
fill_organizations org [] = []
fill_organizations org (ws ∷ rest) =
    (if is_empty ws.organization then record ws { organization = org } else ws)
    ∷ fill_organizations org rest

-- Third-party: `yaml.Unmarshal` with `UnmarshalYAML` and its defaults, and `validate.Validate`.
pub record Decoder : Type 0 where
  pub unmarshal : Text → Res (List TfcWorkspace)
  pub validate : List TfcWorkspace → Option Error

module _ (decoder : Decoder) where
  unfoldable pub load_project_config : Config → Text → Res (List TfcWorkspace)
  load_project_config cfg b = elim (decoder.unmarshal b) [
    | err e ↦ err (
        wrap
          (lit "could not parse Project config file (.tfbuddy.yaml): " ++ error_text e ++ lit ". ")
          (sentinel permanent))
    | ok workspaces ↦
        let filled = fill_organizations (get_default_org_name cfg) workspaces in
        elim (decoder.validate filled) [
          | some e ↦ err (create_permanent_error e)
          | none ↦ ok filled
        ]
  ]

  -- The loop of `getProjectConfigFile` over the branches: the first that has the file counts, also
  -- when the file is not valid.
  unfoldable pub config_from : World → Config → Text → List Text → Io (List TfcWorkspace)
  config_from w cfg project [] =
      fail (create_permanent_error (plain (lit "could not retrieve .tfbuddy.yaml for repo")))
  config_from w cfg project (branch ∷ branches) =
      let rest = config_from w cfg project branches in
      attempt (perform w.texts (get_repo_file project project_config_filename branch))
      >>= on_result (λ e. rest) (λ b. of_res (load_project_config cfg b))

  unfoldable pub get_project_config_file :
      World → Config → TfcTriggerOptions → Io (List TfcWorkspace)
  get_project_config_file w cfg opts =
      config_from w cfg opts.project_name_with_namespace
        (opts.branch ∷ lit "master" ∷ lit "main" ∷ [])
