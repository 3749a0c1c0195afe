-- ===== src/Trigger/Events.antt =====
-- `TriggerTFCEvents`: the workspaces that a merge request triggers, the clone of its repository, and
-- the comments that answer a request that triggers nothing.
use tfbuddy.Prelude.{
  Bool, true, false, Option, none, some, List, [], ◌∷◌, ◌++◌, map, if◌then◌else◌, is_empty, ◌==◌,
}
use tfbuddy.Text.{Text, lit, text_eq, itoa}
use tfbuddy.Errors.{
  Error, sentinel, wrap, error_text, create_permanent_error, workspace_not_defined,
  no_changes_detected,
}
use tfbuddy.Types.{
  TfcWorkspace, DetailedMr, TriggerSource, comment_trigger, merge_request_event_trigger,
}
use tfbuddy.Project.{
  Glob, Decoder, triggered_workspaces, has_changes_for_workspace, get_project_config_file,
}
use tfbuddy.Trigger.{TfcTrigger}
use tfbuddy.Trigger.Dispatching.{TriggeredTfcWorkspaces, dispatch_workspaces, no_workspaces}
use tfbuddy.Trigger.Runs.{trigger_run_for_workspace}
use tfbuddy.Effects.{
  World, Io, ◌>>=◌, ◌>>◌, pure, fail, perform, attempt, on_result, context, ignore,
  get_merge_request, get_merge_request_modified_files, clone_merge_request,
  create_merge_request_comment, fetch_upstream_branch, get_merge_base,
  get_modified_file_names_between_commits, mkdir_temp, remove_all, publish_workspace_trigger,
}

abbrev pub is_comment : TriggerSource → Bool
is_comment comment_trigger = true
is_comment merge_request_event_trigger = false

-- The loop over `cfg.Workspaces` for the workspace that a comment names: the last one counts.
unfoldable pub provided_workspace :
    Text → List TfcWorkspace → Option TfcWorkspace → Option TfcWorkspace
provided_workspace name [] found = found
provided_workspace name (ws ∷ workspaces) found =
    provided_workspace name workspaces (if text_eq name ws.name then some ws else found)

-- `strings.ReplaceAll(project, "/", "-")`
abbrev pub safe_project : Text → Text
safe_project project = map (λ c. if c == b'/' then b'-' else c) project

-- `MRCommentTargetBranchEvalFailed`
abbrev pub eval_failed_comment : Text
eval_failed_comment =
    lit
      ":warning: Could not identify modified workspaces on target branch. Please review the plan carefully for unrelated changes."

module _ (glob : Glob) (decoder : Decoder) (w : World) (t : TfcTrigger) where
  unfoldable pub post_update : Text → Io (Unit {0})
  post_update msg =
      perform w.units
        (create_merge_request_comment t.cfg.merge_request_iid t.cfg.project_name_with_namespace msg)

  -- What it returns, no caller reads.
  unfoldable pub handle_error : Error → Text → Io (Unit {0})
  unfolding post_update
  handle_error e msg = ignore (post_update (lit "Error: " ++ msg ++ lit ": " ++ error_text e))

  abbrev pub only_provided : Option TfcWorkspace → Io (List TfcWorkspace)
  only_provided none = fail (create_permanent_error (sentinel workspace_not_defined))
  only_provided (some ws) = pure (ws ∷ [])

  unfoldable pub get_triggered_workspaces : List Text → Io (List TfcWorkspace)
  get_triggered_workspaces modified_files =
      attempt (get_project_config_file decoder w t.app_cfg t.cfg)
      >>= on_result
          (λ e.
            if is_comment t.cfg.trigger_source
            then fail (wrap (lit "could not read .tfbuddy.yml file for this repo. ") e)
            else pure [])
          (λ workspaces.
            if is_empty t.cfg.workspace
            then pure (triggered_workspaces glob workspaces modified_files)
            else only_provided (provided_workspace t.cfg.workspace workspaces none))

  -- The names of the workspaces that have changes.
  unfoldable pub changed_names : List TfcWorkspace → List Text → List Text
  changed_names [] files = []
  changed_names (ws ∷ workspaces) files =
      let rest = changed_names workspaces files in
      if has_changes_for_workspace glob ws files then ws.name ∷ rest else rest

  unfoldable pub get_modified_workspaces_on_target_branch :
      DetailedMr → List TfcWorkspace → Io (List Text)
  unfolding changed_names
  get_modified_workspaces_on_target_branch mr workspaces = do
    context (lit "could not fetch target branch " ++ mr.target_branch ++ lit ". ")
        (perform w.units (fetch_upstream_branch mr.target_branch))
    common_sha ←
        context (lit "could not find merge base. ")
          (perform w.texts (get_merge_base mr.source_branch mr.target_branch))
    files ←
        context
          (lit "could not find file diffs between "
            ++ common_sha
            ++ lit " and "
            ++ mr.target_branch
            ++ lit ". ")
          (perform w.text_lists
            (get_modified_file_names_between_commits common_sha mr.target_branch))
    if is_empty files then pure [] else pure (changed_names workspaces files)

  unfoldable pub get_triggered_workspaces_for_request : DetailedMr → Io (List TfcWorkspace)
  get_triggered_workspaces_for_request mr = do
    files ← context (lit "failed to get a list of modified files. ") (
        perform w.text_lists
          (get_merge_request_modified_files mr.internal_id t.cfg.project_name_with_namespace))
    get_triggered_workspaces files

  -- The repository is known by its local directory. An error of the clone is permanent.
  unfoldable pub clone_git_repo : DetailedMr → Io Text
  clone_git_repo mr = do
    clone_dir ← context (lit "could not create tmp directory. ") (
        perform w.texts (
          mkdir_temp (
            safe_project t.cfg.project_name_with_namespace
            ++ lit "-"
            ++ itoa t.cfg.merge_request_iid
            ++ lit "-*")))
    repo ←
        attempt
          (perform w.texts (clone_merge_request t.cfg.project_name_with_namespace mr clone_dir))
    on_result (λ e. fail (create_permanent_error e)) pure repo

  unfoldable pub run_inline : DetailedMr → Text → TfcWorkspace → Io (Unit {0})
  run_inline mr local_dir ws =
      context (lit "could not trigger Run for Workspace. ")
        (trigger_run_for_workspace w t ws mr local_dir)

  unfoldable pub enqueue : TfcWorkspace → Io (Unit {0})
  enqueue ws =
      context (lit "could not enqueue workspace trigger. ")
        (perform w.units (publish_workspace_trigger (record { opts = t.cfg; workspace = ws })))

  -- The names to block. An error is only commented on, and blocks nothing.
  unfoldable pub blocked_workspaces : DetailedMr → List TfcWorkspace → Io (List Text)
  blocked_workspaces mr workspaces =
      attempt (get_modified_workspaces_on_target_branch mr workspaces)
      >>= on_result (λ e. ignore (post_update eval_failed_comment) >> pure []) pure

  -- From the clone on. The deferred removal of the clone comes last.
  unfoldable pub run_triggered : DetailedMr → List TfcWorkspace → Io TriggeredTfcWorkspaces
  run_triggered mr workspaces = do
    local_dir ← clone_git_repo mr
    blocked ← blocked_workspaces mr workspaces
    status ←
        dispatch_workspaces t.app_cfg workspaces blocked
          (if t.has_workspace_stream then enqueue else run_inline mr local_dir)
    ignore (perform w.units (remove_all local_dir))
    pure status

  unfoldable pub report_no_changes : Io TriggeredTfcWorkspaces
  report_no_changes =
      if is_comment t.cfg.trigger_source
      then (ignore (post_update (error_text (sentinel no_changes_detected))) >> pure no_workspaces)
      else pure no_workspaces

  unfoldable pub trigger_tfc_events : Io TriggeredTfcWorkspaces
  trigger_tfc_events = do
    mr ← context (lit "could not read MergeRequest data from VCS API: ") (
        perform w.merge_requests
          (get_merge_request t.cfg.merge_request_iid t.cfg.project_name_with_namespace))
    workspaces ←
        context (lit "could not read triggered workspaces. ")
          (get_triggered_workspaces_for_request mr)
    if is_empty workspaces then report_no_changes else run_triggered mr workspaces
