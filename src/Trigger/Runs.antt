-- ===== src/Trigger/Runs.antt =====
-- `triggerRunForWorkspace` and what it calls: one action on one workspace.
use tfbuddy.Prelude.{
  ℕ, Bool, false, not, ◌&&◌, ◌||◌, none, some, List, [], ◌∷◌, ◌++◌, if◌then◌else◌, is_empty,
}
use tfbuddy.Text.{Text, lit, text_eq, itoa, atoi}
use tfbuddy.Paths.{join_path}
use tfbuddy.Errors.{Error, sentinel, plain, wrap, is_error, workspace_locked, workspace_unlocked}
use tfbuddy.Types.{TfcWorkspace, DetailedMr, Workspace, Run, TfRunMetadata}
use tfbuddy.Locks.{tf_prefix, tag_name, find_locking_mr}
use tfbuddy.Marker.{format_tfbuddy_marker}
use tfbuddy.TfcClient
use tfbuddy.Runstream.{add_run_meta, new_tf_run_polling_task, schedule}
use tfbuddy.Trigger.{TfcTrigger, action_text, is_apply, is_plan, is_lock, is_unlock}
use tfbuddy.Effects.{
  World, Io, Res, ok, err, ◌>>=◌, ◌>>◌, pure, fail, perform, attempt, context, ignore, on_result,
  get_merge_request, create_merge_request_discussion,
}

abbrev pub is_closed_state : Text → Bool
is_closed_state state = text_eq state (lit "merged") || text_eq state (lit "closed")

abbrev pub locked_by : Text → Error
locked_by who = plain (lit "workspace is locked by another MR! " ++ who)

-- `cfgWS.AutoMerge`, unless the mode or the global setting forbids it.
unfoldable pub auto_merge_of : TfcTrigger → TfcWorkspace → Bool
auto_merge_of t cfg_ws =
    if cfg_ws.auto_merge && not t.app_cfg.allow_auto_merge
    then false
    else (if not (text_eq cfg_ws.mode (lit "apply-before-merge")) && cfg_ws.auto_merge
        then false
        else cfg_ws.auto_merge)

abbrev pub vcs_refusal : Error
vcs_refusal = plain (
    lit
      "cannot trigger apply for VCS workspace. TFC workspace is configured with a VCS backend, must merge to trigger an Apply")

abbrev pub first_note : List ℕ → ℕ
first_note [] = 0
first_note (n ∷ ns) = n

module _ (w : World) (t : TfcTrigger) where
  -- An error of the query is logged only, and there are no tags then.
  unfoldable pub get_locking_mr : Text → Io Text
  get_locking_mr workspace = attempt (TfcClient.get_tags_by_query w workspace tf_prefix) >>= λ tags.
      elim tags [
        | err e ↦ pure []
        | ok names ↦ pure (find_locking_mr names (itoa t.cfg.merge_request_iid))
      ]

  unfoldable pub lock_unlock_workspace : Workspace → DetailedMr → Bool → Io (Unit {0})
  lock_unlock_workspace ws mr lock =
      if (lock && not ws.locked) || (not lock && ws.locked)
      then TfcClient.lock_unlock_workspace w ws.id
          (lit "tfbuddy locked for MR "
            ++ itoa mr.internal_id
            ++ lit " by "
            ++ mr.author_username
            ++ lit " at "
            ++ mr.web_url)
          (lit "mr-" ++ itoa mr.internal_id) lock
      else (if lock then fail (sentinel workspace_locked) else fail (sentinel workspace_unlocked))

  -- The error of `LockUnlockWorkspace` that is not passed over.
  abbrev pub lock_result : Res (Unit {0}) → Io (Unit {0})
  lock_result (ok _) = pure tt
  lock_result (err e) =
      if is_unlock t.cfg.action && is_error e workspace_unlocked
      then pure tt
      else fail (wrap (lit "error modifying the TFC lock on the workspace. ") e)

  -- The lock and unlock actions.
  unfoldable pub change_lock : TfcWorkspace → Workspace → DetailedMr → Io (Unit {0})
  change_lock cfg_ws ws mr = do
    changed ← attempt (lock_unlock_workspace ws mr (is_lock t.cfg.action))
    lock_result changed
    if is_unlock t.cfg.action
        then ignore (TfcClient.remove_tags_by_query w ws.id tf_prefix)
        else pure tt
    _ ← context (lit "error posting successful lock modification status. ") (
        perform w.discussions (
          create_merge_request_discussion mr.internal_id t.cfg.project_name_with_namespace (
            lit "Successfully "
            ++ action_text t.cfg.action
            ++ lit "ed Workspace `"
            ++ cfg_ws.organization
            ++ lit "/"
            ++ cfg_ws.name
            ++ lit "`")))
    pure tt

  -- The lock tag of a merged or closed MR is removed; any other lock stops the apply.
  unfoldable pub clear_stale_lock : Text → Text → Io (Unit {0})
  clear_stale_lock workspace_id locking_mr =
      if is_empty locking_mr then pure tt else elim (atoi locking_mr) [
        | none ↦ fail (locked_by locking_mr)
        | some iid ↦
            attempt
              (perform w.merge_requests (get_merge_request iid t.cfg.project_name_with_namespace))
            >>= on_result (λ e. fail (locked_by locking_mr))
                (λ d.
                  if is_closed_state d.state
                  then context
                      (lit "failed to auto-clean stale lock tag from MR " ++ d.web_url ++ lit ": ")
                      (TfcClient.remove_tags_by_query w workspace_id
                        (tag_name tf_prefix locking_mr))
                  else fail (locked_by d.web_url))
      ]

  -- An error with a nil error wrapped.
  abbrev pub refusal : Text → Error
  refusal locking_mr =
      if is_empty locking_mr
      then plain (lit "refusing to Apply changes to a locked workspace. %!w(<nil>)")
      else plain (
          lit "refusing to Apply changes to a locked workspace (also tagged by MR "
          ++ locking_mr
          ++ lit "). %!w(<nil>)")

  unfoldable pub acquire_lock : Workspace → Io (Unit {0})
  acquire_lock ws = do
    locking_mr ← get_locking_mr ws.id
    if ws.locked then fail (refusal locking_mr) else clear_stale_lock ws.id locking_mr
    context (lit "error adding tags to workspace. ")
        (TfcClient.add_tags w ws.id tf_prefix (itoa t.cfg.merge_request_iid))

  unfoldable pub metadata_of : Run → TfcWorkspace → Text → ℕ → TfRunMetadata
  metadata_of run cfg_ws discussion_id root_note_id = record {
    run_id = run.id;
    organization = run.organization_name;
    workspace = run.workspace_name;
    source = lit "merge_request";
    action = action_text t.cfg.action;
    commit_sha = t.cfg.commit_sha;
    merge_request_project_name_with_namespace = t.cfg.project_name_with_namespace;
    merge_request_iid = t.cfg.merge_request_iid;
    discussion_id = discussion_id;
    root_note_id = root_note_id;
    vcs_provider = t.cfg.vcs_provider;
    auto_merge = auto_merge_of t cfg_ws;
  }

  unfoldable pub publish_run_to_stream : Run → TfcWorkspace → Text → ℕ → Io (Unit {0})
  publish_run_to_stream run cfg_ws discussion_id root_note_id = do
    let rmd = metadata_of run cfg_ws discussion_id root_note_id
    context
        (lit "could not publish Run metadata to event stream, updates may not be posted to MR. ")
        (add_run_meta w rmd)
    if run.speculative
        then (do
          task ← new_tf_run_polling_task w rmd 1
          _ ←
              context
                (lit "failed to create TFC plan polling task. Updates may not be posted to MR. ")
                (schedule w task)
          pure tt)
        else pure tt

  -- The discussion, the run and its publication.
  unfoldable pub launch : TfcWorkspace → DetailedMr → Text → Io (Unit {0})
  launch cfg_ws mr pkg_dir = do
    disc ← context (lit "could not create MR discussion thread for TFC run status updates. ") (
        perform w.discussions (
          create_merge_request_discussion mr.internal_id t.cfg.project_name_with_namespace (
            lit "Starting TFC "
            ++ action_text t.cfg.action
            ++ lit " for Workspace: `"
            ++ cfg_ws.organization
            ++ lit "/"
            ++ cfg_ws.name
            ++ lit "`.\n"
            ++ format_tfbuddy_marker cfg_ws.name (action_text t.cfg.action))))
    run ← context (lit "could not create TFC run. ") (
        TfcClient.create_run_from_source w (record {
          is_apply = is_apply t.cfg.action;
          path = pkg_dir;
          message = lit "MR [!" ++ itoa t.cfg.merge_request_iid ++ lit "]: " ++ mr.title;
          organization = cfg_ws.organization;
          workspace = cfg_ws.name;
          tf_version = t.cfg.tf_version;
          target = t.cfg.target;
          allow_empty_run = t.cfg.allow_empty_run;
        }))
    publish_run_to_stream run cfg_ws disc.discussion_id (first_note disc.notes)

  -- A workspace with a working directory gets the whole repository.
  abbrev pub package_dir : TfcWorkspace → Workspace → Text → Text
  package_dir cfg_ws ws clone_dir =
      if is_empty ws.working_directory then join_path (clone_dir ∷ cfg_ws.dir ∷ []) else clone_dir

  -- The apply and plan actions.
  unfoldable pub start_run : TfcWorkspace → Workspace → DetailedMr → Text → Io (Unit {0})
  start_run cfg_ws ws mr clone_dir =
      if is_apply t.cfg.action
      then (acquire_lock ws >> launch cfg_ws mr (package_dir cfg_ws ws clone_dir))
      else (if is_plan t.cfg.action
          then launch cfg_ws mr (package_dir cfg_ws ws clone_dir)
          else fail (plain (lit "run action was not apply or plan. %!w(<nil>)")))

  unfoldable pub act_on : TfcWorkspace → Workspace → DetailedMr → Text → Io (Unit {0})
  act_on cfg_ws ws mr clone_dir =
      if ws.has_vcs_repo && is_apply t.cfg.action
      then fail vcs_refusal
      else (if is_lock t.cfg.action || is_unlock t.cfg.action
          then change_lock cfg_ws ws mr
          else start_run cfg_ws ws mr clone_dir)

  unfoldable pub trigger_run_for_workspace : TfcWorkspace → DetailedMr → Text → Io (Unit {0})
  trigger_run_for_workspace cfg_ws mr clone_dir = do
    ws ←
        context (lit "could not get Workspace from TFC API. ")
          (TfcClient.get_workspace_by_name w cfg_ws.organization cfg_ws.name)
    act_on cfg_ws ws mr clone_dir
