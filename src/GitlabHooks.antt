-- ===== src/GitlabHooks.antt =====
-- pkg/gitlab_hooks: what a worker does with the events of GitLab, a note (comment_actions.go) or a
-- change of a merge request (mr_actions.go).
pub mod Laws
pub mod Handler
pub mod Queue
pub mod Webhooks
use tfbuddy.Prelude.{ℕ, Bool, false, not, ◌&&◌, ◌||◌, [], ◌++◌, if◌then◌else◌, is_empty}
use tfbuddy.Text.{Text, lit, text_eq}
use tfbuddy.Errors.{Error, error_text, eq_error, plain, other_tf_tool, not_tfc_command}
use tfbuddy.Config.{Config}
use tfbuddy.Types.{TfcTriggerOptions, comment_trigger, merge_request_event_trigger, plan}
use tfbuddy.AllowList.{is_gitlab_project_allowed}
use tfbuddy.Comment.{CommentOpts, ArgsParser, parse_comment_command}
use tfbuddy.Project.{Glob, Decoder}
use tfbuddy.Trigger.{TfcTrigger}
use tfbuddy.Trigger.Events.{trigger_tfc_events}
use tfbuddy.Trigger.Dispatching.{ErroredWorkspace}
use tfbuddy.Trigger.Cleanup.{trigger_cleanup_event}
use tfbuddy.Effects.{
  World, Io, ◌>>=◌, ◌>>◌, pure, fail, perform, attempt, on_result, ignore, for_each,
  get_merge_request, get_merge_request_approvals, create_merge_request_comment,
}

-- What the worker reads of a note event.
pub record NoteEvent : Type 0 where
  pub project : Text
  pub note : Text
  pub note_type : Text
  pub discussion_id : Text
  pub mr_iid : ℕ
  pub source_branch : Text
  pub last_commit : Text
  pub delivery_id : Text

-- What the worker reads of a merge request event.
pub record MergeRequestEvent : Type 0 where
  pub project : Text
  pub source_project : Text
  pub source_branch : Text
  pub last_commit : Text
  pub old_rev : Text
  pub mr_iid : ℕ
  pub action : Text
  pub delivery_id : Text

-- The options of the comment, with what the event adds.
abbrev pub note_options : NoteEvent → CommentOpts → TfcTriggerOptions
note_options event opts = record (opts.trigger_opts) {
  branch = event.source_branch;
  commit_sha = event.last_commit;
  project_name_with_namespace = event.project;
  merge_request_iid = event.mr_iid;
  trigger_source = comment_trigger;
  vcs_provider = lit "gitlab";
  delivery_id = event.delivery_id;
  merge_request_discussion_id =
      if text_eq event.note_type (lit "DiscussionNote")
      then event.discussion_id
      else opts.trigger_opts.merge_request_discussion_id;
}

abbrev pub event_options : MergeRequestEvent → TfcTriggerOptions
event_options event = record {
  action = plan;
  branch = event.source_branch;
  commit_sha = event.last_commit;
  project_name_with_namespace = event.source_project;
  merge_request_iid = event.mr_iid;
  merge_request_discussion_id = [];
  merge_request_root_note_id = 0;
  trigger_source = merge_request_event_trigger;
  vcs_provider = lit "gitlab";
  delivery_id = event.delivery_id;
  workspace = [];
  tf_version = [];
  target = [];
  allow_empty_run = false;
}

abbrev pub is_known_command : Text → Bool
is_known_command command =
    text_eq command (lit "lock") || text_eq command (lit "plan") || text_eq command (lit "unlock")

module _ (glob : Glob) (decoder : Decoder) (parse_args : ArgsParser) (w : World) (cfg : Config)
    (has_stream : Bool) where
  -- The trigger of a worker: `triggerCreation` and `SetWorkspaceStream`.
  abbrev pub trigger_with : TfcTriggerOptions → TfcTrigger
  trigger_with opts = record { app_cfg = cfg; cfg = opts; has_workspace_stream = has_stream }

  unfoldable pub post_message_to_merge_request : NoteEvent → Text → Io (Unit {0})
  post_message_to_merge_request event msg =
      ignore (perform w.units (create_merge_request_comment event.mr_iid event.project msg))

  unfoldable pub post_error_to_merge_request : NoteEvent → Error → Io (Unit {0})
  unfolding post_message_to_merge_request
  post_error_to_merge_request event e =
      post_message_to_merge_request event (lit ":fire: <br> Error: " ++ error_text e)

  -- The error is posted with `%v`, so that it is wrapped as a text.
  abbrev pub could_not_get : Error → Error
  could_not_get e = plain (lit "could not get MergeRequest from GitlabAPI: " ++ error_text e)

  unfoldable pub check_approval : NoteEvent → Io Bool
  check_approval event =
      attempt (perform w.flags (get_merge_request_approvals event.mr_iid event.project))
      >>= on_result (λ e. post_error_to_merge_request event (could_not_get e) >> pure false) pure

  unfoldable pub check_for_merge_conflicts : NoteEvent → Io Bool
  check_for_merge_conflicts event =
      attempt (perform w.merge_requests (get_merge_request event.mr_iid event.project))
      >>= on_result (λ e. post_error_to_merge_request event (could_not_get e) >> pure false)
          (λ mr. pure (not mr.conflicts))

  unfoldable pub post_failure : NoteEvent → ErroredWorkspace → Io (Unit {0})
  post_failure event failed =
      post_message_to_merge_request event
        (lit ":no_entry: " ++ failed.name ++ lit " could not be run because: " ++ failed.error)

  -- The trigger, and what is posted of it.
  unfoldable pub run_note_trigger : NoteEvent → CommentOpts → Io (Unit {0})
  run_note_trigger event opts =
      attempt (trigger_tfc_events glob decoder w (trigger_with (note_options event opts)))
      >>= on_result
          (λ e.
            post_message_to_merge_request event
              (lit ":no_entry: could not be run because: " ++ error_text e)
            >> fail e)
          (λ status. for_each (post_failure event) status.errored)

  unfoldable pub apply_note : NoteEvent → CommentOpts → Io (Unit {0})
  apply_note event opts = do
    approved ← check_approval event
    if not approved
        then post_message_to_merge_request event
            (lit ":no_entry: Apply failed. Merge Request requires approval.")
        else (check_for_merge_conflicts event >>= λ mergeable.
            if not mergeable
            then post_message_to_merge_request event (
                lit
                  ":no_entry: Apply failed. Merge Request has conflicts that need to be resolved.")
            else run_note_trigger event opts)

  -- The switch over the command; another one, such as destroy, is passed over.
  unfoldable pub run_command : NoteEvent → CommentOpts → Io (Unit {0})
  run_command event opts =
      if text_eq opts.command (lit "apply")
      then apply_note event opts
      else (if is_known_command opts.command then run_note_trigger event opts else pure tt)

  unfoldable pub command_error : NoteEvent → Error → Io (Unit {0})
  command_error event e =
      if eq_error e other_tf_tool
      then post_message_to_merge_request event (lit "Use tfc to interact with tfbuddy")
      else (if eq_error e not_tfc_command then pure tt else fail e)

  unfoldable pub process_note_event : NoteEvent → Io (Unit {0})
  process_note_event event =
      if is_gitlab_project_allowed cfg event.project
      then on_result (command_error event) (run_command event)
          (parse_comment_command parse_args event.note)
      else pure tt

  abbrev pub has_new_commit : MergeRequestEvent → Bool
  has_new_commit event =
      not (is_empty event.old_rev) && not (text_eq event.old_rev event.last_commit)

  -- The statuses of the workspaces are dropped.
  unfoldable pub run_event_trigger : MergeRequestEvent → Io (Unit {0})
  run_event_trigger event =
      trigger_tfc_events glob decoder w (trigger_with (event_options event)) >>= λ _. pure tt

  unfoldable pub process_merge_request_event : MergeRequestEvent → Io (Unit {0})
  process_merge_request_event event =
      if not (is_gitlab_project_allowed cfg event.project)
      then pure tt
      else (if text_eq event.action (lit "open") || text_eq event.action (lit "reopen")
          then run_event_trigger event
          else (if text_eq event.action (lit "update")
              then (if has_new_commit event then run_event_trigger event else pure tt)
              else (if text_eq event.action (lit "merge") || text_eq event.action (lit "close")
                  then trigger_cleanup_event glob decoder w (trigger_with (event_options event))
                  else pure tt)))
