-- ===== src/Trigger/Worker.antt =====
-- The worker of the workspace stream (pkg/tfc_trigger/workspace_worker.go) and the key by which the
-- stream drops duplicates (pkg/tfc_trigger/workspace_stream.go).
pub mod Laws
use tfbuddy.Prelude.{false, List, ◌∷◌, ◌++◌, if◌then◌else◌, any, is_empty}
use tfbuddy.Text.{Text, lit, text_eq}
use tfbuddy.Errors.{Error, error_text}
use tfbuddy.Config.{Config}
use tfbuddy.Types.{DetailedMr, TfcTriggerOptions, WorkspaceTriggerMsg}
use tfbuddy.Project.{Glob, Decoder}
use tfbuddy.Trigger.{TfcTrigger}
use tfbuddy.Trigger.Runs.{trigger_run_for_workspace}
use tfbuddy.Trigger.Events.{clone_git_repo}
use tfbuddy.Effects.{
  World, Io, ◌>>=◌, ◌>>◌, pure, perform, attempt, on_result, context, ignore, of_res,
  get_merge_request, remove_all, create_merge_request_comment,
}

-- `sha` stands for the hex text of the SHA-256 of the JSON of the values.
module _ (sha : WorkspaceTriggerMsg → Text) where
  unfoldable pub get_id : WorkspaceTriggerMsg → Text
  get_id m =
      if is_empty m.opts.delivery_id
      then sha m
      else m.opts.delivery_id ++ b'/' ∷ m.workspace.name ++ b'/' ∷ m.workspace.organization

module _ (glob : Glob) (decoder : Decoder) (w : World) (app_cfg : Config)
    (providers : List Text) where
  -- The trigger of a worker has no stream of its own.
  abbrev pub trigger_of : WorkspaceTriggerMsg → TfcTrigger
  trigger_of msg = record { app_cfg = app_cfg; cfg = msg.opts; has_workspace_stream = false }

  abbrev pub workspace_error : Text → Error → Text
  workspace_error ws e =
      lit ":no_entry: " ++ ws ++ lit " could not be run because: " ++ error_text e

  unfoldable pub post_workspace_error : TfcTriggerOptions → Text → Error → Io (Unit {0})
  post_workspace_error opts ws e = ignore (
      perform w.units (
        create_merge_request_comment opts.merge_request_iid opts.project_name_with_namespace
          (workspace_error ws e)))

  -- The deferred removal of the clone runs also when the trigger fails.
  unfoldable pub run_in_clone : WorkspaceTriggerMsg → DetailedMr → Text → Io (Unit {0})
  run_in_clone msg mr local_dir = do
    r ← attempt (trigger_run_for_workspace w (trigger_of msg) msg.workspace mr local_dir)
    ignore (perform w.units (remove_all local_dir))
    of_res r

  unfoldable pub run_workspace : WorkspaceTriggerMsg → Io (Unit {0})
  unfolding run_in_clone
  run_workspace msg = do
    mr ← context (lit "could not read MergeRequest data from VCS API: ") (
        perform w.merge_requests
          (get_merge_request msg.opts.merge_request_iid msg.opts.project_name_with_namespace))
    local_dir ←
        context (lit "could not clone repo: ") (clone_git_repo glob decoder w (trigger_of msg) mr)
    run_in_clone msg mr local_dir

  -- `providers` are the names that have a client. A message of another one is dropped.
  unfoldable pub handle_msg : WorkspaceTriggerMsg → Io (Unit {0})
  unfolding run_workspace post_workspace_error
  handle_msg msg =
      if any (text_eq msg.opts.vcs_provider) providers
      then (attempt (run_workspace msg)
          >>= on_result (λ e. post_workspace_error msg.opts msg.workspace.name e) (λ _. pure tt))
      else pure tt
