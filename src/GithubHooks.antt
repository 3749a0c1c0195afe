-- ===== src/GithubHooks.antt =====
-- pkg/vcs/github/hooks/stream_worker.go: what a worker does with a comment on a pull request.
pub mod Laws
use tfbuddy.Prelude.{ℕ, Bool, not, Option, none, some, ◌++◌, if◌then◌else◌}
use tfbuddy.Text.{Text, lit, text_eq}
use tfbuddy.Errors.{Error, eq_error, plain, other_tf_tool, not_tfc_command, emit_permanent_error}
use tfbuddy.Config.{Config}
use tfbuddy.Types.{TfcTriggerOptions, comment_trigger, DetailedMr}
use tfbuddy.AllowList.{is_github_repo_allowed}
use tfbuddy.Comment.{CommentOpts, ArgsParser, parse_comment_command}
use tfbuddy.GitlabHooks.{is_known_command}
use tfbuddy.Project.{Glob, Decoder}
use tfbuddy.Trigger.{TfcTrigger}
use tfbuddy.Trigger.Dispatching.{ErroredWorkspace}
use tfbuddy.Trigger.Events.{trigger_tfc_events}
use tfbuddy.Effects.{
  World, Io, ◌>>=◌, pure, fail, perform, attempt, on_result, ignore, for_each, get_merge_request,
  create_merge_request_comment,
}

-- What the worker reads of an event.
pub record IssueCommentEvent : Type 0 where
  pub repo : Text
  pub body : Text
  pub number : ℕ
  pub delivery_id : Text

abbrev pub comment_options : IssueCommentEvent → CommentOpts → DetailedMr → TfcTriggerOptions
comment_options event opts pr = record (opts.trigger_opts) {
  branch = pr.source_branch;
  commit_sha = pr.base_sha;
  project_name_with_namespace = event.repo;
  merge_request_iid = event.number;
  trigger_source = comment_trigger;
  vcs_provider = lit "github";
  delivery_id = event.delivery_id;
}

module _ (glob : Glob) (decoder : Decoder) (parse_args : ArgsParser) (w : World) (cfg : Config)
    (has_stream : Bool) where
  abbrev pub trigger_for : TfcTriggerOptions → TfcTrigger
  trigger_for opts = record { app_cfg = cfg; cfg = opts; has_workspace_stream = has_stream }

  -- No caller reads the error.
  unfoldable pub post_pull_request_comment : IssueCommentEvent → Text → Io (Unit {0})
  post_pull_request_comment event body =
      ignore (perform w.units (create_merge_request_comment event.number event.repo body))

  abbrev pub post_failed : IssueCommentEvent → ErroredWorkspace → Io (Unit {0})
  post_failed event failed =
      post_pull_request_comment event
        (lit ":no_entry: " ++ failed.name ++ lit " could not be run because: " ++ failed.error)

  unfoldable pub run_comment_trigger : IssueCommentEvent → CommentOpts → DetailedMr → Io (Unit {0})
  run_comment_trigger event opts pr =
      trigger_tfc_events glob decoder w (trigger_for (comment_options event opts pr)) >>= λ status.
      for_each (post_failed event) status.errored

  unfoldable pub run_pr_command : IssueCommentEvent → CommentOpts → DetailedMr → Io (Unit {0})
  unfolding run_comment_trigger post_pull_request_comment
  run_pr_command event opts pr =
      if text_eq opts.command (lit "apply")
      then (if not pr.approved
          then post_pull_request_comment event
              (lit ":no_entry: Apply failed. Pull Request requires approval.")
          else (if pr.conflicts
              then post_pull_request_comment event (
                  lit
                    ":no_entry: Apply failed. Pull Request has conflicts that need to be resolved.")
              else run_comment_trigger event opts pr))
      else (if is_known_command opts.command
          then run_comment_trigger event opts pr
          else fail (plain (lit "could not parse command")))

  unfoldable pub comment_error : IssueCommentEvent → Error → Io (Unit {0})
  unfolding post_pull_request_comment
  comment_error event e =
      if eq_error e other_tf_tool
      then post_pull_request_comment event (lit "Use 'tfc' to interact with TFBuddy")
      else (if eq_error e not_tfc_command then pure tt else fail e)

  unfoldable pub process_issue_comment : IssueCommentEvent → Io (Unit {0})
  unfolding run_pr_command comment_error
  process_issue_comment event =
      if is_github_repo_allowed cfg event.repo
      then on_result (comment_error event)
          (λ opts. perform w.merge_requests (get_merge_request event.number event.repo) >>= λ pr.
            run_pr_command event opts pr)
          (parse_comment_command parse_args event.body)
      else pure tt

  abbrev pub emitted : Option Error → Io (Unit {0})
  emitted none = pure tt
  emitted (some e) = fail e

  -- A permanent error is logged and not handed back to the stream.
  unfoldable pub process_issue_comment_event : IssueCommentEvent → Io (Unit {0})
  process_issue_comment_event event =
      attempt (process_issue_comment event)
      >>= on_result (λ e. emitted (emit_permanent_error (some e))) pure
