-- ===== src/Tests/Updates.antt =====
-- Examples of the events of GitLab, of polled runs and of status updates.
use tfbuddy.Prelude.{inl, ◌≡◌, refl, true, false, none, some, [], ◌∷◌, All, Any}
use tfbuddy.Text.{lit, text_eq, to_lower, lower, trim_space, is_space, fields}
use tfbuddy.Types.{plan, apply, applied, Run}
use tfbuddy.Trigger.{check_trigger_action}
use tfbuddy.Comment.{CommentOpts, ArgsParser, parse_comment_command}
use tfbuddy.GitlabHooks.{NoteEvent, MergeRequestEvent, process_note_event}
use tfbuddy.GitlabHooks.Laws.{process_note_event-unready}
use tfbuddy.GithubHooks.{IssueCommentEvent, process_issue_comment}
use tfbuddy.GithubHooks.Laws.{process_issue_comment-unready}
use tfbuddy.RunUpdates.Statuses.{update_commit_status_for_run}
use tfbuddy.RunUpdates.Comments.{post_and_merge}
use tfbuddy.RunUpdates.Merging.{
  MayMerge, MergesOnly, update_commit_status_for_run-Merges, post_and_merge-Merges,
}
use tfbuddy.RunUpdates.Merged.{Merges, update_commit_status_for_run_applied}
use tfbuddy.Trigger.EventSafety.{TouchesNothing}
use tfbuddy.Effects.{World, ok}
use tfbuddy.Effects.Kinds.{kind}
use tfbuddy.Effects.Laws.{Always}
use tfbuddy.Tests.Samples.{
  sample_world, sample_glob, sample_decoder, sample_config, sample_options, sample_mr, sample_run,
  sample_metadata,
}

-- A parser that takes the second word as the command.
abbrev sample_parser : ArgsParser
sample_parser (agent ∷ command ∷ rest) =
    some (record { trigger_opts = sample_options plan; agent = agent; command = command })
sample_parser _ = none

abbrev apply_opts : CommentOpts
apply_opts = record {
  trigger_opts = sample_options apply;
  agent = lit "tfc";
  command = lit "apply";
}

abbrev apply_note_event : NoteEvent
apply_note_event = record {
  project = lit "infra/network";
  note = lit "tfc apply";
  note_type = [];
  discussion_id = [];
  mr_iid = 5;
  source_branch = lit "feature";
  last_commit = lit "abc123";
  delivery_id = lit "d-1";
}

abbrev merged_event : MergeRequestEvent
merged_event = record {
  project = lit "infra/network";
  source_project = lit "infra/network";
  source_branch = lit "feature";
  last_commit = lit "abc123";
  old_rev = [];
  mr_iid = 5;
  action = lit "merge";
  delivery_id = lit "d-2";
}

-- The merge request is not approved.
abbrev unapproved_world : World
unapproved_world = record sample_world { flags = λ h c. ok false }

false_not_true : ¬ (ok false ≡ ok true)
false_not_true e = cc

unready_example :
    All
      (λ c. TouchesNothing (kind c))
      (process_note_event sample_glob sample_decoder sample_parser unapproved_world sample_config
        true apply_note_event []).1
unfolding lit parse_comment_command check_trigger_action fields to_lower lower text_eq trim_space
    is_space
unready_example =
    process_note_event-unready sample_glob sample_decoder sample_parser unapproved_world
      sample_config true apply_note_event apply_opts [] refl refl (λ ready. false_not_true ready.0)

abbrev applied_run : Run
applied_run = record sample_run { status = applied }

gitlab_merge_example :
    Always
      (MergesOnly (MayMerge applied_run sample_metadata applied))
      (update_commit_status_for_run sample_world sample_config 2 applied_run sample_metadata)
gitlab_merge_example =
    update_commit_status_for_run-Merges sample_world sample_config 2 applied_run sample_metadata

github_merge_example :
    Always
      (MergesOnly (MayMerge applied_run sample_metadata applied))
      (post_and_merge (λ b url. b) sample_world sample_config 2 applied_run sample_metadata)
github_merge_example =
    post_and_merge-Merges sample_world sample_config 2 (λ b url. b) applied_run sample_metadata

merged_example :
    Any
      (Merges sample_world sample_config 2 sample_metadata)
      (update_commit_status_for_run sample_world sample_config 2 applied_run sample_metadata []).1
merged_example =
    update_commit_status_for_run_applied sample_world sample_config 2 applied_run sample_metadata []
      refl refl refl

abbrev comment_event : IssueCommentEvent
comment_event = record {
  repo = lit "zapier/tfbuddy";
  body = lit "tfc apply";
  number = 5;
  delivery_id = lit "d-3";
}

-- The pull request of the sample is not approved.
comment_example :
    All
      (λ c. TouchesNothing (kind c))
      (process_issue_comment sample_glob sample_decoder sample_parser sample_world sample_config
        true comment_event []).1
unfolding lit parse_comment_command check_trigger_action fields to_lower lower text_eq trim_space
    is_space
comment_example =
    process_issue_comment-unready sample_glob sample_decoder sample_parser sample_world
      sample_config true comment_event apply_opts sample_mr [] refl refl refl (inl refl)
