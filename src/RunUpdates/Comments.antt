-- ===== src/RunUpdates/Comments.antt =====
-- What is posted of the status of a run: pkg/vcs/gitlab/mr_comment_updater.go and
-- pkg/vcs/github/run_events_worker.go, and the callbacks of both providers.
use tfbuddy.Prelude.{ℕ, Bool, true, false, ◌&&◌, [], ◌++◌, if◌then◌else◌, is_empty}
use tfbuddy.Text.{Text, lit}
use tfbuddy.Config.{Config}
use tfbuddy.Types.{
  RunStatus, planned_and_finished, applied, discarded, errored, canceled, Run, TfRunMetadata,
  TfRunEvent,
}
use tfbuddy.TfcClient.{get_run}
use tfbuddy.TfcHooks.{status_text}
use tfbuddy.Formatter.{StatusComment, format_run_status_comment_body, is_apply_action}
use tfbuddy.RunUpdates.Statuses.{update_commit_status_for_run, merge_mr_if_possible}
use tfbuddy.Effects.{
  World, Io, ◌>>=◌, ◌>>◌, pure, perform, attempt, on_result, ignore, get_old_run_urls,
  update_merge_request_discussion_note, add_merge_request_discussion_reply,
  create_merge_request_comment, resolve_merge_request_discussion,
}

-- The statuses whose notes keep the URLs of older runs.
abbrev pub keeps_old_urls : RunStatus → Bool
keeps_old_urls errored = true
keeps_old_urls canceled = true
keeps_old_urls discarded = true
keeps_old_urls planned_and_finished = true
keeps_old_urls _ = false

abbrev pub with_old_urls : Text → Text → Text
with_old_urls old_urls note = if is_empty old_urls then note else old_urls ++ lit "\n\n" ++ note

module _ (present : Text → Text → Text) (w : World) (cfg : Config) (retries : ℕ) where
  -- An error is only logged, and there are no old URLs then.
  unfoldable pub old_urls_of : Run → TfRunMetadata → Io Text
  old_urls_of run rmd =
      if keeps_old_urls run.status
      then (attempt (
            perform w.texts (
              get_old_run_urls rmd.merge_request_iid rmd.merge_request_project_name_with_namespace
                rmd.root_note_id run.workspace_name rmd.action))
          >>= on_result (λ e. pure []) pure)
      else pure []

  -- The reply in the discussion, or a comment where there is none. Its error is dropped.
  unfoldable pub post_comment : Text → TfRunMetadata → Io (Unit {0})
  post_comment comment_body rmd =
      let content = lit "\n### Terraform Cloud\n" ++ comment_body ++ lit "\n" in
      if is_empty rmd.discussion_id
      then ignore (
          perform w.units (
            create_merge_request_comment rmd.merge_request_iid
              rmd.merge_request_project_name_with_namespace content))
      else ignore (
          perform w.discussions (
            add_merge_request_discussion_reply rmd.merge_request_iid
              rmd.merge_request_project_name_with_namespace rmd.discussion_id content))

  unfoldable pub update_note : Text → TfRunMetadata → Io (Unit {0})
  update_note note rmd =
      if is_empty note
      then pure tt
      else ignore (
          perform w.discussions (
            update_merge_request_discussion_note rmd.merge_request_iid rmd.root_note_id
              rmd.merge_request_project_name_with_namespace rmd.discussion_id note))

  -- `postRunStatusComment` of GitLab.
  unfoldable pub post_run_status_comment : Run → TfRunMetadata → Io (Unit {0})
  unfolding old_urls_of post_comment update_note
  post_run_status_comment run rmd = do
    comment ← format_run_status_comment_body present w cfg run rmd
    old_urls ← old_urls_of run rmd
    update_note (with_old_urls old_urls comment.top_level) rmd
    if is_empty comment.main
        then pure tt
        else post_comment (lit "Status: `" ++ status_text run.status ++ lit "`<br>" ++ comment.main)
            rmd
    if comment.resolve
        then ignore (
            perform w.units (
              resolve_merge_request_discussion rmd.merge_request_project_name_with_namespace
                rmd.merge_request_iid rmd.discussion_id))
        else pure tt

  -- `eventStreamCallback` of GitLab: whether the message is acknowledged.
  unfoldable pub gitlab_event_callback : TfRunEvent → TfRunMetadata → Io Bool
  gitlab_event_callback re rmd =
      attempt (get_run w re.run_id)
      >>= on_result (λ e. pure false)
          (λ read.
            (let run = record read { status = re.new_status } in
              post_run_status_comment run rmd
              >> (update_commit_status_for_run w cfg retries run rmd >> pure true)))

  -- The one comment of GitHub; nothing is posted where there is no top-level note.
  unfoldable pub post_github_comment : Run → TfRunMetadata → StatusComment → Io (Unit {0})
  unfolding old_urls_of
  post_github_comment run rmd comment =
      if is_empty comment.top_level
      then pure tt
      else old_urls_of run rmd >>= λ old_urls. ignore (
          perform w.units (
            create_merge_request_comment rmd.merge_request_iid
              rmd.merge_request_project_name_with_namespace
              (with_old_urls old_urls comment.top_level
                ++ (if is_empty comment.main then [] else lit "\n" ++ comment.main))))

  abbrev pub merge_after : Run → TfRunMetadata → RunStatus → Io (Unit {0})
  merge_after run rmd applied =
      if is_empty run.target_addrs then merge_mr_if_possible w cfg retries rmd else pure tt
  merge_after run rmd planned_and_finished =
      if is_empty run.target_addrs && is_apply_action rmd
      then merge_mr_if_possible w cfg retries rmd
      else pure tt
  merge_after run rmd _ = pure tt

  -- `postRunStatusComment` of GitHub.
  unfoldable pub post_and_merge : Run → TfRunMetadata → Io (Unit {0})
  unfolding post_github_comment
  post_and_merge run rmd = format_run_status_comment_body present w cfg run rmd >>= λ comment.
      post_github_comment run rmd comment >> merge_after run rmd run.status

  -- `eventStreamCallback` of GitHub.
  unfoldable pub github_event_callback : TfRunEvent → TfRunMetadata → Io Bool
  unfolding post_and_merge
  github_event_callback re rmd =
      attempt (get_run w re.run_id)
      >>= on_result (λ e. pure false)
          (λ read. post_and_merge (record read { status = re.new_status }) rmd >> pure true)
