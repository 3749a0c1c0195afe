-- ===== src/GithubHooks/Laws.antt =====
-- What a comment on a pull request may start.
use tfbuddy.Prelude.{
  ◌≡◌, ap, ◌∙◌, ◌⊎◌, inl, inr, Bool, true, false, [], ◌∷◌, ◌++◌, arith, All, Bool-cases,
}
use tfbuddy.Text.{lit, text_eq}
use tfbuddy.Text.Laws.{text_eq_refl}
use tfbuddy.Config.{Config}
use tfbuddy.Types.{DetailedMr}
use tfbuddy.AllowList.{is_github_repo_allowed}
use tfbuddy.Comment.{CommentOpts, ArgsParser, parse_comment_command}
use tfbuddy.Project.{Glob, Decoder}
use tfbuddy.Trigger.EventSafety.{TouchesNothing}
use tfbuddy.GithubHooks.{
  IssueCommentEvent, post_pull_request_comment, run_pr_command, process_issue_comment,
}
use tfbuddy.Effects.{
  World, ok, History, ◌>>=◌, pure, perform, on_result, all_steps, get_merge_request,
}
use tfbuddy.Effects.Kinds.{kind}
use tfbuddy.Effects.Laws.{Always}

module _ (glob : Glob) (decoder : Decoder) (parse_args : ArgsParser) (w : World) (cfg : Config)
    (has_stream : Bool) where
  run_pr_command-unready :
      (event : IssueCommentEvent) (opts : CommentOpts) (pr : DetailedMr)
      → text_eq opts.command (lit "apply") ≡ true
      → (pr.approved ≡ false) ⊎ (pr.conflicts ≡ true)
      → Always
          (λ c. TouchesNothing (kind c))
          (run_pr_command glob decoder parse_args w cfg has_stream event opts pr)
  unfolding run_pr_command post_pull_request_comment all_steps
  run_pr_command-unready event opts pr e (inl f) h = ground (arith, e, f)
  run_pr_command-unready event opts pr e (inr f) h = ground (arith, e, f)

  -- A comment that asks for an apply touches no workspace, and hands no action to a worker, where its
  -- pull request is read and is not approved or has conflicts.
  pub process_issue_comment-unready :
      (event : IssueCommentEvent) (opts : CommentOpts) (pr : DetailedMr) (h : History)
      → parse_comment_command parse_args event.body ≡ ok opts
      → opts.command ≡ lit "apply"
      → w.merge_requests h (get_merge_request event.number event.repo) ≡ ok pr
      → (pr.approved ≡ false) ⊎ (pr.conflicts ≡ true)
      → All
          (λ c. TouchesNothing (kind c))
          (process_issue_comment glob decoder parse_args w cfg has_stream event h).1
  unfolding process_issue_comment on_result ◌>>=◌ perform pure
  process_issue_comment-unready event opts pr h e f g unready =
      let named : text_eq opts.command (lit "apply") ≡ true =
        ap (λ c. text_eq c (lit "apply")) f ∙ text_eq_refl (lit "apply") in
      elim (Bool-cases (is_github_repo_allowed cfg event.repo)) [
        | inl allowed ↦
            rw (allowed, e, g)
              (
                tt,
                run_pr_command-unready event opts pr named unready
                    (h ++ get_merge_request event.number event.repo ∷ []),
              )
        | inr denied ↦ rw denied tt
      ]
