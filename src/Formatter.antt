-- ===== src/Formatter.antt =====
-- pkg/comment_formatter/tfc_status_update.go: the texts that tell of the status of a run.
use tfbuddy.Prelude.{ℕ, Bool, false, ◌||◌, [], ◌++◌, if◌then◌else◌, is_empty, ltb}
use tfbuddy.Text.{Text, lit, text_eq, itoa, join}
use tfbuddy.Config.{Config}
use tfbuddy.Types.{
  RunStatus, pending, planning, planned, planned_and_finished, policy_checked, policy_soft_failed,
  applying, applied, discarded, errored, Run, Plan, TfRunMetadata,
}
use tfbuddy.TfcClient.{get_plan_output}
use tfbuddy.TfcHooks.{status_text}
use tfbuddy.Marker.{format_tfbuddy_marker}
use tfbuddy.Effects.{World, Io, ◌>>=◌, pure, attempt, on_result}

abbrev pub is_plan_action : TfRunMetadata → Bool
is_plan_action rmd = text_eq rmd.action (lit "plan")

abbrev pub is_apply_action : TfRunMetadata → Bool
is_apply_action rmd = text_eq rmd.action (lit "apply")

-- The two snippets.
abbrev pub merge_snippet : TfRunMetadata → Text
merge_snippet rmd =
    if rmd.auto_merge
    then lit "Your MR will be **automatically** merged once the apply has succeeded"
    else lit "Remember to **merge** the MR once the apply has succeeded"

unfoldable pub get_proper_apply_text : TfRunMetadata → Text → Text
get_proper_apply_text rmd ws_name =
    lit
      "\n\n---\n* To **apply** the plan for all workspaces, comment:\n\t> `tfc apply`\n\n* To **apply** the plan for this workspace only, comment:\n\t> `tfc apply -w "
    ++ ws_name
    ++ lit "`\n\n"
    ++ merge_snippet rmd

unfoldable pub get_proper_targeted_apply_text : TfRunMetadata → Run → Text → Text
get_proper_targeted_apply_text rmd run ws_name =
    let targets = join (lit ",") run.target_addrs in
    lit "\n\n---\n* To **apply** the plan for all workspaces, comment:\n\t> `tfc apply -t "
    ++ targets
    ++ lit "`\n\n* To **apply** the plan for this workspace only, comment:\n\t> `tfc apply -w "
    ++ ws_name
    ++ lit " -t "
    ++ targets
    ++ lit "`\n\n"
    ++ merge_snippet rmd

-- `successPlanSummaryFormat`
abbrev pub plan_summary : ℕ → ℕ → ℕ → ℕ → Text
plan_summary imports additions changes destructions =
    lit "\n  * Imports: "
    ++ itoa imports
    ++ lit "\n  * Additions: "
    ++ itoa additions
    ++ lit "\n  * Changes: "
    ++ itoa changes
    ++ lit "\n  * Destructions: "
    ++ itoa destructions

abbrev pub need_to_apply_full_workspace : Text
need_to_apply_full_workspace = lit "\n\n**Need to Apply Full Workspace Before Merging**\n"

unfoldable pub has_plan_changes : Plan → Bool
has_plan_changes plan =
    ltb 0 plan.resource_additions || ltb 0 plan.resource_destructions || ltb 0 plan.resource_changes

-- The three results of `FormatRunStatusCommentBody`.
pub record StatusComment : Type 0 where
  pub main : Text
  pub top_level : Text
  pub resolve : Bool

abbrev pub no_comment : StatusComment
no_comment = record { main = []; top_level = []; resolve = false }

abbrev pub run_url : Text → Text → Text → Text
run_url org ws_name run_id =
    lit "https://app.terraform.io/app/"
    ++ org
    ++ lit "/workspaces/"
    ++ ws_name
    ++ lit "/runs/"
    ++ run_id

-- `MR_RUN_DETAILS_FORMAT` with the marker.
unfoldable pub top_level_note : Run → TfRunMetadata → Text
top_level_note run rmd =
    let ws_name = run.workspace_name in
    lit "\n### Terraform Cloud\n**Workspace**: `"
    ++ ws_name
    ++ lit "`<br>\n**Command**: "
    ++ rmd.action
    ++ lit " <br>\n**Status**: `"
    ++ status_text run.status
    ++ lit "`<br>\n**Run URL**: ["
    ++ run.id
    ++ lit "]("
    ++ run_url run.organization_name ws_name run.id
    ++ lit ") <br>\n"
    ++ lit "\n"
    ++ format_tfbuddy_marker ws_name rmd.action

abbrev pub apply_text : Run → TfRunMetadata → Text
apply_text run rmd =
    if is_empty run.target_addrs
    then get_proper_apply_text rmd run.workspace_name
    else get_proper_targeted_apply_text rmd run run.workspace_name

abbrev pub full_workspace_text : Run → TfRunMetadata → Text
full_workspace_text run rmd =
    if is_empty run.target_addrs
    then []
    else need_to_apply_full_workspace ++ get_proper_apply_text rmd run.workspace_name

-- `present` stands for `PresentPlanChangesAsMarkdown` of pkg/terraform_plan, which fills a template
-- from the JSON of a plan and the URL of its run.
module _ (present : Text → Text → Text) (w : World) (cfg : Config) where
  abbrev pub comment_of : Run → TfRunMetadata → Text → Bool → Io StatusComment
  comment_of run rmd extra_info resolve =
      pure (record { main = extra_info; top_level = top_level_note run rmd; resolve = resolve })

  abbrev pub plan_changes : Run → Io Text
  plan_changes run =
      attempt (get_plan_output w run.plan.id)
      >>= on_result (λ e. pure [])
          (λ b. pure (
            lit "<br>"
            ++ present b (run_url run.organization_name run.workspace_name run.id)
            ++ lit "</br>"))

  abbrev pub comment_for : Run → TfRunMetadata → RunStatus → Io StatusComment
  comment_for run rmd pending =
      comment_of run rmd
        (if ltb 0 run.position_in_queue
          then lit "Position in Queue: " ++ itoa run.position_in_queue
          else [])
        false
  comment_for run rmd applying = comment_of run rmd [] false
  comment_for run rmd applied =
      comment_of run rmd
        (plan_summary run.apply.resource_imports run.apply.resource_additions
            run.apply.resource_changes run.apply.resource_destructions
          ++ full_workspace_text run rmd)
        (is_empty run.target_addrs)
  comment_for run rmd discarded = comment_of run rmd [] false
  comment_for run rmd errored =
      comment_of run rmd
        (if is_plan_action rmd
          then lit "\n*Click Terraform Cloud URL to see detailed plan output*\n"
          else [])
        false
  comment_for run rmd planning =
      comment_of run rmd
        (if run.auto_apply
          then lit "Auto Apply Enabled - plan will automatically Apply if it passes policy checks."
          else [])
        false
  comment_for run rmd planned =
      comment_of run rmd
        (plan_summary run.apply.resource_imports run.plan.resource_additions
            run.plan.resource_changes run.plan.resource_destructions
          ++ (if run.auto_apply then [] else apply_text run rmd))
        false
  comment_for run rmd planned_and_finished = plan_changes run >>= λ changes.
      if has_plan_changes run.plan
      then comment_of run rmd (changes ++ apply_text run rmd) false
      else comment_of run rmd (changes ++ full_workspace_text run rmd) (is_empty run.target_addrs)
  comment_for run rmd policy_soft_failed =
      comment_of run rmd
        (if cfg.fail_ci_on_sentinel_soft_fail
          then lit "Policy Checks: Soft Failed. Review plan and make changes to pass policy checks."
          else lit
              "Policy Checks: Soft Failed — approval required in Terraform Cloud before apply can proceed.")
        false
  comment_for run rmd policy_checked =
      comment_of run rmd
        (lit "Policy Checks: Passed."
          ++ (if run.auto_apply
              then []
              else lit
                  " Plan requires confirmation through the Terraform Cloud console. Click Run URL link to open & confirm."))
        false
  comment_for run rmd _ = pure no_comment

  unfoldable pub format_run_status_comment_body : Run → TfRunMetadata → Io StatusComment
  unfolding get_proper_apply_text get_proper_targeted_apply_text has_plan_changes top_level_note
  format_run_status_comment_body run rmd = comment_for run rmd run.status
