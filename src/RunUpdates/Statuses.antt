-- ===== src/RunUpdates/Statuses.antt =====
-- pkg/vcs/gitlab/mr_status_updater.go: the commit statuses of a run, and the merge behind it.
use tfbuddy.Prelude.{ℕ, ◌&&◌, Option, none, some, List, [], ◌∷◌, ◌++◌, if◌then◌else◌, is_empty}
use tfbuddy.Text.{Text, lit, text_eq}
use tfbuddy.Errors.{sentinel, no_pipeline_status}
use tfbuddy.Config.{Config}
use tfbuddy.Types.{
  RunStatus, pending, planning, planned_and_finished, policy_soft_failed, apply_queued, applying,
  applied, discarded, errored, canceled, Run, TfRunMetadata, ProjectPipeline, BuildState,
  state_pending, state_running, state_failed, state_success,
}
use tfbuddy.Formatter.{run_url, is_plan_action, is_apply_action}
use tfbuddy.Runstream.{retry}
use tfbuddy.Effects.{
  World, Io, ◌>>=◌, ◌>>◌, pure, fail, perform, attempt, on_result, ignore, set_commit_status,
  get_pipelines_for_commit, merge_mr,
}

abbrev pub status_name : Text → Text → Text
status_name ws action = lit "TFC/" ++ action ++ lit "/" ++ ws

abbrev pub description_for_state : BuildState → Text
description_for_state state_pending = lit "pending..."
description_for_state state_running = lit "in progress..."
description_for_state state_failed = lit "failed."
description_for_state state_success = lit "succeeded."

-- The first pipeline of a merge request.
unfoldable pub merge_request_pipeline : List ProjectPipeline → Option ℕ
merge_request_pipeline [] = none
merge_request_pipeline (p ∷ ps) =
    let later = merge_request_pipeline ps in
    if text_eq p.source (lit "merge_request_event") then some p.pipeline_id else later

abbrev pub last_pipeline : List ProjectPipeline → Option ℕ
last_pipeline [] = none
last_pipeline (p ∷ []) = some p.pipeline_id
last_pipeline (p ∷ q ∷ ps) = last_pipeline (q ∷ ps)

abbrev pub or_last : List ProjectPipeline → Option ℕ → Option ℕ
or_last ps none = last_pipeline ps
or_last ps (some id) = some id

-- `retries` is how often the backoff retries within its thirty seconds.
module _ (w : World) (cfg : Config) (retries : ℕ) where
  unfoldable pub get_latest_pipeline_id : TfRunMetadata → Io (Option ℕ)
  get_latest_pipeline_id rmd =
      attempt (
        perform w.pipelines
          (get_pipelines_for_commit rmd.merge_request_project_name_with_namespace rmd.commit_sha))
      >>= on_result (λ e. pure none) (λ ps. pure (or_last ps (merge_request_pipeline ps)))

  abbrev pub require_id : Option ℕ → Io ℕ
  require_id none = fail (sentinel no_pipeline_status)
  require_id (some id) = pure id

  unfoldable pub find_pipeline_id : TfRunMetadata → Io (Option ℕ)
  unfolding get_latest_pipeline_id
  find_pipeline_id rmd =
      attempt (retry w retries (get_latest_pipeline_id rmd >>= require_id))
      >>= on_result (λ e. pure none) (λ id. pure (some id))

  unfoldable pub update_status : BuildState → Text → TfRunMetadata → Io (Unit {0})
  unfolding find_pipeline_id
  update_status state action rmd = find_pipeline_id rmd >>= λ pipeline_id. ignore (
      perform w.units (
        set_commit_status rmd.merge_request_project_name_with_namespace rmd.commit_sha (record {
          name = status_name rmd.workspace action;
          context = status_name rmd.workspace action;
          target_url = run_url rmd.organization rmd.workspace rmd.run_id;
          description = description_for_state state;
          state = state;
          pipeline_id = pipeline_id;
        })))

  -- `mergeMRIfPossible`, and `mergePRIfPossible` of GitHub.
  unfoldable pub merge_mr_if_possible : TfRunMetadata → Io (Unit {0})
  merge_mr_if_possible rmd =
      if rmd.auto_merge
      then ignore (
          perform w.units
            (merge_mr rmd.merge_request_iid rmd.merge_request_project_name_with_namespace))
      else pure tt

  abbrev pub update_for : Run → TfRunMetadata → RunStatus → Io (Unit {0})
  update_for run rmd pending =
      if is_plan_action rmd
      then (update_status state_pending (lit "plan") rmd
          >> update_status state_failed (lit "apply") rmd)
      else update_status state_pending (lit "apply") rmd
  update_for run rmd apply_queued = update_status state_pending (lit "apply") rmd
  update_for run rmd applying = update_status state_running (lit "apply") rmd
  update_for run rmd applied =
      if is_empty run.target_addrs
      then (update_status state_success (lit "apply") rmd >> merge_mr_if_possible rmd)
      else update_status state_pending (lit "apply") rmd
  update_for run rmd canceled = update_status state_failed rmd.action rmd
  update_for run rmd discarded =
      update_status state_failed (lit "plan") rmd >> update_status state_failed (lit "apply") rmd
  update_for run rmd errored = update_status state_failed rmd.action rmd
  update_for run rmd planning = update_status state_running rmd.action rmd
  update_for run rmd planned_and_finished =
      update_status state_success rmd.action rmd
      >> (if run.has_changes
          then update_status state_pending (lit "apply") rmd
          else (if is_empty run.target_addrs && is_apply_action rmd
              then merge_mr_if_possible rmd
              else pure tt))
  update_for run rmd policy_soft_failed =
      if cfg.fail_ci_on_sentinel_soft_fail && is_plan_action rmd
      then update_status state_failed (lit "plan") rmd
      else update_status state_success rmd.action rmd
  update_for run rmd _ = pure tt

  unfoldable pub update_commit_status_for_run : Run → TfRunMetadata → Io (Unit {0})
  unfolding update_status merge_mr_if_possible
  update_commit_status_for_run run rmd = update_for run rmd run.status
