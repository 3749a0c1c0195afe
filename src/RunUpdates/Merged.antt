-- ===== src/RunUpdates/Merged.antt =====
-- When the status of a run does merge its merge request.
use tfbuddy.Prelude.{ℕ, ◌≡◌, refl, true, is_empty, Any, inl}
use tfbuddy.Text.{Text, lit}
use tfbuddy.Config.{Config}
use tfbuddy.Types.{applied, Run, TfRunMetadata, BuildState, state_success}
use tfbuddy.RunUpdates.Statuses.{
  find_pipeline_id, update_status, merge_mr_if_possible, update_for, update_commit_status_for_run,
}
use tfbuddy.Effects.{Call, World, History, ◌>>=◌, perform, attempt, merge_mr}
use tfbuddy.Effects.Makes.{
  Makes, Makes-second, Succeeds, Succeeds-bind, Succeeds-on_result, Succeeds-pure, Succeeds-attempt,
}

module _ (w : World) (cfg : Config) (retries : ℕ) where
  update-Succeeds :
      (state : BuildState) (action : Text) (rmd : TfRunMetadata)
      → Succeeds (update_status w cfg retries state action rmd)
  unfolding update_status find_pipeline_id
  update-Succeeds state action rmd =
      search (Succeeds-bind, Succeeds-on_result, Succeeds-pure, Succeeds-attempt) depth 9

  -- The call that merges.
  abbrev pub Merges : TfRunMetadata → Call → Type 0
  Merges rmd c = c ≡ merge_mr rmd.merge_request_iid rmd.merge_request_project_name_with_namespace

  merge-Makes :
      (rmd : TfRunMetadata)
      → rmd.auto_merge ≡ true
      → Makes (Merges rmd) (merge_mr_if_possible w cfg retries rmd)
  unfolding merge_mr_if_possible ◌>>=◌ attempt perform
  merge-Makes rmd on h = rw on (inl refl)

  applied-Makes :
      (run : Run) (rmd : TfRunMetadata)
      → rmd.auto_merge ≡ true
      → is_empty run.target_addrs ≡ true
      → Makes (Merges rmd) (update_for w cfg retries run rmd applied)
  applied-Makes run rmd on all = rw all (
      Makes-second (Merges rmd) (update_status w cfg retries state_success (lit "apply") rmd)
        (λ _. merge_mr_if_possible w cfg retries rmd)
        (update-Succeeds state_success (lit "apply") rmd) (λ _. merge-Makes rmd on))

  -- For a run without targets that was applied, GitLab is asked to merge its merge request if auto-merge
  -- is on, whatever becomes of the other workspaces of the merge request, and also when its commit status
  -- cannot be set.
  pub update_commit_status_for_run_applied :
      (run : Run) (rmd : TfRunMetadata) (h : History)
      → run.status ≡ applied
      → rmd.auto_merge ≡ true
      → is_empty run.target_addrs ≡ true
      → Any (Merges rmd) (update_commit_status_for_run w cfg retries run rmd h).1
  unfolding update_commit_status_for_run
  update_commit_status_for_run_applied run rmd h e on all = rw e (applied-Makes run rmd on all h)
