-- ===== src/RunUpdates/Merging.antt =====
-- pkg/vcs: when the status of a run may merge its merge request.
use tfbuddy.Prelude.{
  ℕ, ◌≡◌, refl, ◌⊎◌, inl, inr, true, ◌&&◌, if◌then◌else◌, is_empty, arith, and_parts, Bool-cases,
  zero, suc, Option, none, some,
}
use tfbuddy.Text.{Text}
use tfbuddy.Config.{Config}
use tfbuddy.Types.{
  RunStatus, pending, plan_queued, planning, planned, planned_and_finished, cost_estimating,
  policy_checking, policy_checked, policy_soft_failed, apply_queued, applying, applied, discarded,
  errored, canceled, other_status, Run, TfRunMetadata, BuildState,
}
use tfbuddy.TfcClient.{get_plan_output}
use tfbuddy.Runstream.{retry}
use tfbuddy.Formatter.{comment_for, is_apply_action, format_run_status_comment_body}
use tfbuddy.RunUpdates.Statuses.{
  get_latest_pipeline_id, find_pipeline_id, update_status, merge_mr_if_possible, update_for,
  update_commit_status_for_run, require_id,
}
use tfbuddy.RunUpdates.Comments.{merge_after, post_and_merge, post_github_comment, old_urls_of}
use tfbuddy.Effects.{Call, World, Io, pure}
use tfbuddy.Effects.Kinds.{kind, merging, reading, posting, reporting}
use tfbuddy.Effects.Laws.{Always, always}

-- A run after which the merge request may be merged: all of its workspace was applied, or an apply
-- found nothing to do, and auto-merge is on.
abbrev pub MayMerge : Run → TfRunMetadata → RunStatus → Type 0
MayMerge run rmd status =
    (rmd.auto_merge ≡ true)
    × (is_empty run.target_addrs ≡ true)
    × ((status ≡ applied) ⊎ ((status ≡ planned_and_finished) × (is_apply_action rmd ≡ true)))

-- A call that merges is made only where it may be.
abbrev pub MergesOnly : Type 0 → Call → Type 0
MergesOnly may c = kind c ≡ merging → may

module _ (w : World) (cfg : Config) (retries : ℕ) (may : Type 0) where
  no_merge : (c : Call) → kind c ≡ reading → MergesOnly may c
  no_merge c e f = absurd (ground (arith, e, f))

  posts : (c : Call) → kind c ≡ posting → MergesOnly may c
  posts c e f = absurd (ground (arith, e, f))

  reports : (c : Call) → kind c ≡ reporting → MergesOnly may c
  reports c e f = absurd (ground (arith, e, f))

  retry-Merges :
      {A : Type 0} (n : ℕ) (m : Io A)
      → Always (MergesOnly may) m
      → Always (MergesOnly may) (retry w n m)
  unfolding retry
  retry-Merges zero m p = p
  retry-Merges {A} (suc n) m p = search (always, p, retry-Merges {A = A} n m p) depth 9

  require-Merges : (o : Option ℕ) → Always (MergesOnly may) (require_id w cfg retries o)
  require-Merges none = search always
  require-Merges (some id) = search always

  update-Merges :
      (state : BuildState) (action : Text) (rmd : TfRunMetadata)
      → Always (MergesOnly may) (update_status w cfg retries state action rmd)
  unfolding update_status find_pipeline_id get_latest_pipeline_id
  update-Merges state action rmd =
      search (always, retry-Merges, require-Merges, no_merge, reports) depth 14

  merge-Merges :
      (rmd : TfRunMetadata)
      → (rmd.auto_merge ≡ true → may)
      → Always (MergesOnly may) (merge_mr_if_possible w cfg retries rmd)
  unfolding merge_mr_if_possible
  merge-Merges rmd p = elim (Bool-cases rmd.auto_merge) [
    | inl on ↦
        let merge : (c : Call) → MergesOnly may c = λ c f. p on in rw on (search (always, merge))
    | inr off ↦ rw off (search always)
  ]

  finished-Merges :
      (run : Run) (rmd : TfRunMetadata)
      → (rmd.auto_merge ≡ true
          → is_empty run.target_addrs ≡ true
          → is_apply_action rmd ≡ true
          → may)
      → Always (MergesOnly may) (
          if is_empty run.target_addrs && is_apply_action rmd
          then merge_mr_if_possible w cfg retries rmd
          else pure tt)
  finished-Merges run rmd p = elim (Bool-cases (is_empty run.target_addrs && is_apply_action rmd)) [
    | inl both ↦
        let (all, applies) = and_parts (is_empty run.target_addrs) (is_apply_action rmd) both in
        rw both (merge-Merges rmd (λ auto. p auto all applies))
    | inr other ↦ rw other (search always)
  ]

  update_for-Merges :
      (run : Run) (rmd : TfRunMetadata) (status : RunStatus)
      → (MayMerge run rmd status → may)
      → Always (MergesOnly may) (update_for w cfg retries run rmd status)
  update_for-Merges run rmd pending p = search (always, update-Merges) depth 9
  update_for-Merges run rmd plan_queued p = search always
  update_for-Merges run rmd planning p = search (always, update-Merges)
  update_for-Merges run rmd planned p = search always
  update_for-Merges run rmd planned_and_finished p =
      search
        (
          always,
          update-Merges,
          finished-Merges run rmd (λ auto all applies. p (auto, all, inr (refl, applies))),
        )
        depth 9
  update_for-Merges run rmd cost_estimating p = search always
  update_for-Merges run rmd policy_checking p = search always
  update_for-Merges run rmd policy_checked p = search always
  update_for-Merges run rmd policy_soft_failed p = search (always, update-Merges)
  update_for-Merges run rmd apply_queued p = search (always, update-Merges)
  update_for-Merges run rmd applying p = search (always, update-Merges)
  update_for-Merges run rmd applied p = elim (Bool-cases (is_empty run.target_addrs)) [
    | inl all ↦
        rw all (search (always, update-Merges, merge-Merges rmd (λ auto. p (auto, all, inl refl))))
    | inr some_targets ↦ rw some_targets (search (always, update-Merges))
  ]
  update_for-Merges run rmd discarded p = search (always, update-Merges)
  update_for-Merges run rmd errored p = search (always, update-Merges)
  update_for-Merges run rmd canceled p = search (always, update-Merges)
  update_for-Merges run rmd (other_status s) p = search always

  merge_after-Merges :
      (present : Text → Text → Text) (run : Run) (rmd : TfRunMetadata) (status : RunStatus)
      → (MayMerge run rmd status → may)
      → Always (MergesOnly may) (merge_after present w cfg retries run rmd status)
  merge_after-Merges present run rmd pending p = search always
  merge_after-Merges present run rmd plan_queued p = search always
  merge_after-Merges present run rmd planning p = search always
  merge_after-Merges present run rmd planned p = search always
  merge_after-Merges present run rmd planned_and_finished p =
      finished-Merges run rmd (λ auto all applies. p (auto, all, inr (refl, applies)))
  merge_after-Merges present run rmd cost_estimating p = search always
  merge_after-Merges present run rmd policy_checking p = search always
  merge_after-Merges present run rmd policy_checked p = search always
  merge_after-Merges present run rmd policy_soft_failed p = search always
  merge_after-Merges present run rmd apply_queued p = search always
  merge_after-Merges present run rmd applying p = search always
  merge_after-Merges present run rmd applied p = elim (Bool-cases (is_empty run.target_addrs)) [
    | inl all ↦ rw all (merge-Merges rmd (λ auto. p (auto, all, inl refl)))
    | inr some_targets ↦ rw some_targets (search always)
  ]
  merge_after-Merges present run rmd discarded p = search always
  merge_after-Merges present run rmd errored p = search always
  merge_after-Merges present run rmd canceled p = search always
  merge_after-Merges present run rmd (other_status s) p = search always

  comment_for-Merges :
      (present : Text → Text → Text) (run : Run) (rmd : TfRunMetadata) (status : RunStatus)
      → Always (MergesOnly may) (comment_for present w cfg run rmd status)
  unfolding get_plan_output
  comment_for-Merges present run rmd pending = search always
  comment_for-Merges present run rmd plan_queued = search always
  comment_for-Merges present run rmd planning = search always
  comment_for-Merges present run rmd planned = search always
  comment_for-Merges present run rmd planned_and_finished = search (always, no_merge) depth 9
  comment_for-Merges present run rmd cost_estimating = search always
  comment_for-Merges present run rmd policy_checking = search always
  comment_for-Merges present run rmd policy_checked = search always
  comment_for-Merges present run rmd policy_soft_failed = search always
  comment_for-Merges present run rmd apply_queued = search always
  comment_for-Merges present run rmd applying = search always
  comment_for-Merges present run rmd applied = search always
  comment_for-Merges present run rmd discarded = search always
  comment_for-Merges present run rmd errored = search always
  comment_for-Merges present run rmd canceled = search always
  comment_for-Merges present run rmd (other_status s) = search always

  post-Merges :
      (present : Text → Text → Text) (run : Run) (rmd : TfRunMetadata)
      → (MayMerge run rmd run.status → may)
      → Always (MergesOnly may) (post_and_merge present w cfg retries run rmd)
  unfolding post_and_merge post_github_comment old_urls_of format_run_status_comment_body
  post-Merges present run rmd p =
      search
        (
          always,
          comment_for-Merges,
          no_merge,
          posts,
          merge_after-Merges present run rmd run.status p,
        )
        depth 14

module _ (w : World) (cfg : Config) (retries : ℕ) where
  -- GitLab merges a merge request only if auto-merge is on, the run had no targets, and it was applied
  -- or was an apply that finished with its plan.
  pub update_commit_status_for_run-Merges :
      (run : Run) (rmd : TfRunMetadata)
      → Always
          (MergesOnly (MayMerge run rmd run.status))
          (update_commit_status_for_run w cfg retries run rmd)
  unfolding update_commit_status_for_run
  update_commit_status_for_run-Merges run rmd =
      update_for-Merges w cfg retries (MayMerge run rmd run.status) run rmd run.status (λ p. p)

  -- GitHub merges a pull request only if auto-merge is on, the run had no targets, and it was applied
  -- or was an apply that finished with its plan.
  pub post_and_merge-Merges :
      (present : Text → Text → Text) (run : Run) (rmd : TfRunMetadata)
      → Always
          (MergesOnly (MayMerge run rmd run.status))
          (post_and_merge present w cfg retries run rmd)
  post_and_merge-Merges present run rmd =
      post-Merges w cfg retries (MayMerge run rmd run.status) present run rmd (λ p. p)
