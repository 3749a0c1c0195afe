-- ===== src/CiJobs/Monitor.antt =====
-- pkg/tfc_utils/ci_job_run_status.go: a CI job that follows the runs of a commit. The clients of GitLab
-- and Terraform Cloud are called through their interfaces; that it sleeps before each read is left out.
use tfbuddy.Prelude.{
  ℕ, zero, suc, Bool, false, Option, none, some, List, [], ◌∷◌, ◌++◌, if◌then◌else◌, any, is_empty,
  not, ◌||◌,
}
use tfbuddy.Text.{Text, lit, text_eq, has_prefix, drop, split, itoa, atoi}
use tfbuddy.Effects.{Res, ok, err}
use tfbuddy.Requests.{Req, ◌>>=◌, ◌>>◌, pure, fail, query, receive, ignored}
use tfbuddy.CiJobs.{nil_pointer}
use tfbuddy.Vcs.OldRuns.{last_part}

-- What the code reads of a run; the numbers of its plan are the additions, changes and destructions.
pub record PlannedRun : Type 0 where
  pub status : Text
  pub plan : Option (ℕ × (ℕ × ℕ))

pub record CiStatus : Type 0 where
  pub name : Text
  pub status : Text
  pub description : Text
  pub target_url : Text

-- The environment of the job.
pub record CiEnv : Type 0 where
  pub ci_project_id : Text
  pub ci_commit_sha : Text
  pub ci_merge_request_iid : Text

pub data MonitorCall : Type 0 where
  commit_statuses : Text → Text → MonitorCall
  get_run : Text → MonitorCall
  comment : ℕ → Text → Text → MonitorCall

pub record MonitorApi : Type 0 where
  pub statuses : List MonitorCall → MonitorCall → List CiStatus
  pub runs : List MonitorCall → MonitorCall → Res PlannedRun
  pub done : List MonitorCall → MonitorCall → Res (Unit {0})

-- A wait for a run that was started: its status, its workspace and the id of the run.
pub record Wait : Type 0 where
  pub commit_status : CiStatus
  pub ws_name : Text
  pub run_id : Text

abbrev pub tfc_run_status_prefix : Text
tfc_run_status_prefix = lit "Terraform Cloud/"

abbrev pub tfc_no_change : Text
tfc_no_change = lit "Run not triggered: Terraform working directories did not change."

unfoldable pub mr_comment : Text → Text
mr_comment body = lit "\n### Terraform Cloud\n" ++ body ++ lit "\n"

unfoldable pub mr_run_details : Text → Text → Text → Text → Text
mr_run_details workspace status url description =
    lit "\n#### Workspace: "
    ++ workspace
    ++ lit "\n\n**Status**: "
    ++ status
    ++ lit "\n\n["
    ++ url
    ++ lit "]("
    ++ url
    ++ lit ")\n\n"
    ++ description
    ++ lit "\n---\n"

abbrev pub failed_plan_summary : Text
failed_plan_summary = lit "\n*Click Terraform Cloud URL to see detailed plan output*\n"

unfoldable pub success_plan_summary : ℕ → ℕ → ℕ → Text
success_plan_summary additions changes destructions =
    lit "\n  * Additions: "
    ++ itoa additions
    ++ lit "\n  * Changes: "
    ++ itoa changes
    ++ lit "\n  * Destructions: "
    ++ itoa destructions
    ++ lit
        "\n\n*Click Terraform Cloud URL to see detailed plan output*\n\n**Merge MR to apply changes**\n"

abbrev pub running_now : List Text
running_now =
    lit "apply_queued"
    ∷ lit "applying"
    ∷ lit "cost_estimating"
    ∷ lit "plan_queued"
    ∷ lit "policy_checking"
    ∷ lit "planning"
    ∷ lit "pending"
    ∷ []

unfoldable pub run_is_running : Option PlannedRun → Bool
run_is_running none = false
run_is_running (some run) = any (text_eq run.status) running_now

-- The description of a run: `none` is the panic of a run without a plan.
unfoldable pub description_of : PlannedRun → Option Text
description_of run =
    if text_eq run.status (lit "errored") then some failed_plan_summary else elim run.plan [
      | none ↦ none
      | some (additions, (changes, destructions)) ↦
          some (success_plan_summary additions changes destructions)
    ]

abbrev pub or_zero : Option ℕ → ℕ
or_zero none = 0
or_zero (some n) = n

abbrev pub run_or_none : Res PlannedRun → Option PlannedRun
run_or_none (ok run) = some run
run_or_none (err e) = none

module _ (env : CiEnv) (api : MonitorApi) where
  -- An id that is no number is logged and counts as 0.
  unfoldable pub post_comment_body : Text → Req MonitorCall (Unit {0})
  post_comment_body body =
      if is_empty body
      then pure tt
      else ignored (
          query api.done
            (comment (or_zero (atoi env.ci_merge_request_iid)) env.ci_project_id (mr_comment body)))

  unfoldable pub post_description :
      CiStatus → Text → PlannedRun → Option Text → Req MonitorCall (Unit {0})
  post_description commit_status ws_name run none = fail nil_pointer
  post_description commit_status ws_name run (some description) =
      post_comment_body (mr_run_details ws_name run.status commit_status.target_url description)

  -- Nothing is posted of a run that cannot be read.
  unfoldable pub post_summary_of : CiStatus → Text → Option PlannedRun → Req MonitorCall (Unit {0})
  post_summary_of commit_status ws_name none = pure tt
  post_summary_of commit_status ws_name (some run) =
      post_description commit_status ws_name run (description_of run)

  unfoldable pub post_run_summary : CiStatus → Text → Text → Req MonitorCall (Unit {0})
  post_run_summary commit_status ws_name run_id = receive api.runs (get_run run_id) >>= λ reply.
      post_summary_of commit_status ws_name (run_or_none reply)

  -- What is logged reads the run, also where it could not be read.
  unfoldable pub print_run : Option PlannedRun → Req MonitorCall (Unit {0})
  print_run none = fail nil_pointer
  print_run (some run) = pure tt

  -- The rounds that are left of the loop.
  unfoldable pub wait_rounds : ℕ → Wait → Req MonitorCall (Unit {0})
  wait_rounds zero wait = pure tt
  wait_rounds (suc rounds) wait = receive api.runs (get_run wait.run_id) >>= λ reply.
      print_run (run_or_none reply)
      >> (if run_is_running (run_or_none reply)
          then wait_rounds rounds wait
          else post_run_summary wait.commit_status wait.ws_name wait.run_id)

  unfoldable pub wait_for_run_completion_or_failure : Wait → Req MonitorCall (Unit {0})
  wait_for_run_completion_or_failure = wait_rounds 360

  -- What is posted of the pending runs, and the waits that are started for them.
  unfoldable pub pending_details : CiStatus → Text → Text
  pending_details s workspace = mr_run_details workspace s.status s.target_url []

  unfoldable pub is_followed : CiStatus → Bool
  is_followed s =
      if has_prefix s.name tfc_run_status_prefix
      then not (text_eq s.description tfc_no_change)
      else false

  -- The name of the workspace, and the id of the run.
  abbrev pub workspace_of : CiStatus → Text
  workspace_of s = drop 16 s.name

  abbrev pub wait_of : CiStatus → Wait
  wait_of s = record {
    commit_status = s;
    ws_name = workspace_of s;
    run_id = last_part (split b'/' s.target_url);
  }

  -- A round of the loop over the statuses.
  unfoldable pub follow : CiStatus → Req MonitorCall (Text × List Wait)
  follow s =
      if is_followed s
      then (if text_eq s.status (lit "pending")
          then pure (pending_details s (workspace_of s), wait_of s ∷ [])
          else (if text_eq s.status (lit "success") || text_eq s.status (lit "failed")
              then post_run_summary s (workspace_of s) (wait_of s).run_id >> pure ([], [])
              else pure ([], [])))
      else pure ([], [])

  unfoldable pub follow_all : List CiStatus → Req MonitorCall (Text × List Wait)
  follow_all [] = pure ([], [])
  follow_all (s ∷ statuses) = follow s >>= λ (body, waits).
      follow_all statuses >>= λ (bodies, more). pure (body ++ bodies, waits ++ more)

  -- The waits run beside one another, each as `wait_for_run_completion_or_failure`: the result is which
  -- were started.
  unfoldable pub monitor_run_status : Req MonitorCall (List Wait)
  monitor_run_status =
      receive api.statuses (commit_statuses env.ci_project_id env.ci_commit_sha) >>= λ statuses.
      follow_all statuses >>= λ (body, waits). post_comment_body body >> pure waits
