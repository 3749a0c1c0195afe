-- ===== src/TfcHooks.antt =====
-- pkg/tfc_hooks: the notifications of Terraform Cloud, and the polling of runs that have none.
pub mod Laws
use tfbuddy.Prelude.{Bool, true, false, List, [], ◌∷◌, if◌then◌else◌, any, is_empty}
use tfbuddy.Text.{Text, lit, text_eq}
use tfbuddy.Errors.{plain}
use tfbuddy.Types.{
  RunStatus, pending, plan_queued, planning, planned, planned_and_finished, cost_estimating,
  policy_checking, policy_checked, policy_soft_failed, apply_queued, applying, applied, discarded,
  errored, canceled, other_status, Run, TfRunEvent, PollingTask,
}
use tfbuddy.TfcClient.{get_run}
use tfbuddy.Runstream.{publish_tf_run_event, reschedule, completed}
use tfbuddy.Effects.{World, Io, ◌>>=◌, ◌>>◌, pure, fail, attempt, on_result, ignore}

-- The text of a status.
abbrev pub status_text : RunStatus → Text
status_text pending = lit "pending"
status_text plan_queued = lit "plan_queued"
status_text planning = lit "planning"
status_text planned = lit "planned"
status_text planned_and_finished = lit "planned_and_finished"
status_text cost_estimating = lit "cost_estimating"
status_text policy_checking = lit "policy_checking"
status_text policy_checked = lit "policy_checked"
status_text policy_soft_failed = lit "policy_soft_failed"
status_text apply_queued = lit "apply_queued"
status_text applying = lit "applying"
status_text applied = lit "applied"
status_text discarded = lit "discarded"
status_text errored = lit "errored"
status_text canceled = lit "canceled"
status_text (other_status s) = s

abbrev pub running_statuses : List Text
running_statuses =
    lit "apply_queued"
    ∷ lit "applying"
    ∷ lit "cost_estimating"
    ∷ lit "plan_queued"
    ∷ lit "policy_checking"
    ∷ lit "planning"
    ∷ lit "pending"
    ∷ []

unfoldable pub is_running : Run → Bool
is_running run = any (text_eq (status_text run.status)) running_statuses

-- What `processNotification` reads of a payload: of each notification its status.
pub record NotificationPayload : Type 0 where
  pub run_id : Text
  pub workspace_name : Text
  pub organization_name : Text
  pub notifications : List RunStatus

module _ (w : World) where
  abbrev pub event_of : Run → TfRunEvent
  event_of run = record {
    run_id = run.id;
    organization = run.organization_name;
    workspace = run.workspace_name;
    new_status = run.status;
  }

  -- The status is published only when it has changed.
  unfoldable pub publish_change : PollingTask → Run → Io (Unit {0})
  publish_change task run =
      if text_eq (status_text run.status) (status_text task.last_status)
      then pure tt
      else publish_tf_run_event w (event_of run)

  -- The task is polled again, or is done. An error is only logged.
  unfoldable pub settle : PollingTask → Run → Io (Unit {0})
  settle task run =
      if is_running run
      then ignore (reschedule w (record task { last_status = run.status }))
      else ignore (completed w task)

  -- Whether the message is acknowledged.
  unfoldable pub polling_stream_callback : PollingTask → Io Bool
  polling_stream_callback task =
      attempt (get_run w task.metadata.run_id)
      >>= on_result (λ e. pure false)
          (λ run.
            attempt (publish_change task run)
            >>= on_result (λ e. pure false) (λ _. settle task run >> pure true))

  -- The index into the notifications is not checked: a payload without one is a panic.
  abbrev pub first_status : List RunStatus → Io RunStatus
  first_status [] = fail (plain (lit "runtime error: index out of range [0] with length 0"))
  first_status (status ∷ _) = pure status

  -- The run is read for the log only. The error of the publication is counted only.
  unfoldable pub process_notification : NotificationPayload → Io (Unit {0})
  process_notification n =
      if is_empty n.run_id
      then pure tt
      else (ignore (get_run w n.run_id)
          >> (first_status n.notifications >>= λ status. ignore (
              publish_tf_run_event w (record {
                run_id = n.run_id;
                organization = n.organization_name;
                workspace = n.workspace_name;
                new_status = status;
              }))))
