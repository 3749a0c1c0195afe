-- ===== src/Runstream.antt =====
-- pkg/runstream: the metadata of runs in a key-value store, the events of runs, and the polling tasks
-- with their dispatcher. The values are stored as they are: their JSON form is not modelled.
pub mod Laws
use tfbuddy.Prelude.{
  ℕ, zero, suc, ◌+◌, Bool, true, false, Option, none, some, if◌then◌else◌, ltb, leb,
}
use tfbuddy.Text.{Text, lit}
use tfbuddy.Errors.{plain}
use tfbuddy.Types.{TfRunMetadata, TfRunEvent, PollingTask, other_status}
use tfbuddy.Effects.{
  World, Io, ok, err, ◌>>=◌, pure, fail, perform, attempt, on_result, now, metadata_create,
  metadata_get, polling_create, polling_update, polling_delete, publish_run_event,
  publish_polling_task, polling_keys, polling_get, ignore, for_each,
}

-- `TaskPollingDelayMinimum` and `TaskPollingDelayDefault`, in seconds.
abbrev pub task_polling_delay_minimum : ℕ
task_polling_delay_minimum = 1

abbrev pub task_polling_delay_default : ℕ
task_polling_delay_default = 10

module _ (w : World) where
  unfoldable pub add_run_meta : TfRunMetadata → Io (Unit {0})
  add_run_meta rmd = do _ ← perform w.numbers (metadata_create rmd.run_id rmd); pure tt

  unfoldable pub get_run_meta : Text → Io TfRunMetadata
  get_run_meta run_id = perform w.metadata (metadata_get run_id)

  unfoldable pub new_tf_run_polling_task : TfRunMetadata → ℕ → Io PollingTask
  new_tf_run_polling_task meta delay = do
    start ← now w
    next ← (if leb task_polling_delay_minimum delay then now w else pure start)
    updated ← now w
    pure (record {
      metadata = meta;
      last_status = other_status (lit "new");
      next_poll =
          if leb task_polling_delay_minimum delay
          then next + delay
          else start + task_polling_delay_default;
      processing = false;
      last_update = updated;
      revision = 0;
    })

  -- `Schedule`: the task is created in the store, with the revision that it answers.
  unfoldable pub schedule : PollingTask → Io PollingTask
  schedule task = do
    rev ← perform w.numbers (polling_create task.metadata.run_id task)
    pure (record task { revision = rev })

  unfoldable pub update : PollingTask → Io PollingTask
  update task = do
    time ← now w
    let stamped = record task { last_update = time }
    rev ← perform w.numbers (polling_update task.metadata.run_id stamped task.revision)
    pure (record stamped { revision = rev })

  unfoldable pub reschedule : PollingTask → Io PollingTask
  unfolding update
  reschedule task = do
    time ← now w
    update (record task { next_poll = time + task_polling_delay_default; processing = false })

  unfoldable pub completed : PollingTask → Io (Unit {0})
  completed task = perform w.units (polling_delete task.metadata.run_id)

  -- `backoff.Retry` with at most `retries` retries; a failure of `m` is never permanent here.
  unfoldable pub retry : {A : Type 0} → ℕ → Io A → Io A
  retry zero m = m
  retry (suc retries) m = let again = retry retries m in attempt m >>= on_result (λ e. again) pure

  unfoldable pub wait_for_run_metadata : Text → Io TfRunMetadata
  wait_for_run_metadata run_id =
      attempt (retry 3 (get_run_meta run_id))
      >>= on_result (λ e. fail (plain (lit "Run Metadata not found, giving up"))) pure

  -- The event goes to the subject of the provider that the run's metadata names.
  unfoldable pub publish_tf_run_event : TfRunEvent → Io (Unit {0})
  publish_tf_run_event re = do
    rmd ← wait_for_run_metadata re.run_id
    perform w.units (publish_run_event rmd.vcs_provider re)

  -- A task that is due is marked as being processed, and handed to the stream only if the mark is
  -- stored.
  unfoldable pub dispatch_task : PollingTask → Io (Unit {0})
  dispatch_task task =
      if task.processing
      then pure tt
      else now w >>= λ time.
          if ltb task.next_poll time
          then (attempt (update (record task { processing = true })) >>= λ marked. elim marked [
            | err e ↦ pure tt
            | ok t ↦ ignore (perform w.units (publish_polling_task t))
          ])
          else pure tt

  -- One key of a round of the dispatcher. An entry that cannot be decoded is deleted.
  unfoldable pub dispatch_key : Text → Io (Unit {0})
  dispatch_key key = attempt (perform w.tasks (polling_get key)) >>= λ entry. elim entry [
    | err e ↦ pure tt
    | ok none ↦ ignore (perform w.units (polling_delete key))
    | ok (some task) ↦ dispatch_task task
  ]

  -- One round of the endless loop of `startPollingTaskDispatcher`, after its sleep.
  unfoldable pub dispatch_round : Io (Unit {0})
  dispatch_round = attempt (perform w.text_lists polling_keys) >>= λ keys. elim keys [
    | err e ↦ pure tt
    | ok ks ↦ for_each dispatch_key ks
  ]

-- What becomes of a message of a stream.
pub data Verdict : Type 0 where
  acked nacked terminated : Verdict

-- The callback of `SubscribeTFRunEvents` on an event, `none` if it cannot be decoded; `in_progress`
-- is whether the message could be marked as in progress.
module _ (w : World) where
  unfoldable pub on_run_event :
      (TfRunEvent → TfRunMetadata → Io Bool) → Option TfRunEvent → Bool → Io Verdict
  on_run_event callback none in_progress = pure terminated
  on_run_event callback (some re) false = pure nacked
  on_run_event callback (some re) true = attempt (wait_for_run_metadata w re.run_id) >>= λ meta.
      elim meta [
        | err e ↦ pure terminated
        | ok rmd ↦ callback re rmd >>= λ done. pure (if done then acked else nacked)
      ]

-- The callback of `SubscribeTFRunPollingTasks`.
unfoldable pub on_polling_task : (PollingTask → Io Bool) → Option PollingTask → Bool → Io Verdict
on_polling_task callback none in_progress = pure terminated
on_polling_task callback (some task) false = pure nacked
on_polling_task callback (some task) true =
    callback task >>= λ done. pure (if done then acked else nacked)
