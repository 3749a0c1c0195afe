-- ===== src/TfcHooks/Laws.antt =====
-- What becomes of a polling task.
use tfbuddy.Prelude.{◌+◌, ◌≡◌, ◌⊎◌, Bool, true, false, [], ◌∷◌, ◌++◌}
use tfbuddy.Types.{PollingTask, Run}
use tfbuddy.TfcHooks.{is_running, settle}
use tfbuddy.Effects.{
  Call, World, Io, Res, on_result, pure, ◌>>◌, History, polling_delete, polling_update, get_time,
}

-- The task as it is stored for its next poll: with the status of the run and no mark, due ten seconds
-- behind the first of two readings of the clock, and stamped with the second.
abbrev pub requeued : World → PollingTask → Run → History → PollingTask
requeued w task run k = record task {
  last_status = run.status;
  processing = false;
  next_poll = w.clock k + 10;
  last_update = w.clock (k ++ get_time ∷ []);
}

-- The call that ends the handling of a task: that of a run that is under way is stored for its next
-- poll, in its own entry and at its own revision, and that of any other run is deleted.
abbrev pub Settles : World → PollingTask → Run → Call → Type 0
Settles w task run c =
    ((is_running run ≡ true)
      × ((k : History) × (c
            ≡ polling_update task.metadata.run_id (requeued w task run k) task.revision)))
    ⊎ ((is_running run ≡ false) × (c ≡ polling_delete task.metadata.run_id))

module _ (w : World) where
  abbrev settle_after : PollingTask → Run → Res (Unit {0}) → Io Bool
  settle_after task run = on_result (λ e. pure false) (λ _. settle w task run >> pure true)
