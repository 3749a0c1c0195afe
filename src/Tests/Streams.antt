-- ===== src/Tests/Streams.antt =====
-- Examples of the events, of the clean-up, of the workers and of the polling tasks.
use tfbuddy.Prelude.{◌≤◌, ◌≡◌, refl, true, false, List, [], ◌∷◌, All, tally, arith}
use tfbuddy.Text.{Text, lit, itoa}
use tfbuddy.Errors.{Error, plain, wrap}
use tfbuddy.Types.{apply, plan}
use tfbuddy.Locks.{tf_prefix, tag_name}
use tfbuddy.Runstream.{dispatch_task}
use tfbuddy.Runstream.Laws.{MarksTask, is_publish, dispatch_task-Since}
use tfbuddy.Trigger.Events.{trigger_tfc_events, enqueue}
use tfbuddy.Trigger.Dispatching.{ErroredWorkspace, dispatch_workspaces}
use tfbuddy.Trigger.Dispatch.{Dispatched, dispatch_workspaces-Dispatched}
use tfbuddy.Trigger.Safety.{LeavesLocks, is_run_create}
use tfbuddy.Trigger.EventSafety.{trigger_tfc_events-LeavesLocks}
use tfbuddy.Trigger.Cleanup.{Releases, trigger_cleanup_event, trigger_cleanup_event-Releases}
use tfbuddy.Trigger.Worker.{handle_msg}
use tfbuddy.Trigger.Worker.Laws.{handle_msg-once, get_id_injective}
use tfbuddy.Effects.{ok}
use tfbuddy.Effects.Kinds.{kind}
use tfbuddy.Effects.Laws.{Always}
use tfbuddy.Requests.Since.{Since}
use tfbuddy.Tests.Samples.{
  sample_config, sample_world, sample_glob, sample_decoder, sample_trigger, sample_message,
  sample_mr, sample_task, dev, top,
}

own_tag : Text
own_tag = tag_name tf_prefix (itoa 5)

dispatched_example :
    (es : List ErroredWorkspace) × (xs : List Text) × ((dispatch_workspaces sample_config
        (dev ∷ top ∷ [])
        (lit "top" ∷ [])
        (enqueue sample_glob sample_decoder sample_world (sample_trigger plan true))
        []).0
      ≡ ok (record { errored = es; executed = xs }))
    × Dispatched sample_config
        (lit "top" ∷ [])
        (enqueue sample_glob sample_decoder sample_world (sample_trigger plan true))
        (dev ∷ top ∷ [])
        []
        es
        xs
        (dispatch_workspaces sample_config
          (dev ∷ top ∷ [])
          (lit "top" ∷ [])
          (enqueue sample_glob sample_decoder sample_world (sample_trigger plan true))
          []).1
dispatched_example =
    dispatch_workspaces-Dispatched sample_config (lit "top" ∷ [])
      (enqueue sample_glob sample_decoder sample_world (sample_trigger plan true)) (dev ∷ top ∷ [])
      []

plan_event_example :
    Always
      (λ c. LeavesLocks (kind c))
      (trigger_tfc_events sample_glob sample_decoder sample_world (sample_trigger plan true))
plan_event_example =
    trigger_tfc_events-LeavesLocks sample_glob sample_decoder sample_world
      (sample_trigger plan true) refl

cleanup_example :
    All
      (Releases (tag_name tf_prefix (itoa sample_mr.internal_id)))
      (trigger_cleanup_event sample_glob sample_decoder sample_world
        (sample_trigger apply false)
        []).1
cleanup_example =
    trigger_cleanup_event-Releases sample_glob sample_decoder sample_world
      (sample_trigger apply false) [] sample_mr refl

once_example :
    ((handle_msg sample_glob sample_decoder sample_world sample_config
        (lit "gitlab" ∷ [])
        sample_message
        []).0
      ≡ ok tt)
    × (tally is_run_create
          (handle_msg sample_glob sample_decoder sample_world sample_config
            (lit "gitlab" ∷ [])
            sample_message
            []).1
        ≤ 1)
once_example =
    handle_msg-once sample_glob sample_decoder sample_world sample_config (lit "gitlab" ∷ [])
      sample_message []

clone_error : Error
clone_error =
    wrap (lit "could not clone repo: ") (wrap (lit "could not create tmp directory. ") (plain []))

key_example : (lit "dev" ≡ lit "dev") × (lit "acme" ≡ lit "acme")
unfolding lit
key_example =
    get_id_injective (λ m. []) sample_message sample_message refl refl (ground arith) (ground arith)
      refl

marked_example :
    Since
      (MarksTask sample_world sample_task)
      (λ c. is_publish c ≡ true)
      []
      (dispatch_task sample_world sample_task []).1
marked_example = dispatch_task-Since sample_world sample_task []
