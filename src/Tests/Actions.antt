-- ===== src/Tests/Actions.antt =====
-- Examples of the actions on a workspace.
use tfbuddy.Prelude.{◌≡◌, refl, ◌↔◌, true, false, [], Any}
use tfbuddy.Text.{lit, itoa, text_eq, trim_space, is_space, atoi, is_digit, drop, has_prefix}
use tfbuddy.Types.{apply}
use tfbuddy.Locks.{find_locking_mr, find_submatch}
use tfbuddy.TfcClient
use tfbuddy.Trigger.Runs.{
  trigger_run_for_workspace, act_on, acquire_lock, get_locking_mr, clear_stale_lock,
  publish_run_to_stream,
}
use tfbuddy.Trigger.Safety.{is_run_create, trigger_run-AtMost}
use tfbuddy.Trigger.LockFirst.{Locked, IsFree, acquire_lock-IsFree, act_on-Since}
use tfbuddy.Trigger.AutoMerge.{StoresAutoMerge, publish_run_to_stream-AutoMerge}
use tfbuddy.Effects.{all_steps}
use tfbuddy.Effects.Order.{AtMost}
use tfbuddy.Requests.Since.{Since}
use tfbuddy.Tests.Samples.{sample_world, sample_trigger, dev, sample_mr, remote, sample_run}

one_run_example : AtMost is_run_create 1 (
    trigger_run_for_workspace sample_world
      (sample_trigger apply false)
      dev
      sample_mr
      (lit "/tmp/clone"))
one_run_example =
    trigger_run-AtMost sample_world (sample_trigger apply false) dev sample_mr (lit "/tmp/clone")

-- The tag of MR 50 stands first, and MR 50 is merged.
acquired_example : IsFree sample_world (sample_trigger apply false) (remote false) []
unfolding acquire_lock get_locking_mr clear_stale_lock TfcClient.add_tags
    TfcClient.get_tags_by_query TfcClient.remove_tags_by_query all_steps find_locking_mr
    find_submatch lit text_eq trim_space is_space itoa atoi is_digit drop has_prefix
acquired_example =
    acquire_lock-IsFree sample_world (sample_trigger apply false) (remote false) [] tt refl

lock_first_example :
    Since
      (Locked sample_world (sample_trigger apply false) (remote false))
      (λ c. is_run_create c ≡ true)
      []
      (act_on sample_world
        (sample_trigger apply false)
        dev
        (remote false)
        sample_mr
        (lit "/tmp/clone")
        []).1
lock_first_example =
    act_on-Since sample_world (sample_trigger apply false) dev (remote false) sample_mr
      (lit "/tmp/clone") [] refl

merging_example :
    Any StoresAutoMerge
      (publish_run_to_stream sample_world
        (sample_trigger apply false)
        sample_run
        dev
        (lit "disc")
        7
        []).1
    ↔ ((dev.auto_merge ≡ true) × (true ≡ true) × (dev.mode ≡ lit "apply-before-merge"))
merging_example =
    publish_run_to_stream-AutoMerge sample_world (sample_trigger apply false) sample_run dev
      (lit "disc") 7 []
