-- ===== src/Trigger/Made.antt =====
-- Which kinds of calls each part of a triggered action makes.
use tfbuddy.Prelude.{ℕ, zero, suc, arith}
use tfbuddy.Text.{Text}
use tfbuddy.Types.{TfcWorkspace, DetailedMr, Workspace, Run, ApiRunOptions}
use tfbuddy.TfcClient
use tfbuddy.Runstream.{add_run_meta, new_tf_run_polling_task, schedule}
use tfbuddy.Trigger.{TfcTrigger}
use tfbuddy.Trigger.Runs.{
  get_locking_mr, lock_unlock_workspace, change_lock, clear_stale_lock, acquire_lock,
  publish_run_to_stream, launch,
}
use tfbuddy.Effects.{Call, World, all_steps}
use tfbuddy.Effects.Kinds.{
  Kind, kind, reading, posting, locking, unlocking, tagging, untagging, uploading, running, storing,
}
use tfbuddy.Effects.Laws.{Always, always}

-- A property of kinds, of every call of a program.
module _ (P : Kind → Type 0) (w : World) (t : TfcTrigger) (reads : P reading) where
  abbrev pub Made : Call → Type 0
  Made c = P (kind c)

  pub get_locking_mr-Made : (ws : Text) → Always Made (get_locking_mr w t ws)
  unfolding get_locking_mr TfcClient.get_tags_by_query all_steps
  get_locking_mr-Made ws h = ground arith

  pub remove_tags_by_query-Made :
      (ws q : Text) → P untagging → Always Made (TfcClient.remove_tags_by_query w ws q)
  unfolding TfcClient.remove_tags_by_query TfcClient.get_tags_by_query all_steps
  remove_tags_by_query-Made ws q p h = ground arith

  pub clear_stale_lock-Made :
      (ws mr : Text) → P untagging → Always Made (clear_stale_lock w t ws mr)
  unfolding clear_stale_lock TfcClient.remove_tags_by_query TfcClient.get_tags_by_query all_steps
  clear_stale_lock-Made ws mr p h = ground arith

  pub acquire_lock-Made :
      (ws : Workspace) → P tagging → P untagging → Always Made (acquire_lock w t ws)
  unfolding acquire_lock TfcClient.add_tags
  acquire_lock-Made ws p q = search (always, get_locking_mr-Made, clear_stale_lock-Made)

  pub poll-Made : (n : ℕ) (id : Text) → Always Made (TfcClient.poll_while_pending w n id)
  unfolding TfcClient.poll_while_pending
  poll-Made zero id = search always
  poll-Made (suc n) id = search (always, poll-Made n id)

  pub create_run-Made :
      (opts : ApiRunOptions)
      → P uploading
      → P running
      → Always Made (TfcClient.create_run_from_source w opts)
  unfolding TfcClient.create_run_from_source TfcClient.create_configuration_version
      TfcClient.get_workspace_by_name
  create_run-Made opts p q = search (always, poll-Made) depth 9

  pub publish-Made :
      (run : Run) (cfg_ws : TfcWorkspace) (d : Text) (n : ℕ)
      → P storing
      → Always Made (publish_run_to_stream w t run cfg_ws d n)
  unfolding publish_run_to_stream add_run_meta new_tf_run_polling_task schedule
  publish-Made run cfg_ws d n p = search always depth 9

  pub launch-Made :
      (cfg_ws : TfcWorkspace) (mr : DetailedMr) (dir : Text)
      → P posting
      → P uploading
      → P running
      → P storing
      → Always Made (launch w t cfg_ws mr dir)
  unfolding launch
  launch-Made cfg_ws mr dir p q r s = search (always, create_run-Made, publish-Made) depth 9

  pub change_lock-Made :
      (cfg_ws : TfcWorkspace) (ws : Workspace) (mr : DetailedMr)
      → P posting
      → P locking
      → P unlocking
      → P tagging
      → P untagging
      → Always Made (change_lock w t cfg_ws ws mr)
  unfolding change_lock lock_unlock_workspace TfcClient.lock_unlock_workspace TfcClient.add_tags
      TfcClient.remove_tags_by_query TfcClient.get_tags_by_query all_steps
  change_lock-Made cfg_ws ws mr a b c d e h = ground arith
