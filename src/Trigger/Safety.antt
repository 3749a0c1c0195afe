-- ===== src/Trigger/Safety.antt =====
-- What an action may do to a workspace, whatever the services answer.
use tfbuddy.Prelude.{ℕ, ◌≡◌, refl, ◌≢◌, Bool, true, false, arith}
use tfbuddy.Text.{Text}
use tfbuddy.Types.{apply, plan, TfcWorkspace, DetailedMr, Workspace, ApiRunOptions, Run}
use tfbuddy.TfcClient
use tfbuddy.Trigger.{TfcTrigger, is_apply, is_plan}
use tfbuddy.Trigger.Runs.{
  change_lock, acquire_lock, launch, publish_run_to_stream, start_run, act_on,
  trigger_run_for_workspace,
}
use tfbuddy.Trigger.Made.{acquire_lock-Made, launch-Made, change_lock-Made, publish-Made, poll-Made}
use tfbuddy.Effects.{Call, World, Io, perform}
use tfbuddy.Effects.Kinds.{
  Kind, kind, locking, unlocking, tagging, untagging, uploading, running, queueing,
}
use tfbuddy.Effects.Laws.{Always, always}
use tfbuddy.Effects.Order.{AtMost, AtMost-skip, AtMost-last, AtMost-none, AtMost-if, AtMost-context}

-- The kinds that change neither the lock of a workspace nor its tags, nor let a worker change them: of
-- the actions, only a plan may be handed on.
abbrev pub LeavesLocks : Kind → Type 0
LeavesLocks locking = ⊥
LeavesLocks unlocking = ⊥
LeavesLocks tagging = ⊥
LeavesLocks untagging = ⊥
LeavesLocks (queueing action) = action ≡ plan
LeavesLocks _ = Unit

-- The kinds that neither send a configuration nor create a run.
abbrev pub StartsNothing : Kind → Type 0
StartsNothing uploading = ⊥
StartsNothing running = ⊥
StartsNothing _ = Unit

module _ (w : World) (t : TfcTrigger) (cfg_ws : TfcWorkspace) (mr : DetailedMr)
    (clone_dir : Text) where
  -- A plan changes no lock and no tag of any workspace.
  pub plan-LeavesLocks :
      t.cfg.action ≡ plan
      → Always (λ c. LeavesLocks (kind c)) (trigger_run_for_workspace w t cfg_ws mr clone_dir)
  unfolding trigger_run_for_workspace act_on start_run TfcClient.get_workspace_by_name
  plan-LeavesLocks e = simp e (search (always, launch-Made LeavesLocks) depth 9)

  -- Any action but plan and apply creates no run and sends no configuration.
  pub others-StartsNothing :
      t.cfg.action ≢ plan
      → t.cfg.action ≢ apply
      → Always (λ c. StartsNothing (kind c)) (trigger_run_for_workspace w t cfg_ws mr clone_dir)
  unfolding trigger_run_for_workspace act_on start_run TfcClient.get_workspace_by_name
  others-StartsNothing p q =
      let no_apply : is_apply t.cfg.action ≡ false = ground arith in
      let no_plan : is_plan t.cfg.action ≡ false = ground arith in
      simp (no_apply, no_plan) (search (always, change_lock-Made StartsNothing) depth 9)

abbrev pub is_running : Kind → Bool
is_running running = true
is_running _ = false

-- The call creates a run.
abbrev pub is_run_create : Call → Bool
is_run_create c = is_running (kind c)

abbrev IsNoRun : Kind → Type 0
IsNoRun k = is_running k ≡ false

abbrev NoRun : {A : Type 0} → Io A → Type 0
NoRun m = Always (λ c. is_run_create c ≡ false) m

module _ (w : World) (t : TfcTrigger) where
  create-AtMost : (c : Call) → AtMost is_run_create 1 (perform w.runs c)
  unfolding perform
  create-AtMost c h = ground arith

  poll-None : (n : ℕ) (id : Text) → NoRun (TfcClient.poll_while_pending w n id)
  poll-None = poll-Made IsNoRun w t refl

  get-None : (o n : Text) → NoRun (TfcClient.get_workspace_by_name w o n)
  unfolding TfcClient.get_workspace_by_name
  get-None o n = search always

  create-None :
      (opts : ApiRunOptions) (ws : Workspace)
      → NoRun (TfcClient.create_configuration_version w opts ws)
  unfolding TfcClient.create_configuration_version
  create-None opts ws = search (always, poll-None) depth 9

  create_run-AtMost :
      (opts : ApiRunOptions) → AtMost is_run_create 1 (TfcClient.create_run_from_source w opts)
  unfolding TfcClient.create_run_from_source
  create_run-AtMost opts =
      search (AtMost-skip, AtMost-last, create-AtMost, always, get-None, create-None) depth 9

module _ (w : World) (t : TfcTrigger) (cfg_ws : TfcWorkspace) (mr : DetailedMr)
    (clone_dir : Text) where
  publish-None : (run : Run) (d : Text) (n : ℕ) → NoRun (publish_run_to_stream w t run cfg_ws d n)
  publish-None run d n = publish-Made IsNoRun w t refl run cfg_ws d n refl

  acquire-None : (ws : Workspace) → NoRun (acquire_lock w t ws)
  acquire-None ws = acquire_lock-Made IsNoRun w t refl ws refl refl

  change-None : (ws : Workspace) → NoRun (change_lock w t cfg_ws ws mr)
  change-None ws = change_lock-Made IsNoRun w t refl cfg_ws ws mr refl refl refl refl refl

  launch-AtMost : (dir : Text) → AtMost is_run_create 1 (launch w t cfg_ws mr dir)
  unfolding launch
  launch-AtMost dir =
      search (AtMost-skip, AtMost-last, AtMost-context, create_run-AtMost w t, always, publish-None)
        depth 9

  start_run-AtMost :
      (ws : Workspace) → AtMost is_run_create 1 (start_run w t cfg_ws ws mr clone_dir)
  unfolding start_run
  start_run-AtMost ws =
      search (AtMost-skip, AtMost-none, AtMost-if, launch-AtMost, acquire-None, always) depth 9

  act_on-AtMost : (ws : Workspace) → AtMost is_run_create 1 (act_on w t cfg_ws ws mr clone_dir)
  unfolding act_on
  act_on-AtMost ws = search (AtMost-none, AtMost-if, start_run-AtMost, change-None, always) depth 9

  -- Triggering an action on a workspace creates at most one run, whatever the services answer.
  pub trigger_run-AtMost :
      AtMost is_run_create 1 (trigger_run_for_workspace w t cfg_ws mr clone_dir)
  unfolding trigger_run_for_workspace
  trigger_run-AtMost = search (AtMost-skip, act_on-AtMost, get-None w t, always) depth 9
