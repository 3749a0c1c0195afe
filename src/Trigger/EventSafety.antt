-- ===== src/Trigger/EventSafety.antt =====
-- What the handling of an event may call.
use tfbuddy.Prelude.{
  ◌≡◌, refl, Bool, true, false, List, [], ◌∷◌, if◌then◌else◌, arith, Option, none, some,
}
use tfbuddy.Text.{Text}
use tfbuddy.Config.{Config}
use tfbuddy.Types.{TfcWorkspace, DetailedMr, plan}
use tfbuddy.Project.{Glob, Decoder, config_from, get_project_config_file}
use tfbuddy.Trigger.{TfcTrigger}
use tfbuddy.Trigger.Runs.{trigger_run_for_workspace}
use tfbuddy.Trigger.Events.{
  get_triggered_workspaces, get_triggered_workspaces_for_request,
  get_modified_workspaces_on_target_branch, blocked_workspaces, clone_git_repo, post_update,
  run_inline, enqueue, run_triggered, report_no_changes, trigger_tfc_events, only_provided,
}
use tfbuddy.Trigger.Dispatching.{dispatch_workspaces, no_workspaces}
use tfbuddy.Trigger.Dispatch.{dispatch_from-Always}
use tfbuddy.Trigger.Safety.{LeavesLocks, plan-LeavesLocks}
use tfbuddy.Effects.{Call, World, Io}
use tfbuddy.Effects.Kinds.{Kind, kind, reading, posting, storing, queueing}
use tfbuddy.Effects.Laws.{Always, always}

module _ (P : Kind → Type 0) (glob : Glob) (decoder : Decoder) (w : World) (t : TfcTrigger)
    (reads : P reading) where
  abbrev Made : Call → Type 0
  Made c = P (kind c)

  config_from-Made :
      (cfg : Config) (project : Text) (branches : List Text)
      → Always Made (config_from decoder w cfg project branches)
  unfolding config_from
  config_from-Made cfg project [] = search always
  config_from-Made cfg project (b ∷ bs) = search (always, config_from-Made cfg project bs) depth 9

  only-Made : (o : Option TfcWorkspace) → Always Made (only_provided glob decoder w t o)
  only-Made none = search always
  only-Made (some ws) = search always

  get_triggered-Made :
      (files : List Text) → Always Made (get_triggered_workspaces glob decoder w t files)
  unfolding get_triggered_workspaces get_project_config_file
  get_triggered-Made files = search (always, config_from-Made, only-Made) depth 9

  pub for_request-Made :
      (mr : DetailedMr) → Always Made (get_triggered_workspaces_for_request glob decoder w t mr)
  unfolding get_triggered_workspaces_for_request
  for_request-Made mr = search (always, get_triggered-Made)

  modified-Made :
      (mr : DetailedMr) (wss : List TfcWorkspace)
      → Always Made (get_modified_workspaces_on_target_branch glob decoder w t mr wss)
  unfolding get_modified_workspaces_on_target_branch
  modified-Made mr wss = search always depth 9

  pub clone-Made : (mr : DetailedMr) → Always Made (clone_git_repo glob decoder w t mr)
  unfolding clone_git_repo
  clone-Made mr = search always depth 9

  module _ (posts : P posting) where
    blocked-Made :
        (mr : DetailedMr) (wss : List TfcWorkspace)
        → Always Made (blocked_workspaces glob decoder w t mr wss)
    unfolding blocked_workspaces post_update
    blocked-Made mr wss = search (always, modified-Made) depth 9

    -- What is dispatched, inline or on the stream.
    abbrev dispatched : DetailedMr → Text → TfcWorkspace → Io (Unit {0})
    dispatched mr dir =
        if t.has_workspace_stream
        then enqueue glob decoder w t
        else run_inline glob decoder w t mr dir

    module _
        (each : (mr : DetailedMr) (dir : Text) (ws : TfcWorkspace)
          → Always Made (dispatched mr dir ws)) where
      dispatch-Made :
          (mr : DetailedMr) (wss : List TfcWorkspace) (dir : Text) (blocked : List Text)
          → Always Made (dispatch_workspaces t.app_cfg wss blocked (dispatched mr dir))
      dispatch-Made mr wss dir blocked =
          dispatch_from-Always t.app_cfg blocked _ Made (λ ws may. each mr dir ws) wss no_workspaces

      run_triggered-Made :
          (mr : DetailedMr) (wss : List TfcWorkspace)
          → Always Made (run_triggered glob decoder w t mr wss)
      unfolding run_triggered
      run_triggered-Made mr wss =
          search (always, clone-Made, blocked-Made, dispatch-Made mr wss) depth 12

      trigger_tfc_events-Made : Always Made (trigger_tfc_events glob decoder w t)
      unfolding trigger_tfc_events report_no_changes post_update
      trigger_tfc_events-Made = search (always, for_request-Made, run_triggered-Made) depth 12

-- The kinds that touch no workspace, and hand on no action to a worker that does.
abbrev pub TouchesNothing : Kind → Type 0
TouchesNothing reading = Unit
TouchesNothing posting = Unit
TouchesNothing storing = Unit
TouchesNothing _ = ⊥

module _ (glob : Glob) (decoder : Decoder) (w : World) (t : TfcTrigger) where
  inline-Made :
      (P : Kind → Type 0) (mr : DetailedMr) (dir : Text) (ws : TfcWorkspace)
      → Always (λ c. P (kind c)) (trigger_run_for_workspace w t ws mr dir)
      → Always (λ c. P (kind c)) (run_inline glob decoder w t mr dir ws)
  unfolding run_inline
  inline-Made P mr dir ws each = search (always, each)

  enqueue-Made :
      (P : Kind → Type 0) (ws : TfcWorkspace)
      → P (queueing t.cfg.action)
      → Always (λ c. P (kind c)) (enqueue glob decoder w t ws)
  unfolding enqueue
  enqueue-Made P ws queues = search always

  chosen-Made :
      (b : Bool) (P : Kind → Type 0) (mr : DetailedMr) (dir : Text)
      → P (queueing t.cfg.action)
      → (b ≡ false
          → (ws : TfcWorkspace)
          → Always (λ c. P (kind c)) (trigger_run_for_workspace w t ws mr dir))
      → (ws : TfcWorkspace)
      → Always
          (λ c. P (kind c))
          ((if b then enqueue glob decoder w t else run_inline glob decoder w t mr dir) ws)
  chosen-Made true P mr dir queues each ws = enqueue-Made P ws queues
  chosen-Made false P mr dir queues each ws = inline-Made P mr dir ws (each refl ws)

  -- A plan of a merge request changes no lock and no tag of any workspace, however many it triggers, and
  -- what it hands to the workers are plans only.
  pub trigger_tfc_events-LeavesLocks :
      t.cfg.action ≡ plan → Always (λ c. LeavesLocks (kind c)) (trigger_tfc_events glob decoder w t)
  trigger_tfc_events-LeavesLocks e =
      trigger_tfc_events-Made LeavesLocks glob decoder w t tt tt (λ mr dir.
        chosen-Made t.has_workspace_stream LeavesLocks mr dir e
          (λ inline ws. plan-LeavesLocks w t ws mr dir e))

  -- The kinds that touch no workspace, and the hand-over of the event's own action.
  abbrev HandsOn : Kind → Type 0
  HandsOn (queueing action) = action ≡ t.cfg.action
  HandsOn k = TouchesNothing k

  -- With a workspace stream, handling an event locks, tags and runs nothing, whatever the action, and
  -- hands on this action only.
  pub trigger_tfc_events-HandsOn :
      t.has_workspace_stream ≡ true
      → Always (λ c. HandsOn (kind c)) (trigger_tfc_events glob decoder w t)
  trigger_tfc_events-HandsOn e = trigger_tfc_events-Made HandsOn glob decoder w t tt tt (λ mr dir.
      chosen-Made t.has_workspace_stream HandsOn mr dir refl
        (λ inline ws. ground (arith, inline, e)))
