-- ===== src/Trigger/RunCount.antt =====
-- How many runs a dispatch creates.
use tfbuddy.Prelude.{ℕ, suc, ◌+◌, List, [], ◌∷◌, length, arith, Bool-cases, inl, inr, any}
use tfbuddy.Text.{Text, text_eq}
use tfbuddy.Config.{Config}
use tfbuddy.Types.{TfcWorkspace, DetailedMr}
use tfbuddy.AllowList.{is_workspace_allowed}
use tfbuddy.Project.{Glob, Decoder}
use tfbuddy.Trigger.{TfcTrigger}
use tfbuddy.Trigger.Runs.{trigger_run_for_workspace}
use tfbuddy.Trigger.Events.{run_inline}
use tfbuddy.Trigger.Dispatching.{
  dispatch_from, dispatch_workspaces, no_workspaces, TriggeredTfcWorkspaces,
}
use tfbuddy.Trigger.Safety.{is_run_create, trigger_run-AtMost}
use tfbuddy.Effects.{World, Io, Res, ◌>>=◌, pure, attempt}
use tfbuddy.Effects.Laws.{always}
use tfbuddy.Effects.Order.{
  AtMost, AtMost-bind, AtMost-none, AtMost-context, AtMost-suc, AtMost-attempt,
}

-- Where each workspace makes at most one run, a dispatch makes at most one per workspace.
module _ (cfg : Config) (blocked : List Text) (dispatch : TfcWorkspace → Io (Unit {0}))
    (one : (ws : TfcWorkspace) → AtMost is_run_create 1 (dispatch ws)) where
  dispatched-AtMost :
      {B : Type 0} (n : ℕ) (ws : TfcWorkspace) (f : Res (Unit {0}) → Io B)
      → ((r : Res (Unit {0})) → AtMost is_run_create n (f r))
      → AtMost is_run_create (suc n) (attempt (dispatch ws) >>= f)
  dispatched-AtMost n ws f each h =
      let first : AtMost is_run_create 1 (attempt (dispatch ws)) =
        AtMost-attempt is_run_create 1 (dispatch ws) (one ws) in
      let both : AtMost is_run_create (1 + n) (attempt (dispatch ws) >>= f) =
        AtMost-bind is_run_create 1 n (attempt (dispatch ws)) f first each in
      omega (arith, both h)

  pub dispatch_from-AtMost :
      (wss : List TfcWorkspace) (status : TriggeredTfcWorkspaces)
      → AtMost is_run_create (length wss) (dispatch_from cfg blocked dispatch wss status)
  unfolding dispatch_from
  dispatch_from-AtMost [] status = AtMost-none is_run_create 0 (pure status) (search always)
  dispatch_from-AtMost (ws ∷ wss) status =
      elim (Bool-cases (is_workspace_allowed cfg ws.name ws.organization)) [
        | inr denied ↦ rw denied (
            AtMost-suc is_run_create (length wss) (dispatch_from cfg blocked dispatch wss _)
              (dispatch_from-AtMost wss _))
        | inl allowed ↦ elim (Bool-cases (any (text_eq ws.name) blocked)) [
          | inl b ↦
              rw (allowed, b)
                (AtMost-suc is_run_create (length wss) (dispatch_from cfg blocked dispatch wss _)
                  (dispatch_from-AtMost wss _))
          | inr b ↦
              rw (allowed, b)
                (dispatched-AtMost (length wss) ws _ (λ r. dispatch_from-AtMost wss _))
        ]
      ]

module _ (glob : Glob) (decoder : Decoder) (w : World) (t : TfcTrigger) (mr : DetailedMr)
    (dir : Text) where
  inline-AtMost :
      (ws : TfcWorkspace) → AtMost is_run_create 1 (run_inline glob decoder w t mr dir ws)
  unfolding run_inline
  inline-AtMost ws =
      AtMost-context is_run_create 1 _ (trigger_run_for_workspace w t ws mr dir)
        (trigger_run-AtMost w t ws mr dir)

  -- A dispatch that runs the workspaces inline creates at most one run for each of them.
  pub inline_dispatch-AtMost :
      (cfg : Config) (blocked : List Text) (wss : List TfcWorkspace)
      → AtMost is_run_create
          (length wss)
          (dispatch_workspaces cfg wss blocked (run_inline glob decoder w t mr dir))
  inline_dispatch-AtMost cfg blocked wss =
      dispatch_from-AtMost cfg blocked (run_inline glob decoder w t mr dir) inline-AtMost wss
        no_workspaces
