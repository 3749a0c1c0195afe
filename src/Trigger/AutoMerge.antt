-- ===== src/Trigger/AutoMerge.antt =====
-- When a run may merge its merge request.
use tfbuddy.Prelude.{ℕ, ◌≡◌, ◌↔◌, true, arith, Any}
use tfbuddy.Text.{Text, lit}
use tfbuddy.Text.Laws.{text_eq_iff}
use tfbuddy.Types.{TfcWorkspace, Run}
use tfbuddy.Trigger.{TfcTrigger}
use tfbuddy.Trigger.Runs.{auto_merge_of, metadata_of, publish_run_to_stream}
use tfbuddy.Runstream.{add_run_meta, new_tf_run_polling_task, schedule}
use tfbuddy.Effects.{Call, World, History, all_steps, metadata_create, polling_create}

-- The call stores the metadata of a run that may merge.
abbrev pub StoresAutoMerge : Call → Type 0
StoresAutoMerge (metadata_create id rmd) = rmd.auto_merge ≡ true
StoresAutoMerge (polling_create id task) = task.metadata.auto_merge ≡ true
StoresAutoMerge _ = ⊥

auto_merge_of_iff :
    (t : TfcTrigger) (cfg_ws : TfcWorkspace)
    → (auto_merge_of t cfg_ws ≡ true) ↔ (
        (cfg_ws.auto_merge ≡ true)
        × (t.app_cfg.allow_auto_merge ≡ true)
        × (cfg_ws.mode ≡ lit "apply-before-merge"))
unfolding auto_merge_of
auto_merge_of_iff t cfg_ws = ground (arith, text_eq_iff cfg_ws.mode (lit "apply-before-merge"))

-- The published metadata of a run lets it merge exactly when its workspace asks for it, the mode of
-- the workspace is "apply-before-merge", and auto-merge is enabled globally.
pub publish_run_to_stream-AutoMerge :
    (w : World) (t : TfcTrigger) (run : Run) (cfg_ws : TfcWorkspace) (disc : Text) (note : ℕ)
    (h : History)
    → Any StoresAutoMerge (publish_run_to_stream w t run cfg_ws disc note h).1 ↔ (
        (cfg_ws.auto_merge ≡ true)
        × (t.app_cfg.allow_auto_merge ≡ true)
        × (cfg_ws.mode ≡ lit "apply-before-merge"))
unfolding publish_run_to_stream add_run_meta new_tf_run_polling_task schedule metadata_of all_steps
publish_run_to_stream-AutoMerge w t run cfg_ws disc note h =
    ground (arith, auto_merge_of_iff t cfg_ws)
