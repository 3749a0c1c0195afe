-- ===== src/Trigger.antt =====
-- pkg/tfc_trigger/tfc_trigger.go: the actions, and the object that triggers runs.
pub mod Runs
pub mod Made
pub mod Safety
pub mod LockFirst
pub mod Dispatching
pub mod Events
pub mod Dispatch
pub mod EventSafety
pub mod RunCount
pub mod AutoMerge
pub mod Cleanup
pub mod Tags
pub mod Ends
pub mod Owner
pub mod TagSteps
pub mod Exclusion
pub mod Mutex
pub mod Harmless
pub mod Turns
pub mod Worker
use tfbuddy.Prelude.{Bool, true, false, if◌then◌else◌}
use tfbuddy.Text.{Text, lit, text_eq, to_lower}
use tfbuddy.Config.{Config}
use tfbuddy.Types.{
  TriggerAction, apply, destroy, lock, plan, refresh, unlock, invalid, TfcTriggerOptions,
}

abbrev pub action_text : TriggerAction → Text
action_text apply = lit "apply"
action_text destroy = lit "destroy"
action_text lock = lit "lock"
action_text plan = lit "plan"
action_text refresh = lit "refresh"
action_text unlock = lit "unlock"
action_text invalid = lit "invalid"

unfoldable pub check_trigger_action : Text → TriggerAction
check_trigger_action action =
    let a = to_lower action in
    if text_eq a (lit "plan")
    then plan
    else (if text_eq a (lit "apply")
        then apply
        else (if text_eq a (lit "destroy")
            then destroy
            else (if text_eq a (lit "lock")
                then lock
                else (if text_eq a (lit "unlock")
                    then unlock
                    else (if text_eq a (lit "refresh") then refresh else invalid)))))

abbrev pub is_apply : TriggerAction → Bool
is_apply apply = true
is_apply _ = false

abbrev pub is_plan : TriggerAction → Bool
is_plan plan = true
is_plan _ = false

abbrev pub is_lock : TriggerAction → Bool
is_lock lock = true
is_lock _ = false

abbrev pub is_unlock : TriggerAction → Bool
is_unlock unlock = true
is_unlock _ = false

-- What the code reads of a `TFCTrigger`; its clients are the world.
pub record TfcTrigger : Type 0 where
  pub app_cfg : Config
  pub cfg : TfcTriggerOptions
  pub has_workspace_stream : Bool
