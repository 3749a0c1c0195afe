-- ===== src/Trigger/Dispatching.antt =====
-- `dispatchWorkspaces`: one run per workspace, and the status that is reported.
use tfbuddy.Prelude.{not, List, [], ◌∷◌, ◌++◌, if◌then◌else◌, any}
use tfbuddy.Text.{Text, lit, text_eq, join}
use tfbuddy.Errors.{error_text}
use tfbuddy.Config.{Config}
use tfbuddy.Types.{TfcWorkspace}
use tfbuddy.AllowList.{is_workspace_allowed}
use tfbuddy.Effects.{Io, Res, ok, err, ◌>>=◌, pure, attempt}

pub record ErroredWorkspace : Type 0 where
  pub name : Text
  pub error : Text

pub record TriggeredTfcWorkspaces : Type 0 where
  pub errored : List ErroredWorkspace
  pub executed : List Text

abbrev pub no_workspaces : TriggeredTfcWorkspaces
no_workspaces = record { errored = []; executed = [] }

abbrev pub add_errored : TriggeredTfcWorkspaces → Text → Text → TriggeredTfcWorkspaces
add_errored status name error = record status {
  errored = status.errored ++ record { name = name; error = error } ∷ [];
}

abbrev pub add_executed : TriggeredTfcWorkspaces → Text → TriggeredTfcWorkspaces
add_executed status name = record status { executed = status.executed ++ name ∷ [] }

abbrev pub add_result : TriggeredTfcWorkspaces → Text → Res (Unit {0}) → TriggeredTfcWorkspaces
add_result status name (err e) = add_errored status name (error_text e)
add_result status name (ok _) = add_executed status name

-- `%v` of a list of texts.
abbrev pub show_texts : List Text → Text
show_texts texts = b'[' ∷ join (b' ' ∷ []) texts ++ b']' ∷ []

abbrev pub ignored_message : Text
ignored_message = lit "Ignoring workspace, because of allow/deny list."

abbrev pub blocked_message : TfcWorkspace → Text
blocked_message ws =
    lit "Blocked: workspace-relevant paths (dir: '"
    ++ ws.dir
    ++ lit "', triggerDirs: "
    ++ show_texts ws.trigger_dirs
    ++ lit
        ") have been modified on the target branch since this branch diverged. Please rebase/merge the target branch to resolve this."

-- `dispatchWorkspaces`, with the status so far. `blocked` are the keys of the map.
unfoldable pub dispatch_from :
    Config
    → List Text
    → (TfcWorkspace → Io (Unit {0}))
    → List TfcWorkspace
    → TriggeredTfcWorkspaces
    → Io TriggeredTfcWorkspaces
dispatch_from cfg blocked dispatch [] status = pure status
dispatch_from cfg blocked dispatch (ws ∷ workspaces) status =
    let rest = dispatch_from cfg blocked dispatch workspaces in
    if not (is_workspace_allowed cfg ws.name ws.organization)
    then rest (add_errored status ws.name ignored_message)
    else (if any (text_eq ws.name) blocked
        then rest (add_errored status ws.name (blocked_message ws))
        else (attempt (dispatch ws) >>= λ r. rest (add_result status ws.name r)))

abbrev pub dispatch_workspaces :
    Config
    → List TfcWorkspace
    → List Text
    → (TfcWorkspace → Io (Unit {0}))
    → Io TriggeredTfcWorkspaces
dispatch_workspaces cfg workspaces blocked dispatch =
    dispatch_from cfg blocked dispatch workspaces no_workspaces
