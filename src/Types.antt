-- ===== src/Types.antt =====
-- The records and enumerations that the components hand to one another: the options of a trigger and
-- a configured workspace (pkg/tfc_trigger), the metadata of a run (pkg/runstream), the options of a
-- new run (pkg/tfc_api), the interfaces of pkg/vcs, and what the code reads of the Terraform Cloud
-- client's types.
use tfbuddy.Prelude.{ℕ, Bool, List, Option}
use tfbuddy.Text.{Text}

pub data TriggerAction : Type 0 where
  apply destroy lock plan refresh unlock invalid : TriggerAction

pub data TriggerSource : Type 0 where
  comment_trigger merge_request_event_trigger : TriggerSource

pub record TfcTriggerOptions : Type 0 where
  pub action : TriggerAction
  pub branch : Text
  pub commit_sha : Text
  pub project_name_with_namespace : Text
  pub merge_request_iid : ℕ
  pub merge_request_discussion_id : Text
  pub merge_request_root_note_id : ℕ
  pub trigger_source : TriggerSource
  pub vcs_provider : Text
  pub delivery_id : Text
  pub workspace : Text
  pub tf_version : Text
  pub target : Text
  pub allow_empty_run : Bool

pub record TfcWorkspace : Type 0 where
  pub name : Text
  pub organization : Text
  pub dir : Text
  pub mode : Text
  pub trigger_dirs : List Text
  pub auto_merge : Bool

pub record WorkspaceTriggerMsg : Type 0 where
  pub opts : TfcTriggerOptions
  pub workspace : TfcWorkspace

pub record TfRunMetadata : Type 0 where
  pub run_id : Text
  pub organization : Text
  pub workspace : Text
  pub source : Text
  pub action : Text
  pub commit_sha : Text
  pub merge_request_project_name_with_namespace : Text
  pub merge_request_iid : ℕ
  pub discussion_id : Text
  pub root_note_id : ℕ
  pub vcs_provider : Text
  pub auto_merge : Bool

pub record ApiRunOptions : Type 0 where
  pub is_apply : Bool
  pub path : Text
  pub message : Text
  pub organization : Text
  pub workspace : Text
  pub tf_version : Text
  pub target : Text
  pub allow_empty_run : Bool

-- The statuses of a run: a constructor for each that the code names, spelled like its text.
pub data RunStatus : Type 0 where
  pending plan_queued planning planned planned_and_finished : RunStatus
  cost_estimating policy_checking policy_checked policy_soft_failed : RunStatus
  apply_queued applying applied discarded errored canceled : RunStatus
  other_status : Text → RunStatus

-- `vcs.DetailedMR`
pub record DetailedMr : Type 0 where
  pub internal_id : ℕ
  pub source_branch : Text
  pub target_branch : Text
  pub author_username : Text
  pub web_url : Text
  pub title : Text
  pub state : Text
  pub conflicts : Bool
  -- Of a pull request of GitHub only.
  pub approved : Bool
  pub base_sha : Text

-- `vcs.MRDiscussionNotes`
pub record MrDiscussionNotes : Type 0 where
  pub discussion_id : Text
  pub notes : List ℕ

-- `vcs.ProjectPipeline`
pub record ProjectPipeline : Type 0 where
  pub source : Text
  pub pipeline_id : ℕ

-- `gogitlab.BuildStateValue`
pub data BuildState : Type 0 where
  state_pending state_running state_failed state_success : BuildState

-- `gogitlab.SetCommitStatusOptions`
pub record CommitStatusOptions : Type 0 where
  pub name : Text
  pub context : Text
  pub target_url : Text
  pub description : Text
  pub state : BuildState
  pub pipeline_id : Option ℕ

-- What the code reads of a `tfe.Workspace`.
pub record Workspace : Type 0 where
  pub id : Text
  pub locked : Bool
  pub working_directory : Text
  pub has_vcs_repo : Bool

-- What the code reads of a `tfe.ConfigurationVersion`.
pub record ConfigurationVersion : Type 0 where
  pub id : Text
  pub upload_url : Text
  pub is_pending : Bool

-- What the code sets of a `tfe.RunCreateOptions`.
pub record RunCreateOptions : Type 0 where
  pub message : Text
  pub configuration_version : Text
  pub workspace_id : Text
  pub auto_apply : Bool
  pub target_addrs : List Text
  pub plan_only : Option Bool
  pub terraform_version : Option Text
  pub allow_empty_apply : Bool

pub record Plan : Type 0 where
  pub id : Text
  pub resource_additions : ℕ
  pub resource_changes : ℕ
  pub resource_destructions : ℕ

pub record Apply : Type 0 where
  pub resource_imports : ℕ
  pub resource_additions : ℕ
  pub resource_changes : ℕ
  pub resource_destructions : ℕ

-- What the code reads of a `tfe.Run`.
pub record Run : Type 0 where
  pub id : Text
  pub status : RunStatus
  pub workspace_name : Text
  pub organization_name : Text
  pub speculative : Bool
  pub target_addrs : List Text
  pub auto_apply : Bool
  pub has_changes : Bool
  pub position_in_queue : ℕ
  pub plan : Plan
  pub apply : Apply

-- `runstream.TFRunEvent`, with the fields that the publishers set.
pub record TfRunEvent : Type 0 where
  pub run_id : Text
  pub organization : Text
  pub workspace : Text
  pub new_status : RunStatus

-- `runstream.TFRunPollingTask`
pub record PollingTask : Type 0 where
  pub metadata : TfRunMetadata
  pub last_status : RunStatus
  pub next_poll : ℕ
  pub processing : Bool
  pub last_update : ℕ
  pub revision : ℕ
