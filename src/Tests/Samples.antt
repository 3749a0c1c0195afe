-- ===== src/Tests/Samples.antt =====
-- The data of the examples: a merge request that touches one workspace, and services that answer.
use tfbuddy.Prelude.{Bool, true, false, none, some, List, [], ◌∷◌}
use tfbuddy.Text.{Text, lit}
use tfbuddy.Errors.{plain}
use tfbuddy.Config.{Config}
use tfbuddy.Types.{
  TriggerAction, apply, TfcTriggerOptions, comment_trigger, TfcWorkspace, WorkspaceTriggerMsg,
  DetailedMr, Workspace, Run, planning, TfRunMetadata, PollingTask, other_status,
}
use tfbuddy.Project.{Glob, Decoder}
use tfbuddy.Trigger.{TfcTrigger}
use tfbuddy.Effects.{Call, World, ok, err, workspaces_list_tags, get_merge_request_modified_files}

abbrev pub sample_config : Config
sample_config = record {
  gitlab_hook_secret_key = [];
  default_tfc_organization = lit "acme";
  workspace_allow_list = [];
  workspace_deny_list = lit "acme/legacy" ∷ [];
  allow_auto_merge = true;
  fail_ci_on_sentinel_soft_fail = false;
  gitlab_project_allow_list = lit " infra/" ∷ [];
  legacy_project_allow_list = [];
  github_repo_allow_list = lit "zapier/" ∷ [];
}

abbrev pub sample_options : TriggerAction → TfcTriggerOptions
sample_options action = record {
  action = action;
  branch = lit "feature";
  commit_sha = lit "abc123";
  project_name_with_namespace = lit "infra/network";
  merge_request_iid = 5;
  merge_request_discussion_id = [];
  merge_request_root_note_id = 0;
  trigger_source = comment_trigger;
  vcs_provider = lit "gitlab";
  delivery_id = lit "d-1";
  workspace = [];
  tf_version = [];
  target = [];
  allow_empty_run = false;
}

abbrev pub sample_trigger : TriggerAction → Bool → TfcTrigger
sample_trigger action streaming = record {
  app_cfg = sample_config;
  cfg = sample_options action;
  has_workspace_stream = streaming;
}

abbrev pub workspace_in : Text → Text → TfcWorkspace
workspace_in name dir = record {
  name = name;
  organization = lit "acme";
  dir = dir;
  mode = lit "apply-before-merge";
  trigger_dirs = [];
  auto_merge = true;
}

abbrev pub dev : TfcWorkspace
dev = workspace_in (lit "dev") (lit "dev")

abbrev pub top : TfcWorkspace
top = workspace_in (lit "top") (lit "/")

abbrev pub sample_message : WorkspaceTriggerMsg
sample_message = record { opts = sample_options apply; workspace = dev }

abbrev pub sample_mr : DetailedMr
sample_mr = record {
  internal_id = 5;
  source_branch = lit "feature";
  target_branch = lit "main";
  author_username = lit "ada";
  web_url = lit "https://git/infra/network/5";
  title = lit "Widen the subnet";
  state = lit "merged";
  conflicts = false;
  approved = false;
  base_sha = lit "def456";
}

abbrev pub remote : Bool → Workspace
remote locked = record {
  id = lit "ws-1";
  locked = locked;
  working_directory = [];
  has_vcs_repo = false;
}

abbrev pub sample_run : Run
sample_run = record {
  id = lit "run-1";
  status = planning;
  workspace_name = lit "dev";
  organization_name = lit "acme";
  speculative = true;
  target_addrs = [];
  auto_apply = false;
  has_changes = true;
  position_in_queue = 0;
  plan = record {
    id = [];
    resource_additions = 1;
    resource_changes = 0;
    resource_destructions = 0;
  };
  apply = record {
    resource_imports = 0;
    resource_additions = 1;
    resource_changes = 0;
    resource_destructions = 0;
  };
}

abbrev pub sample_metadata : TfRunMetadata
sample_metadata = record {
  run_id = lit "run-1";
  organization = lit "acme";
  workspace = lit "dev";
  source = lit "merge_request";
  action = lit "apply";
  commit_sha = lit "abc123";
  merge_request_project_name_with_namespace = lit "infra/network";
  merge_request_iid = 5;
  discussion_id = lit "disc";
  root_note_id = 7;
  vcs_provider = lit "gitlab";
  auto_merge = true;
}

abbrev pub sample_task : PollingTask
sample_task = record {
  metadata = sample_metadata;
  last_status = other_status (lit "new");
  next_poll = 1;
  processing = false;
  last_update = 0;
  revision = 3;
}

-- The tags of MR 5 and of MR 50.
abbrev lists : Call → List Text
lists (workspaces_list_tags ws query) = lit "tfbuddylock-50" ∷ lit "tfbuddylock-5" ∷ []
lists (get_merge_request_modified_files iid project) = lit "dev/main.tf" ∷ []
lists _ = []

-- All services answer, and the time is 2.
abbrev pub sample_world : World
sample_world = record {
  units = λ h c. ok tt;
  merge_requests = λ h c. ok sample_mr;
  texts = λ h c. ok (lit "/tmp/clone");
  text_lists = λ h c. ok (lists c);
  flags = λ h c. ok true;
  numbers = λ h c. ok 4;
  discussions = λ h c. ok (record { discussion_id = lit "disc"; notes = 7 ∷ [] });
  pipelines = λ h c. ok [];
  workspaces = λ h c. ok (remote false);
  versions =
      λ h c. ok (record { id = lit "cv"; upload_url = lit "https://up"; is_pending = false });
  runs = λ h c. ok sample_run;
  metadata = λ h c. ok sample_metadata;
  tasks = λ h c. ok (some sample_task);
  clock = λ h. 2;
}

-- Nothing can be cloned, so that each run fails.
abbrev pub failing_world : World
failing_world = record sample_world { texts = λ h c. err (plain []) }

abbrev pub sample_glob : Glob
sample_glob pattern name = ok false

abbrev pub sample_decoder : Decoder
sample_decoder = record { unmarshal = λ b. ok (dev ∷ top ∷ []); validate = λ wss. none }
