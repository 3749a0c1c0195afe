-- ===== src/TfcClient.antt =====
-- pkg/tfc_api: the client of Terraform Cloud, over the calls of go-tfe.
use tfbuddy.Prelude.{
  ℕ, zero, suc, Bool, true, false, not, ◌&&◌, none, some, List, [], ◌∷◌, if◌then◌else◌, is_empty,
}
use tfbuddy.Text.{Text, lit, split}
use tfbuddy.Errors.{plain}
use tfbuddy.Types.{ApiRunOptions, ConfigurationVersion, RunCreateOptions, Run, Workspace}
use tfbuddy.Locks.{tag_name}
use tfbuddy.Effects.{
  World, Io, ◌>>=◌, ◌>>◌, pure, fail, perform, workspaces_read, workspaces_lock, workspaces_unlock,
  workspaces_add_tags, workspaces_remove_tags, workspaces_list_tags, configuration_versions_create,
  configuration_versions_upload, configuration_versions_read, runs_create, runs_read,
  plans_read_json_output,
}

-- A Terraform version makes the run plan-only, and is not set for an apply.
abbrev pub sets_version : ApiRunOptions → Bool
sets_version opts = not (is_empty opts.tf_version) && not opts.is_apply

unfoldable pub run_create_options :
    ApiRunOptions → ConfigurationVersion → Workspace → RunCreateOptions
run_create_options opts cv ws = record {
  message = opts.message;
  configuration_version = cv.id;
  workspace_id = ws.id;
  auto_apply = opts.is_apply;
  target_addrs = if is_empty opts.target then [] else split b',' opts.target;
  plan_only = if sets_version opts then some true else none;
  terraform_version = if sets_version opts then some opts.tf_version else none;
  allow_empty_apply = opts.allow_empty_run;
}

module _ (w : World) where
  unfoldable pub get_run : Text → Io Run
  get_run id = perform w.runs (runs_read id)

  unfoldable pub get_plan_output : Text → Io Text
  get_plan_output id = perform w.texts (plans_read_json_output id)

  unfoldable pub get_workspace_by_name : Text → Text → Io Workspace
  get_workspace_by_name org name = perform w.workspaces (workspaces_read org name)

  unfoldable pub add_tags : Text → Text → Text → Io (Unit {0})
  add_tags workspace prefix value =
      perform w.units (workspaces_add_tags workspace (tag_name prefix value ∷ []))

  unfoldable pub get_tags_by_query : Text → Text → Io (List Text)
  get_tags_by_query workspace query = perform w.text_lists (workspaces_list_tags workspace query)

  -- All tags that the query returns are removed. The query matches anywhere in a tag.
  unfoldable pub remove_tags_by_query : Text → Text → Io (Unit {0})
  remove_tags_by_query workspace query = do
    tags ← get_tags_by_query workspace query
    if is_empty tags then pure tt else perform w.units (workspaces_remove_tags workspace tags)

  unfoldable pub remove_tags_by_name : Text → List Text → Io (Unit {0})
  remove_tags_by_name workspace names =
      if is_empty names then pure tt else perform w.units (workspaces_remove_tags workspace names)

  unfoldable pub lock_unlock_workspace : Text → Text → Text → Bool → Io (Unit {0})
  lock_unlock_workspace workspace_id reason tag true = do
    perform w.units (workspaces_lock workspace_id reason)
    add_tags workspace_id (lit "gl-lock") tag
  lock_unlock_workspace workspace_id reason tag false = do
    perform w.units (workspaces_unlock workspace_id)
    remove_tags_by_query workspace_id (lit "gl-lock")

  -- The loop of `pollCVWhilePending`; it sleeps a second after each round that finds the version
  -- pending.
  unfoldable pub poll_while_pending : ℕ → Text → Io ConfigurationVersion
  poll_while_pending zero id = fail (plain (lit "timed out waiting for CV to move from pending"))
  poll_while_pending (suc rounds) id =
      let rest = poll_while_pending rounds id in
      perform w.versions (configuration_versions_read id) >>= λ cv.
      if cv.is_pending then rest else pure cv

  unfoldable pub create_configuration_version : ApiRunOptions → Workspace → Io ConfigurationVersion
  create_configuration_version opts ws = do
    cv ← perform w.versions (configuration_versions_create ws.id (not opts.is_apply))
    perform w.units (configuration_versions_upload cv.upload_url opts.path)
    poll_while_pending 30 cv.id

  -- The answer's value of `Speculative` is overridden, and its workspace is the one that was read.
  unfoldable pub create_run_from_source : ApiRunOptions → Io Run
  create_run_from_source opts = do
    ws ← get_workspace_by_name opts.organization opts.workspace
    cv ← create_configuration_version opts ws
    run ← perform w.runs (runs_create (run_create_options opts cv ws))
    pure (record run { speculative = not opts.is_apply })
