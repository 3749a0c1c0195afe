-- ===== src/Effects/Kinds.antt =====
-- The calls by what they change.
use tfbuddy.Types.{TriggerAction}
use tfbuddy.Effects.{
  Call, create_merge_request_comment, create_merge_request_discussion,
  update_merge_request_discussion_note, resolve_merge_request_discussion,
  add_merge_request_discussion_reply, set_commit_status, merge_mr, workspaces_lock,
  workspaces_unlock, workspaces_add_tags, workspaces_remove_tags, configuration_versions_create,
  configuration_versions_upload, runs_create, metadata_create, polling_create, polling_update,
  polling_delete, publish_polling_task, publish_run_event, publish_workspace_trigger,
}

-- `reading` changes nothing outside the program's own files; `posting` writes to the MR; `storing`
-- writes to the stores and streams of runs; `queueing` hands an action on a workspace to the workers.
pub data Kind : Type 0 where
  reading posting reporting merging : Kind
  locking unlocking tagging untagging : Kind
  uploading running storing : Kind
  queueing : TriggerAction → Kind

abbrev pub kind : Call → Kind
kind (create_merge_request_comment _ _ _) = posting
kind (create_merge_request_discussion _ _ _) = posting
kind (update_merge_request_discussion_note _ _ _ _ _) = posting
kind (resolve_merge_request_discussion _ _ _) = posting
kind (add_merge_request_discussion_reply _ _ _ _) = posting
kind (set_commit_status _ _ _) = reporting
kind (merge_mr _ _) = merging
kind (workspaces_lock _ _) = locking
kind (workspaces_unlock _) = unlocking
kind (workspaces_add_tags _ _) = tagging
kind (workspaces_remove_tags _ _) = untagging
kind (configuration_versions_create _ _) = uploading
kind (configuration_versions_upload _ _) = uploading
kind (runs_create _) = running
kind (metadata_create _ _) = storing
kind (polling_create _ _) = storing
kind (polling_update _ _ _) = storing
kind (polling_delete _) = storing
kind (publish_polling_task _) = storing
kind (publish_run_event _ _) = storing
kind (publish_workspace_trigger msg) = queueing msg.opts.action
kind _ = reading
