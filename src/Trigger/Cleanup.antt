-- ===== src/Trigger/Cleanup.antt =====
-- `TriggerCleanupEvent`: after a merge, the lock tags of the MR are removed, and no others.
use tfbuddy.Prelude.{
  ◌≡◌, refl, ◌⊎◌, inl, inr, Bool, true, false, List, [], ◌∷◌, ◌++◌, if◌then◌else◌, is_empty, any,
  All, Any, arith,
}
use tfbuddy.Text.{Text, lit, text_eq, itoa, join}
use tfbuddy.Errors.{Error}
use tfbuddy.Types.{DetailedMr, Workspace, TfcWorkspace}
use tfbuddy.Locks.{tf_prefix, tag_name}
use tfbuddy.Project.{Glob, Decoder}
use tfbuddy.TfcClient
use tfbuddy.Trigger.{TfcTrigger}
use tfbuddy.Trigger.Events.{handle_error, post_update, get_triggered_workspaces_for_request}
use tfbuddy.Effects.{
  Call, World, History, Io, workspaces_remove_tags, workspaces_read, workspaces_list_tags,
  all_steps, ok, ◌>>=◌, ◌>>◌, pure, perform, attempt, on_result, context, get_merge_request,
  create_merge_request_discussion,
}
use tfbuddy.Effects.Kinds.{kind}
use tfbuddy.Effects.Laws.{Always, always, Always-weaken}
use tfbuddy.Trigger.EventSafety.{TouchesNothing, for_request-Made}

module _ (glob : Glob) (decoder : Decoder) (w : World) (t : TfcTrigger) where
  -- One round of the loop over the workspaces: whether the tag was removed.
  unfoldable pub cleanup_workspace : Text → TfcWorkspace → Io Bool
  cleanup_workspace tag cfg_ws =
      attempt (TfcClient.get_workspace_by_name w cfg_ws.organization cfg_ws.name)
      >>= on_result
          (λ e. handle_error glob decoder w t e (lit "error getting workspace") >> pure false)
          (λ ws.
            attempt (TfcClient.get_tags_by_query w ws.id tag)
            >>= on_result
                (λ e. handle_error glob decoder w t e (lit "error getting tags") >> pure false)
                (λ tags.
                  if any (text_eq tag) tags
                  then (attempt (TfcClient.remove_tags_by_name w ws.id (tag ∷ []))
                      >>= on_result
                          (λ e.
                            handle_error glob decoder w t e
                              (lit "Error removing locking tag from workspace")
                            >> pure false)
                          (λ _. pure true))
                  else pure false))

  -- The names of the workspaces that were released.
  unfoldable pub cleanup_all : Text → List TfcWorkspace → Io (List Text)
  unfolding cleanup_workspace
  cleanup_all tag [] = pure []
  cleanup_all tag (cfg_ws ∷ workspaces) = do
    released ← cleanup_workspace tag cfg_ws
    names ← cleanup_all tag workspaces
    pure (if released then cfg_ws.name ∷ names else names)

  -- What follows when the MR was read.
  unfoldable pub cleanup_for : DetailedMr → Io (Unit {0})
  cleanup_for mr = do
    workspaces ←
        context (lit "could not determine workspaces for merge cleanup. ")
          (get_triggered_workspaces_for_request glob decoder w t mr)
    names ← cleanup_all (tag_name tf_prefix (itoa mr.internal_id)) workspaces
    if is_empty names then pure tt else (do
      _ ← context (lit "could not create MR discussion thread for TFC run status updates. ") (
          perform w.discussions (
            create_merge_request_discussion mr.internal_id t.cfg.project_name_with_namespace
              (lit "Released locks for workspaces: " ++ join (b',' ∷ []) names)))
      pure tt)

  abbrev pub read_mr : Call
  read_mr = get_merge_request t.cfg.merge_request_iid t.cfg.project_name_with_namespace

  unfoldable pub trigger_cleanup_event : Io (Unit {0})
  unfolding cleanup_for
  trigger_cleanup_event =
      context (lit "could not read MergeRequest data from VCS API: ")
        (perform w.merge_requests read_mr)
      >>= cleanup_for

-- No call removes a tag but this one.
abbrev pub RemovesOnly : Text → Call → Type 0
RemovesOnly tag (workspaces_remove_tags ws names) = names ≡ tag ∷ []
RemovesOnly tag c = ⊥

-- A call of the clean-up: one that touches no workspace, or the removal of this tag alone.
abbrev pub Releases : Text → Call → Type 0
Releases tag c = TouchesNothing (kind c) ⊎ RemovesOnly tag c

Removes-self : (ws tag : Text) → Releases tag (workspaces_remove_tags ws (tag ∷ []))
Removes-self ws tag = inr refl

module _ (glob : Glob) (decoder : Decoder) (w : World) (t : TfcTrigger) (tag : Text) where
  handle-Releases :
      (e : Error) (msg : Text) → Always (Releases tag) (handle_error glob decoder w t e msg)
  unfolding handle_error post_update
  handle-Releases e msg = search (always, inl) depth 9

  get-Releases : (o n : Text) → Always (Releases tag) (TfcClient.get_workspace_by_name w o n)
  unfolding TfcClient.get_workspace_by_name
  get-Releases o n = search (always, inl)

  tags-Releases : (ws q : Text) → Always (Releases tag) (TfcClient.get_tags_by_query w ws q)
  unfolding TfcClient.get_tags_by_query
  tags-Releases ws q = search (always, inl)

  remove-Releases :
      (ws : Text) → Always (Releases tag) (TfcClient.remove_tags_by_name w ws (tag ∷ []))
  unfolding TfcClient.remove_tags_by_name
  remove-Releases ws = search (always, Removes-self)

  cleanup_workspace-Releases :
      (cfg_ws : TfcWorkspace)
      → Always (Releases tag) (cleanup_workspace glob decoder w t tag cfg_ws)
  unfolding cleanup_workspace
  cleanup_workspace-Releases cfg_ws =
      search (always, handle-Releases, get-Releases, tags-Releases, remove-Releases) depth 12

  cleanup_all-Releases :
      (wss : List TfcWorkspace) → Always (Releases tag) (cleanup_all glob decoder w t tag wss)
  unfolding cleanup_all
  cleanup_all-Releases [] = search always
  cleanup_all-Releases (ws ∷ wss) =
      search (always, cleanup_workspace-Releases, cleanup_all-Releases wss) depth 9

  for_request-Releases :
      (mr : DetailedMr)
      → Always (Releases tag) (get_triggered_workspaces_for_request glob decoder w t mr)
  for_request-Releases mr =
      Always-weaken (λ c. TouchesNothing (kind c)) (Releases tag)
        (get_triggered_workspaces_for_request glob decoder w t mr) (λ c. inl)
        (for_request-Made TouchesNothing glob decoder w t tt mr)

module _ (glob : Glob) (decoder : Decoder) (w : World) (t : TfcTrigger) where
  pub cleanup_for-Releases :
      (mr : DetailedMr)
      → Always
          (Releases (tag_name tf_prefix (itoa mr.internal_id)))
          (cleanup_for glob decoder w t mr)
  unfolding cleanup_for
  cleanup_for-Releases mr =
      search
        (
          always,
          inl,
          for_request-Releases glob decoder w t (tag_name tf_prefix (itoa mr.internal_id)),
          cleanup_all-Releases glob decoder w t (tag_name tf_prefix (itoa mr.internal_id)),
        )
        depth 12

  -- After a merge, no lock of a workspace changes and no tag is removed but the own one of the MR
  -- that was read, by its whole name.
  pub trigger_cleanup_event-Releases :
      (h : History) (mr : DetailedMr)
      → w.merge_requests h (read_mr glob decoder w t) ≡ ok mr
      → All
          (Releases (tag_name tf_prefix (itoa mr.internal_id)))
          (trigger_cleanup_event glob decoder w t h).1
  unfolding trigger_cleanup_event ◌>>=◌ context perform
  trigger_cleanup_event-Releases h mr e =
      rw e (inl tt, cleanup_for-Releases mr (h ++ read_mr glob decoder w t ∷ []))

  -- A workspace on which the tag is found is released: the removal of the tag is called.
  pub cleanup_workspace-removes :
      (tag : Text) (cfg_ws : TfcWorkspace) (h : History) (ws : Workspace) (tags : List Text)
      → w.workspaces h (workspaces_read cfg_ws.organization cfg_ws.name) ≡ ok ws
      → w.text_lists
          (h ++ workspaces_read cfg_ws.organization cfg_ws.name ∷ [])
          (workspaces_list_tags ws.id tag)
        ≡ ok tags
      → any (text_eq tag) tags ≡ true
      → Any
          (λ c. c ≡ workspaces_remove_tags ws.id (tag ∷ []))
          (cleanup_workspace glob decoder w t tag cfg_ws h).1
  unfolding cleanup_workspace TfcClient.get_workspace_by_name TfcClient.get_tags_by_query
      TfcClient.remove_tags_by_name all_steps
  cleanup_workspace-removes tag cfg_ws h ws tags e f g = ground arith
