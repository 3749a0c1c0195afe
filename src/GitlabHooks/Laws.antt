-- ===== src/GitlabHooks/Laws.antt =====
-- What the events of GitLab may start.
use tfbuddy.Prelude.{
  ◌≡◌, refl, ap, ◌∙◌, inl, inr, Bool, true, false, [], ◌∷◌, ◌++◌, arith, All, Bool-cases,
}
use tfbuddy.Text.{Text, lit, text_eq, itoa}
use tfbuddy.Text.Laws.{text_eq_refl}
use tfbuddy.Config.{Config}
use tfbuddy.Types.{DetailedMr, plan}
use tfbuddy.AllowList.{is_gitlab_project_allowed}
use tfbuddy.Comment.{CommentOpts, ArgsParser, parse_comment_command}
use tfbuddy.Project.{Glob, Decoder}
use tfbuddy.Trigger.{TfcTrigger}
use tfbuddy.Trigger.Events.{trigger_tfc_events}
use tfbuddy.Trigger.Cleanup.{Releases, cleanup_for, cleanup_for-Releases, trigger_cleanup_event}
use tfbuddy.Trigger.Safety.{LeavesLocks}
use tfbuddy.Trigger.EventSafety.{TouchesNothing, trigger_tfc_events-LeavesLocks}
use tfbuddy.Locks.{tf_prefix, tag_name}
use tfbuddy.GitlabHooks.{
  NoteEvent, MergeRequestEvent, event_options, trigger_with, post_message_to_merge_request,
  post_error_to_merge_request, check_approval, check_for_merge_conflicts, apply_note, run_command,
  process_note_event, run_event_trigger, process_merge_request_event,
}
use tfbuddy.Effects.{
  Call, World, ok, History, pure, all_steps, on_result, get_merge_request,
  get_merge_request_approvals,
}
use tfbuddy.Effects.Kinds.{Kind, kind, locking, unlocking, tagging, queueing}
use tfbuddy.Effects.Laws.{Always, always, Always-weaken, Res-cases}

-- The kinds that take and release no lock but by removing a tag, nor let a worker do so.
abbrev pub TakesNoLock : Kind → Type 0
TakesNoLock locking = ⊥
TakesNoLock unlocking = ⊥
TakesNoLock tagging = ⊥
TakesNoLock (queueing action) = action ≡ plan
TakesNoLock _ = Unit

LeavesLocks-TakesNoLock : (k : Kind) → LeavesLocks k → TakesNoLock k
LeavesLocks-TakesNoLock k p = ground (arith, p)

Releases-TakesNoLock : (tag : Text) (c : Call) → Releases tag c → TakesNoLock (kind c)
Releases-TakesNoLock tag c p = ground (arith, p)

module _ (glob : Glob) (decoder : Decoder) (parse_args : ArgsParser) (w : World) (cfg : Config)
    (has_stream : Bool) where
  abbrev pub ask_approval : NoteEvent → Call
  ask_approval event = get_merge_request_approvals event.mr_iid event.project

  -- The merge request of the note is approved and has no conflicts.
  abbrev pub IsReady : NoteEvent → History → Type 0
  IsReady event h =
      (w.flags h (ask_approval event) ≡ ok true)
      × ((mr : DetailedMr) × (w.merge_requests (h ++ ask_approval event ∷ [])
              (get_merge_request event.mr_iid event.project)
            ≡ ok mr)
          × (mr.conflicts ≡ false))

  no_calls : (h : History) → All (λ c. TouchesNothing (kind c)) (pure tt h).1
  unfolding pure
  no_calls h = tt

  apply_note-unready :
      (event : NoteEvent) (opts : CommentOpts) (h : History)
      → ¬ IsReady event h
      → All
          (λ c. TouchesNothing (kind c))
          (apply_note glob decoder parse_args w cfg has_stream event opts h).1
  unfolding apply_note check_approval check_for_merge_conflicts post_error_to_merge_request
      post_message_to_merge_request all_steps
  apply_note-unready event opts h unready = elim (Res-cases (w.flags h (ask_approval event))) [
    | inr (e, f) ↦ ground (arith, f)
    | inl (false, f) ↦ ground (arith, f)
    | inl (true, f) ↦
        elim (Res-cases (
          w.merge_requests (h ++ ask_approval event ∷ [])
            (get_merge_request event.mr_iid event.project))) [
              | inr (e, g) ↦ ground (arith, f, g)
              | inl (mr, g) ↦ elim (Bool-cases mr.conflicts) [
                | inl c ↦ ground (arith, f, g, c)
                | inr c ↦ absurd (unready (f, (mr, g, c)))
              ]
            ]
  ]

  -- A note that asks for an apply touches no workspace, and hands no action to a worker, unless its
  -- merge request is approved and has no conflicts.
  pub process_note_event-unready :
      (event : NoteEvent) (opts : CommentOpts) (h : History)
      → parse_comment_command parse_args event.note ≡ ok opts
      → opts.command ≡ lit "apply"
      → ¬ IsReady event h
      → All
          (λ c. TouchesNothing (kind c))
          (process_note_event glob decoder parse_args w cfg has_stream event h).1
  unfolding process_note_event run_command on_result
  process_note_event-unready event opts h e f unready =
      elim (Bool-cases (is_gitlab_project_allowed cfg event.project)) [
        | inl allowed ↦
            let named : text_eq opts.command (lit "apply") ≡ true =
              ap (λ c. text_eq c (lit "apply")) f ∙ text_eq_refl (lit "apply") in
            rw (allowed, e, named) (apply_note-unready event opts h unready)
        | inr denied ↦ rw denied (no_calls h)
      ]

  cleanup-TakesNoLock :
      (t : TfcTrigger) → Always (λ c. TakesNoLock (kind c)) (trigger_cleanup_event glob decoder w t)
  unfolding trigger_cleanup_event
  cleanup-TakesNoLock t =
      search
        (
          always,
          λ (mr : DetailedMr).
              Always-weaken (Releases (tag_name tf_prefix (itoa mr.internal_id)))
                (λ c. TakesNoLock (kind c)) (cleanup_for glob decoder w t mr)
                (Releases-TakesNoLock (tag_name tf_prefix (itoa mr.internal_id)))
                (cleanup_for-Releases glob decoder w t mr),
        )
        depth 9

  plan-TakesNoLock :
      (event : MergeRequestEvent)
      → Always
          (λ c. TakesNoLock (kind c))
          (trigger_tfc_events glob decoder w
            (trigger_with glob decoder parse_args w cfg has_stream (event_options event)))
  plan-TakesNoLock event =
      Always-weaken (λ c. LeavesLocks (kind c)) (λ c. TakesNoLock (kind c))
        (trigger_tfc_events glob decoder w
          (trigger_with glob decoder parse_args w cfg has_stream (event_options event)))
        (λ c. LeavesLocks-TakesNoLock (kind c))
        (trigger_tfc_events-LeavesLocks glob decoder w
          (trigger_with glob decoder parse_args w cfg has_stream (event_options event)) refl)

  -- An event of a merge request takes no lock, whatever has happened to the merge request.
  pub process_merge_request_event-TakesNoLock :
      (event : MergeRequestEvent)
      → Always
          (λ c. TakesNoLock (kind c))
          (process_merge_request_event glob decoder parse_args w cfg has_stream event)
  unfolding process_merge_request_event run_event_trigger
  process_merge_request_event-TakesNoLock event =
      search (always, cleanup-TakesNoLock, plan-TakesNoLock) depth 12
