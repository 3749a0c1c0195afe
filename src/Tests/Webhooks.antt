-- ===== src/Tests/Webhooks.antt =====
-- An example of a webhook of GitLab.
use tfbuddy.Prelude.{◌≡◌, refl, inr, some, [], if◌then◌else◌}
use tfbuddy.Text.{Text, lit, text_eq}
use tfbuddy.Errors.{plain}
use tfbuddy.Effects.{Res, ok, err}
use tfbuddy.GitlabHooks.{NoteEvent, MergeRequestEvent}
use tfbuddy.GitlabHooks.Handler.{Request, StreamMsg, note_event, gitlab_delivery_id, handler}
use tfbuddy.GitlabHooks.Webhooks.{handler-Carries}

abbrev note_headers : Text → Text
note_headers name =
    if text_eq name (lit "X-Gitlab-Event")
    then lit "Note Hook"
    else (if text_eq name (lit "X-Gitlab-Token")
        then lit "s3cret"
        else (if text_eq name (lit "Idempotency-Key") then lit "d-42" else []))

abbrev note_request : Request
note_request = record { header = note_headers; body = lit "tfc plan" }

abbrev note_with : Text → Text → NoteEvent
note_with text delivery = record {
  project = lit "zapier/tfbuddy";
  note = text;
  note_type = lit "DiscussionNote";
  discussion_id = lit "d1";
  mr_iid = 7;
  source_branch = lit "topic";
  last_commit = lit "abc";
  delivery_id = delivery;
}

abbrev bind_note : Text → Res NoteEvent
bind_note body = ok (note_with body [])

abbrev bind_mr : Text → Res MergeRequestEvent
bind_mr body = err (plain (lit "not a merge request"))

-- A delivery without the first header has the id of the second one.
delivery_example : gitlab_delivery_id note_request ≡ lit "d-42"
unfolding gitlab_delivery_id lit text_eq
delivery_example = refl

abbrev note_msg : StreamMsg
note_msg = note_event (note_with (lit "tfc plan") (lit "d-42"))

webhook_example :
    (handler
      (lit "Merge Request Hook")
      (lit "Note Hook")
      bind_mr
      bind_note
      (lit "s3cret")
      note_request).published
    ≡ some note_msg
unfolding gitlab_delivery_id lit text_eq
webhook_example =
    (handler-Carries (lit "Merge Request Hook") (lit "Note Hook") bind_mr bind_note (lit "s3cret")
        note_request note_msg refl refl refl).1
      (inr refl, inr (refl, (note_with (lit "tfc plan") [], refl, refl)))
