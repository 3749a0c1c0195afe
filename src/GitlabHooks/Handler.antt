-- ===== src/GitlabHooks/Handler.antt =====
-- pkg/gitlab_hooks/handler.go: how a webhook of GitLab is answered, and which event it publishes. The
-- names of the events are gogitlab's, and the binder of a body is echo's: both are parameters.
use tfbuddy.Prelude.{ℕ, not, ◌&&◌, Option, none, some, List, [], ◌∷◌, if◌then◌else◌, is_empty}
use tfbuddy.Text.{Text, lit, text_eq}
use tfbuddy.Effects.{Res, ok, err}
use tfbuddy.GitlabHooks.{NoteEvent, MergeRequestEvent}

pub record Request : Type 0 where
  pub header : Text → Text
  pub body : Text

pub data StreamMsg : Type 0 where
  mr_event : MergeRequestEvent → StreamMsg
  note_event : NoteEvent → StreamMsg

-- The counters of metrics.go, with the reason. The errors of the two cases of the switch are local to
-- them, so that an event that is not decoded, or not taken by its stream, counts as processed.
pub data Counter : Type 0 where
  invalid_token invalid_event unhandled_event_type processed : Counter

-- The answer, the message that was handed to its stream, whether or not the stream took it, and the
-- counter that was raised.
pub record Response : Type 0 where
  pub status : ℕ
  pub text : Text
  pub published : Option StreamMsg
  pub counter : Counter

abbrev pub first_header : Request → List Text → Text
first_header r [] = []
first_header r (h ∷ hs) =
    let rest = first_header r hs in if is_empty (r.header h) then rest else r.header h

unfoldable pub gitlab_delivery_id : Request → Text
gitlab_delivery_id r = first_header r (lit "X-Gitlab-Event-UUID" ∷ lit "Idempotency-Key" ∷ [])

module _ (merge_request_hook note_hook : Text) (bind_mr : Text → Res MergeRequestEvent)
    (bind_note : Text → Res NoteEvent) where
  unfoldable pub publish_event : StreamMsg → Response
  publish_event msg = record {
    status = 200;
    text = lit "OK";
    published = some msg;
    counter = processed;
  }

  abbrev pub unpublished : ℕ → Text → Counter → Response
  unpublished code body reason = record {
    status = code;
    text = body;
    published = none;
    counter = reason;
  }

  unfoldable pub handle_mr : Request → Response
  handle_mr r = elim (bind_mr r.body) [
    | err _ ↦ unpublished 200 (lit "OK") processed
    | ok event ↦ publish_event (mr_event (record (event) { delivery_id = gitlab_delivery_id r }))
  ]

  unfoldable pub handle_note : Request → Response
  handle_note r = elim (bind_note r.body) [
    | err _ ↦ unpublished 200 (lit "OK") processed
    | ok event ↦ publish_event (note_event (record (event) { delivery_id = gitlab_delivery_id r }))
  ]

  unfoldable pub handler : Text → Request → Response
  handler secret r =
      let event_type = r.header (lit "X-Gitlab-Event") in
      if not (is_empty secret) && not (text_eq secret (r.header (lit "X-Gitlab-Token")))
      then unpublished 401 (lit "Unauthorized") invalid_token
      else (if is_empty event_type
          then unpublished 400 (lit "Invalid X-Gitlab-Event") invalid_event
          else (if text_eq event_type merge_request_hook
              then handle_mr r
              else (if text_eq event_type note_hook
                  then handle_note r
                  else unpublished 200 (lit "OK") unhandled_event_type)))
