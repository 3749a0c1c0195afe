-- ===== src/GitlabHooks/Queue.antt =====
-- pkg/gitlab_hooks/hook_worker.go: what a worker hands back to the streams of events. A panic of the
-- code below is not modelled.
use tfbuddy.Prelude.{◌≡◌, refl, Bool, true, false, Option, none, some, List}
use tfbuddy.Errors.{Error, permanent, is_error, emit_permanent_error}
use tfbuddy.Config.{Config}
use tfbuddy.Comment.{ArgsParser}
use tfbuddy.Project.{Glob, Decoder}
use tfbuddy.Effects.{Call, ok, err, World, Io, History, pure, fail, attempt, on_result, ◌>>=◌}
use tfbuddy.GitlabHooks.{
  NoteEvent, MergeRequestEvent, process_note_event, process_merge_request_event,
}

abbrev pub returned : Option Error → Io (Unit {0})
returned none = pure tt
returned (some e) = fail e

-- `_, err = process(msg)`, and `return utils.EmitPermanentError(err, ...)`, whose handler only logs.
unfoldable pub handed_back : Io (Unit {0}) → Io (Unit {0})
handed_back process =
    attempt process >>= on_result (λ e. returned (emit_permanent_error (some e))) pure

module _ (glob : Glob) (decoder : Decoder) (parse_args : ArgsParser) (w : World) (cfg : Config)
    (has_stream : Bool) where
  unfoldable pub process_note_event_stream_msg : NoteEvent → Io (Unit {0})
  process_note_event_stream_msg msg =
      handed_back (process_note_event glob decoder parse_args w cfg has_stream msg)

  unfoldable pub process_mr_event_stream_msg : MergeRequestEvent → Io (Unit {0})
  process_mr_event_stream_msg msg =
      handed_back (process_merge_request_event glob decoder parse_args w cfg has_stream msg)

-- A permanent error is not handed back, so that its event is not delivered again.
handed_back-permanent :
    (process : Io (Unit {0})) (h : History) (e : Error) (calls : List Call)
    → process h ≡ (err e, calls)
    → is_error e permanent ≡ true
    → (handed_back process h).0 ≡ ok tt
unfolding handed_back ◌>>=◌ attempt on_result pure fail emit_permanent_error
handed_back-permanent process h e calls p q = rw p (rw q refl)

-- Another error is.
handed_back-transient :
    (process : Io (Unit {0})) (h : History) (e : Error) (calls : List Call)
    → process h ≡ (err e, calls)
    → is_error e permanent ≡ false
    → (handed_back process h).0 ≡ err e
unfolding handed_back ◌>>=◌ attempt on_result pure fail emit_permanent_error
handed_back-transient process h e calls p q = rw p (rw q refl)
