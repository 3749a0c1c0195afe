-- ===== src/Streams/Health.antt =====
-- The health checks of the streams: pkg/runstream/stream.go, pkg/hooks_stream/hooks_stream.go, and
-- pkg/tfc_trigger/workspace_stream.go.
use tfbuddy.Prelude.{
  ℕ, ◌≡◌, refl, ◌↔◌, ◌≤◌, true, Option, none, some, List, [], ◌∷◌, ◌++◌, All, any, ltb,
  if◌then◌else◌, arith,
}
use tfbuddy.Text.{Text, lit, text_eq}
use tfbuddy.Errors.{Error, plain, wrap}
use tfbuddy.Streams.Setup.{
  run_polling_stream_name, run_polling_kv_name, hooks_stream_name, workspace_trigger_stream_name,
}

-- What the checks read of a stream: its name and the number of its consumers.
pub record StreamState : Type 0 where
  pub name : Text
  pub consumers : ℕ

abbrev pub no_consumers : Text → Error
no_consumers name = plain (name ++ lit " stream has no consumers")

-- The loop over the streams; `watched` are the names that its switch looks at.
unfoldable pub health_check : List Text → List StreamState → Option Error
health_check watched [] = none
health_check watched (s ∷ streams) =
    let rest = health_check watched streams in
    if any (text_eq s.name) watched
    then (if ltb s.consumers 1 then some (no_consumers s.name) else rest)
    else rest

-- `Stream.HealthCheck` and `HooksStream.HealthCheck`
unfoldable pub run_stream_health : List StreamState → Option Error
run_stream_health = health_check (run_polling_kv_name ∷ run_polling_stream_name ∷ [])

unfoldable pub hooks_stream_health : List StreamState → Option Error
hooks_stream_health = health_check (hooks_stream_name ∷ [])

-- The read of the info of the workspace stream.
pub data StateReply : Type 0 where
  has_state : StreamState → StateReply
  not_there : StateReply
  unread : Error → StateReply

-- `WorkspaceStream.HealthCheck` of a stream that is configured.
unfoldable pub workspace_stream_health : StateReply → Option Error
workspace_stream_health not_there =
    some (plain (workspace_trigger_stream_name ++ lit " stream not found in JetStream"))
workspace_stream_health (unread e) =
    some (wrap (lit "could not read " ++ workspace_trigger_stream_name ++ lit " stream info: ") e)
workspace_stream_health (has_state s) =
    if ltb s.consumers 1 then some (no_consumers s.name) else none

module _ (watched : List Text) where
  -- A stream that is watched has a consumer.
  abbrev pub IsServed : StreamState → Type 0
  IsServed s = any (text_eq s.name) watched ≡ true → 1 ≤ s.consumers

  served :
      (s : StreamState) (streams : List StreamState)
      → health_check watched (s ∷ streams) ≡ none
      → IsServed s × (health_check watched streams ≡ none)
  unfolding health_check
  served s streams e = (λ w. ground (arith, e, w), ground (arith, e))

  health_check-IsServed :
      (streams : List StreamState) → health_check watched streams ≡ none → All IsServed streams
  health_check-IsServed [] e = tt
  health_check-IsServed (s ∷ streams) e =
      let (p, q) = served s streams e in (p, health_check-IsServed streams q)

  IsServed-health_check :
      (streams : List StreamState) → All IsServed streams → health_check watched streams ≡ none
  unfolding health_check
  IsServed-health_check [] q = refl
  IsServed-health_check (s ∷ streams) (p, q) = ground (arith, p, IsServed-health_check streams q)

  -- A health check of streams reports no error exactly when each stream that it watches, of those that
  -- are there, has a consumer.
  pub health_check-none_iff :
      (streams : List StreamState) → (health_check watched streams ≡ none) ↔ All IsServed streams
  health_check-none_iff streams = (health_check-IsServed streams, IsServed-health_check streams)
