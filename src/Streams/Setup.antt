-- ===== src/Streams/Setup.antt =====
-- How the streams of the program are set up: pkg/runstream, pkg/hooks_stream/hooks_stream.go, and
-- pkg/tfc_trigger/workspace_stream.go.
use tfbuddy.Prelude.{ℕ, [], ◌∷◌, ◌++◌}
use tfbuddy.Text.{Text, lit}
use tfbuddy.Errors.{Error, plain, wrap}
use tfbuddy.Requests.{Req, ◌>>=◌, ◌>>◌, fail, query, receive, map_error, ignored}
use tfbuddy.Streams.{
  work_queue, StreamConfig, NatsCall, stream_info, add_stream, update_stream, InfoReply, found,
  not_found, failed, JetStream, add_or_update_stream,
}

abbrev pub run_events_stream_name : Text
run_events_stream_name = lit "RUN_EVENTS"

abbrev pub run_polling_stream_name : Text
run_polling_stream_name = lit "RUN_POLLING"

abbrev pub run_polling_kv_name : Text
run_polling_kv_name = lit "POLLING_TASKS"

abbrev pub hooks_stream_name : Text
hooks_stream_name = lit "HOOKS"

abbrev pub workspace_trigger_stream_name : Text
workspace_trigger_stream_name = lit "TFBUDDY_WORKSPACE_TRIGGERS"

abbrev pub run_events_config : StreamConfig
run_events_config = record {
  name = run_events_stream_name;
  subjects = (run_events_stream_name ++ lit ".*") ∷ [];
  retention = work_queue;
  sources = [];
  description = lit "Terraform Cloud Run Notifications";
  max_msgs = 10240;
  max_age = 21600;
  replicas = 1;
}

abbrev pub run_polling_config : StreamConfig
run_polling_config = record {
  name = run_polling_stream_name;
  subjects = (run_polling_stream_name ++ lit ".*") ∷ [];
  retention = work_queue;
  sources = [];
  description = lit "Terraform Cloud Run Polling Tasks";
  max_msgs = 1024;
  max_age = 21600;
  replicas = 1;
}

abbrev pub hooks_config : StreamConfig
hooks_config = record {
  name = hooks_stream_name;
  subjects = (hooks_stream_name ++ lit ".>") ∷ [];
  retention = work_queue;
  sources = [];
  description = lit "Gitlab/Github Hooks Stream";
  max_msgs = 10240;
  max_age = 3600;
  replicas = 1;
}

abbrev pub workspace_config : ℕ → StreamConfig
workspace_config workspace_stream_replicas = record {
  name = workspace_trigger_stream_name;
  subjects = (workspace_trigger_stream_name ++ lit ".>") ∷ [];
  retention = work_queue;
  sources = [];
  description = lit "Fan-out queue: one message per workspace dispatched by an MR/PR trigger";
  max_msgs = 10240;
  max_age = 3600;
  replicas = workspace_stream_replicas;
}

-- `fmt.Errorf("could not <verb> <name> stream: %w", err)`
abbrev pub could_not : Text → Text → Text → Error → Error
could_not verb name behind = wrap (lit "could not " ++ verb ++ name ++ behind)

module _ (js : JetStream) where
  -- The errors are logged only.
  unfoldable pub configure_run_streams : ℕ → ℕ → Req NatsCall (Unit {0})
  configure_run_streams depth fuel =
      ignored (add_or_update_stream js depth fuel run_events_config)
      >> ignored (add_or_update_stream js depth fuel run_polling_config)

  -- A failure of the last call ends the program; an info that cannot be read counts as none.
  unfoldable pub hooks_stream_from : InfoReply → Req NatsCall (Unit {0})
  hooks_stream_from (found info) = query js.done (update_stream hooks_config)
  hooks_stream_from (not_found e) = query js.done (add_stream hooks_config)
  hooks_stream_from (failed e) = query js.done (add_stream hooks_config)

  unfoldable pub configure_hooks_stream : Req NatsCall (Unit {0})
  configure_hooks_stream = receive js.infos (stream_info hooks_stream_name) >>= λ reply.
      map_error (λ e. plain (lit "could not setup hook streams, good bye."))
        (hooks_stream_from reply)

  unfoldable pub workspace_stream_from : StreamConfig → InfoReply → Req NatsCall (Unit {0})
  workspace_stream_from cfg (not_found e) =
      map_error (could_not (lit "create ") cfg.name (lit " stream: "))
        (query js.done (add_stream cfg))
  workspace_stream_from cfg (failed e) =
      fail (could_not (lit "read ") cfg.name (lit " stream info: ") e)
  workspace_stream_from cfg (found info) =
      map_error (could_not (lit "update ") cfg.name (lit " stream: "))
        (query js.done (update_stream cfg))

  unfoldable pub new_workspace_stream : ℕ → Req NatsCall (Unit {0})
  new_workspace_stream workspace_stream_replicas =
      receive js.infos (stream_info workspace_trigger_stream_name)
      >>= workspace_stream_from (workspace_config workspace_stream_replicas)
