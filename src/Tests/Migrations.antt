-- ===== src/Tests/Migrations.antt =====
-- Examples of the migration of a stream, of the health checks, and of the jobs of CI.
use tfbuddy.Prelude.{
  ◌≡◌, refl, ◌↔◌, All, Bool, true, false, none, some, List, [], ◌∷◌, ◌++◌, any, ltb, length,
  if◌then◌else◌, arith,
}
use tfbuddy.Text.{Text, lit, text_eq, has_prefix}
use tfbuddy.Errors.{plain}
use tfbuddy.Effects.{ok}
use tfbuddy.Requests.Since.{Since}
use tfbuddy.Streams.{
  limits, work_queue, StreamConfig, NatsCall, stream_info, add_stream, InfoReply, found, not_found,
  JetStream, wait_for_sync, add_or_update_stream,
}
use tfbuddy.Streams.Waiting.{Syncs, reads, wait_for_sync-Syncs}
use tfbuddy.Streams.Deletions.{Deletes}
use tfbuddy.Streams.Migration.{CaughtUp, add_or_update_stream-Since}
use tfbuddy.Requests.{◌>>=◌, pure, query, receive, ignored, map_error}
use tfbuddy.CiJobs.{
  CiRun, CiApi, read_workspace, read_run, cancel_run, create_run, org_name, run_message_prefix,
  start_scheduled_run, get_current_run, get_workspace, read_current, found_workspace,
  print_run_info, queue_run, should_schedule_new_run, is_unfinished_run, can_cancel_run,
  cancel_hung,
}
use tfbuddy.CiJobs.Scheduling.{Cleared, Acts, start_scheduled_run-Since}
use tfbuddy.CiJobs.Monitor.{
  CiEnv, MonitorApi, PlannedRun, Wait, get_run, description_of, success_plan_summary,
  run_is_running, wait_for_run_completion_or_failure,
}
use tfbuddy.CiJobs.Waits.{Stops, run_reads, summary, wait_for_run_completion_or_failure-Posts}
use tfbuddy.Streams.Setup.{hooks_stream_name}
use tfbuddy.Streams.Health.{health_check, IsServed, health_check-none_iff}

abbrev events : Text
events = lit "RUN_EVENTS"

abbrev old_config : StreamConfig
old_config = record {
  name = events;
  subjects = lit "RUN_EVENTS.*" ∷ [];
  retention = limits;
  sources = [];
  description = [];
  max_msgs = 10240;
  max_age = 3600;
  replicas = 1;
}

abbrev new_config : StreamConfig
new_config = record old_config { retention = work_queue }

abbrev adds : NatsCall → Bool
adds (add_stream cfg) = true
adds _ = false

-- The stream is there with its old retention; a migration stream lags at first.
abbrev lagging_infos : List NatsCall → NatsCall → InfoReply
lagging_infos h (stream_info name) =
    if text_eq name events
    then found (record { config = old_config; lags = [] })
    else (if any adds h
        then found (record { config = old_config; lags = (if ltb (length h) 5 then 7 else 0) ∷ [] })
        else not_found (plain (lit "nats: stream not found")))
lagging_infos h _ = not_found (plain (lit "nats: stream not found"))

abbrev lagging : JetStream
lagging = record { infos = lagging_infos; done = λ h c. ok tt; clock = λ h. 100 }

migration_example :
    Since
      (CaughtUp lagging events)
      (Deletes events)
      []
      (add_or_update_stream lagging 2 9 new_config []).1
migration_example = add_or_update_stream-Since lagging 2 9 new_config []

-- The second read shows no lag.
abbrev slow : JetStream
slow = record {
  infos = λ h c.
      found (record { config = old_config; lags = (if ltb (length h) 1 then 7 else 0) ∷ [] });
  done = λ h c. ok tt;
  clock = λ h. 100;
}

waits_for_lag : wait_for_sync slow 2 events [] ≡ (ok tt, reads slow events 2)
waits_for_lag =
    wait_for_sync-Syncs slow events 2 1 []
      (Syncs.lags (record { config = old_config; lags = 7 ∷ [] }) refl refl
        (Syncs.synced (record { config = old_config; lags = 0 ∷ [] }) refl refl))
      (omega arith)

-- The current run was scheduled, and hangs.
abbrev hung : CiRun
hung = record { id = lit "run-1"; status = lit "planning"; message = run_message_prefix }

abbrev hung_api : CiApi
hung_api = record {
  workspaces = λ h c. ok (some (record { id = lit "ws-1"; current_run = some (lit "run-1") }));
  runs = λ h c. ok hung;
  done = λ h c. ok tt;
}

replaces_hung :
    (start_scheduled_run hung_api (lit "network") []).1
    ≡ read_workspace org_name (lit "network")
      ∷ read_run (lit "run-1")
      ∷ cancel_run (lit "run-1")
      ∷ read_workspace org_name (lit "network")
      ∷ create_run (lit "ws-1") run_message_prefix
      ∷ []
unfolding start_scheduled_run get_current_run get_workspace read_current found_workspace
    print_run_info queue_run should_schedule_new_run is_unfinished_run can_cancel_run cancel_hung
    ◌>>=◌ pure query receive ignored map_error lit text_eq has_prefix
replaces_hung = refl

scheduled_example :
    Since
      (Cleared hung_api (lit "network"))
      Acts
      []
      (start_scheduled_run hung_api (lit "network") []).1
scheduled_example = start_scheduled_run-Since hung_api (lit "network") []

health_example :
    (health_check (hooks_stream_name ∷ []) (
        record { name = hooks_stream_name; consumers = 0 }
        ∷ record { name = events; consumers = 0 }
        ∷ [])
      ≡ none)
    ↔ All (IsServed (hooks_stream_name ∷ [])) (
        record { name = hooks_stream_name; consumers = 0 }
        ∷ record { name = events; consumers = 0 }
        ∷ [])
health_example = health_check-none_iff (hooks_stream_name ∷ []) (
    record { name = hooks_stream_name; consumers = 0 }
    ∷ record { name = events; consumers = 0 }
    ∷ [])

abbrev job_env : CiEnv
job_env = record {
  ci_project_id = lit "12";
  ci_commit_sha = lit "c0ffee";
  ci_merge_request_iid = lit "5";
}

abbrev run_in : Text → PlannedRun
run_in status = record { status = status; plan = some (1, (2, 3)) }

-- The run is planning at the first read, and planned at the next one.
abbrev job_api : MonitorApi
job_api = record {
  statuses = λ h c. [];
  runs = λ h c. ok (run_in (if ltb (length h) 1 then lit "planning" else lit "planned"));
  done = λ h c. ok tt;
}

abbrev job_wait : Wait
job_wait = record {
  commit_status = record {
    name = lit "Terraform Cloud/network";
    status = lit "pending";
    description = [];
    target_url = lit "https://app.terraform.io/runs/run-1";
  };
  ws_name = lit "network";
  run_id = lit "run-1";
}

planning_runs : run_is_running (some (run_in (lit "planning"))) ≡ true
unfolding run_is_running lit text_eq
planning_runs = refl

planned_stopped : run_is_running (some (run_in (lit "planned"))) ≡ false
unfolding run_is_running lit text_eq
planned_stopped = refl

posts_example : wait_for_run_completion_or_failure job_env job_api job_wait [] ≡ (
  ok tt,
  run_reads job_env job_api job_wait 2
      ++ get_run (lit "run-1")
        ∷ summary job_env job_api job_wait (run_in (lit "planned")) (success_plan_summary 1 2 3)
        ∷ [],
)
unfolding description_of lit text_eq
posts_example =
    wait_for_run_completion_or_failure-Posts job_env job_api job_wait 1 [] (run_in (lit "planned"))
      (success_plan_summary 1 2 3)
      (Stops.runs_on (run_in (lit "planning")) refl planning_runs
        (Stops.stopped (run_in (lit "planned")) refl planned_stopped))
      (omega arith) refl refl
