-- ===== src/CiJobs.antt =====
-- pkg/tfc_utils/ci_job_runner.go: the scheduled runs that a CI job starts, and ci_job_lock.go: the lock
-- and unlock commands. The calls of go-tfe are
-- requests, and the construction of its client is left out.
pub mod Scheduling
pub mod Monitor
pub mod Waits
use tfbuddy.Prelude.{
  Bool, true, false, Option, none, some, List, [], ◌∷◌, if◌then◌else◌, ◌++◌, any, not, ◌||◌,
}
use tfbuddy.Text.{Text, lit, text_eq, has_prefix}
use tfbuddy.Errors.{Error, plain, error_text}
use tfbuddy.Effects.{Res, ok, err}
use tfbuddy.Requests.{Req, ◌>>=◌, ◌>>◌, pure, fail, query, receive, map_error, ignored}

pub record CiRun : Type 0 where
  pub id : Text
  pub status : Text
  pub message : Text

-- The current run is given by its id.
pub record CiWorkspace : Type 0 where
  pub id : Text
  pub current_run : Option Text

pub data CiCall : Type 0 where
  read_workspace : Text → Text → CiCall
  read_run : Text → CiCall
  cancel_run : Text → CiCall
  create_run : Text → Text → CiCall
  lock_workspace : Text → Text → CiCall
  unlock_workspace : Text → CiCall

pub record CiApi : Type 0 where
  pub workspaces : List CiCall → CiCall → Res (Option CiWorkspace)
  pub runs : List CiCall → CiCall → Res CiRun
  pub done : List CiCall → CiCall → Res (Unit {0})

abbrev pub org_name : Text
org_name = lit "foo-corp"

abbrev pub run_message_prefix : Text
run_message_prefix = lit "GitLab CI Scheduled"

-- The statuses of `isUnfinishedRun`.
abbrev pub unfinished_statuses : List Text
unfinished_statuses =
    lit "apply_queued"
    ∷ lit "applying"
    ∷ lit "confirmed"
    ∷ lit "cost_estimated"
    ∷ lit "cost_estimating"
    ∷ lit "plan_queued"
    ∷ lit "policy_checked"
    ∷ lit "policy_checking"
    ∷ lit "policy_soft_failed"
    ∷ lit "policy_override"
    ∷ lit "planned"
    ∷ lit "planning"
    ∷ lit "pending"
    ∷ []

unfoldable pub is_unfinished_run : Option CiRun → Bool
is_unfinished_run none = false
is_unfinished_run (some run) = any (text_eq run.status) unfinished_statuses

unfoldable pub can_cancel_run : Option CiRun → Bool
can_cancel_run none = false
can_cancel_run (some run) =
    not (text_eq run.status (lit "policy_checked") || text_eq run.status (lit "policy_override"))

abbrev pub is_scheduled : Option CiRun → Bool
is_scheduled none = false
is_scheduled (some run) = has_prefix run.message run_message_prefix

-- Whether a run is to be created, and whether the current one is cancelled before.
unfoldable pub should_schedule_new_run : Option CiRun → Bool × Bool
should_schedule_new_run current =
    if is_unfinished_run current
    then (if is_scheduled current
        then (if can_cancel_run current then (true, true) else (false, false))
        else (false, false))
    else (true, false)

-- The panic of a nil pointer, and the ends of the program by `Fatal`.
abbrev pub nil_pointer : Error
nil_pointer = plain (lit "invalid memory address or nil pointer dereference")

-- What is logged reads the run, also where there is none.
unfoldable pub print_run_info : Option CiRun → Req CiCall (Unit {0})
print_run_info none = fail nil_pointer
print_run_info (some run) = pure tt

unfoldable pub found_workspace : Text → Option CiWorkspace → Req CiCall CiWorkspace
found_workspace ws_name none = fail (plain (lit "Workspace (" ++ ws_name ++ lit ") not found"))
found_workspace ws_name (some ws) = pure ws

-- The value of a reply that may be an error; an error that is only logged leaves nil.
abbrev pub or_nil : {A : Type 0} → Res (Option A) → Option A
or_nil (ok a) = a
or_nil (err e) = none

abbrev pub run_or_nil : Res CiRun → Option CiRun
run_or_nil (ok run) = some run
run_or_nil (err e) = none

module _ (api : CiApi) where
  -- `log.Fatal().Err(err)` without a message does not end the program, but the nil workspace does.
  unfoldable pub get_workspace : Text → Req CiCall CiWorkspace
  get_workspace ws_name = receive api.workspaces (read_workspace org_name ws_name) >>= λ reply.
      found_workspace ws_name (or_nil reply)

  unfoldable pub read_current : Option Text → Req CiCall (Option CiRun)
  read_current none = pure none
  read_current (some id) = receive api.runs (read_run id) >>= λ reply. pure (run_or_nil reply)

  unfoldable pub get_current_run : Text → Req CiCall (Option CiRun)
  get_current_run ws_name = get_workspace ws_name >>= λ ws. read_current ws.current_run

  unfoldable pub cancel_hung : Option CiRun → Req CiCall (Unit {0})
  cancel_hung none = fail nil_pointer
  cancel_hung (some run) = ignored (query api.done (cancel_run run.id))

  abbrev failed_to_queue : Error → Error
  failed_to_queue e = plain (lit "failed to queue new run: " ++ error_text e)

  unfoldable pub queue_run : Text → Option CiRun → Req CiCall (Unit {0})
  queue_run workspace current =
      let (schedules, cancels) = should_schedule_new_run current in
      if schedules
      then (if cancels then cancel_hung current else pure tt)
        >> (get_workspace workspace >>= λ ws.
            map_error failed_to_queue (query api.runs (create_run ws.id run_message_prefix))
            >>= λ run. print_run_info (some run))
      else pure tt

  unfoldable pub start_scheduled_run : Text → Req CiCall (Unit {0})
  start_scheduled_run workspace =
      get_current_run workspace >>= λ current. print_run_info current >> queue_run workspace current

  -- `log.Fatal().Err(err)` without a message does not end the program: the error is lost.
  unfoldable pub lock_unlock : Text → Bool → Text → Req CiCall (Unit {0})
  lock_unlock workspace lock reason =
      if lock
      then ignored (query api.done (lock_workspace workspace reason))
      else ignored (query api.done (unlock_workspace workspace))
