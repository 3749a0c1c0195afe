-- ===== src/Lib.antt =====
-- Verification of tfbuddy, the server that runs Terraform Cloud workspaces from merge requests.
--
-- A webhook of GitLab or GitHub, or a comment such as "tfc apply", becomes a trigger
-- (pkg/tfc_trigger). The trigger reads the project's .tfbuddy.yaml, finds the workspaces that the
-- modified files touch, drops those that the allow and deny lists or changes on the target branch
-- stop, and runs each of them, inline or through a stream whose workers run one workspace per
-- message. An apply locks its workspace by a tag that names the merge request. A run's metadata is
-- stored, and its progress comes back as events or by polling (pkg/runstream).
--
-- How the program is modelled: a Go string is the list of its code points (Text); an error is a
-- value (Errors). A function that calls a service is a program of Effects: it takes the calls made
-- before it, returns its result or its error, and the calls that it made, in order. What a call
-- answers is an arbitrary function of the calls before it, so that every theorem holds for every
-- behaviour of the services, failures included. A program of Requests does the same over the calls of
-- one client library. Logs, traces and metrics are left out, and so is the wall-clock time that a retry
-- waits. A panic is left out but in Plan and CiJobs, where it is a result.
--
-- Files and what they model:
--   Prelude, Text, Paths       shared lemmas; the strings, strconv and path packages
--   Errors                     pkg/utils/error.go and the errors that packages declare
--   Config                     internal/config/config.go
--   Types                      the records that the components hand to one another
--   Effects                    calls, programs, and the rules for what they call
--   AllowList                  pkg/allow_list, pkg/tfc_trigger/workspace_allowdeny_list.go
--   Locks                      FindLockingMR of pkg/tfc_trigger/tfc_trigger.go
--   Project                    pkg/tfc_trigger/project_config.go
--   TfcClient                  pkg/tfc_api
--   Marker                     pkg/utils/formatter.go
--   Runstream                  pkg/runstream
--   Trigger.Runs               triggerRunForWorkspace and what it calls
--   Trigger.Dispatching        dispatchWorkspaces
--   Trigger.Events             TriggerTFCEvents
--   Trigger.Cleanup            TriggerCleanupEvent
--   Trigger.Worker             pkg/tfc_trigger/workspace_worker.go and the key of a message
--   Comment                    pkg/comment_actions/parsing.go
--   GitlabHooks                pkg/gitlab_hooks/comment_actions.go and mr_actions.go
--   GitlabHooks.Handler        pkg/gitlab_hooks/handler.go
--   GitlabHooks.Queue          pkg/gitlab_hooks/hook_worker.go
--   GithubHooks                pkg/vcs/github/hooks/stream_worker.go
--   TfcHooks                   pkg/tfc_hooks/notification.go and polling.go
--   Formatter                  pkg/comment_formatter/tfc_status_update.go
--   RunUpdates.Statuses        pkg/vcs/gitlab/mr_status_updater.go
--   RunUpdates.Comments        pkg/vcs/gitlab/mr_comment_updater.go, run_status_updater.go, and
--                              pkg/vcs/github/run_events_worker.go
--   Requests                   requests of the clients, and what they rely on of package backoff
--   Vcs.OldRuns                GetOldRunUrls of both clients, as far as it reads notes
--   Vcs.Gitlab, Vcs.Github     pkg/vcs/gitlab/client.go and pkg/vcs/github/client.go
--   Plan                       pkg/terraform_plan/plan_parser.go
--   Streams                    pkg/runstream/stream.go, pkg/hooks_stream/hooks_stream.go
--   Streams.Setup, .Health     the streams of the program, pkg/tfc_trigger/workspace_stream.go
--   CiJobs                     pkg/tfc_utils/ci_job_runner.go and ci_job_lock.go
--   CiJobs.Monitor             pkg/tfc_utils/ci_job_run_status.go
--   Config.Bindings            the settings of internal/config/config.go and their documentation
--   Trigger.Tags, .Owner       what Terraform Cloud keeps of a workspace's tags, and whose lock they are
--   Trigger.Turns              applies, plans and clean-ups that follow one another
-- The other modules below these hold theorems, named for what they prove, and Tests holds examples.
--
-- Functions carry the names of the source in snake case: triggerRunForWorkspace is
-- trigger_run_for_workspace. A long function is cut where it branches, and its parts are named for
-- what they do: act_on, change_lock, start_run, acquire_lock, clear_stale_lock and launch are
-- triggerRunForWorkspace.
--
-- The lock of a workspace is a tag that Terraform Cloud keeps. Trigger.Tags says what its
-- documentation says of tags, as a hypothesis; Trigger.Mutex has the lock as its users see it, of one
-- owner or none; and Trigger.Turns has whole turns that follow one another, not calls that overlap.
--
-- Bounds and fuel: pollCVWhilePending makes thirty rounds, as in the source; the metadata of a run
-- is retried three times, as its backoff is set up, whose time is the package's fifteen minutes and is
-- not modelled; itoa takes as much fuel as its number, which
-- is at least its digits. The loop over GitLab's pages takes as much fuel as there are pages, and
-- the wait for a stream as much as there are reads of it; a CI job waits 360 rounds, as in the
-- source. Migrations nest as deep as there are migration streams already. Numbers that the source
-- keeps in an int are natural numbers here, except that atoi fails from 2 ^ 63 on.
--
-- Third-party code is a parameter: the glob matcher (doublestar), the YAML decoder with its
-- validation, the parser of flags (go-flags), the binder of a webhook's body (echo), the names of
-- GitLab's events (gogitlab), the replies of gogitlab, gogithub, go-tfe and NATS, the decoder of a
-- plan and its tests of actions (terraform-json), its template, and SHA-256; so is package backoff of
-- the clients, of which Requests.Tries says what the code relies on, and for a commit status the
-- number of retries that its time allows. Not modelled: git with the clone
-- of a merge request, HTTP servers and GitHub's webhooks, JSON encodings, run tasks, the set-up of
-- key-value stores, the reading of settings by viper and pflag, and the commands of cmd.
pub mod Prelude
pub mod Text
pub mod Errors
pub mod Config
pub mod Types
pub mod Effects
pub mod AllowList
pub mod Paths
pub mod Locks
pub mod Project
pub mod TfcClient
pub mod Marker
pub mod Runstream
pub mod Trigger
pub mod Comment
pub mod GitlabHooks
pub mod GithubHooks
pub mod TfcHooks
pub mod Formatter
pub mod RunUpdates
mod Tests
pub mod Requests
pub mod Vcs
pub mod Plan
pub mod Streams
pub mod CiJobs
