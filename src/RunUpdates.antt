-- ===== src/RunUpdates.antt =====
-- The status updates of runs on merge requests: pkg/vcs/gitlab (run_status_updater.go,
-- mr_status_updater.go, mr_comment_updater.go) and pkg/vcs/github/run_events_worker.go.
pub mod Statuses
pub mod Comments
pub mod Merging
pub mod Merged
