-- ===== src/Vcs.antt =====
-- The clients of pkg/vcs/gitlab and pkg/vcs/github, over the calls of their libraries.
pub mod OldRuns
pub mod Gitlab
pub mod Github
