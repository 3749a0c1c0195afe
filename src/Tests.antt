-- ===== src/Tests.antt =====
-- Runs of the definitions, and the theorems at concrete inputs.
mod Texts
mod Samples
mod Lists
mod Dirs
mod Actions
mod Streams
mod Updates
mod Webhooks
mod Locking
mod Migrations
mod Providers
