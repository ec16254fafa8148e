-- ===== src/GitApps.antt =====
-- The apps deployed from their git repositories: service/git_*.go.
pub mod State
pub mod Automatic
pub mod View
pub mod Signature
pub mod Webhook
pub mod Receive
