-- ===== src/LogStore.antt =====
-- pkg/logstore: the containers' logs.
pub mod Hub
pub mod Line
pub mod Purge
pub mod Query
