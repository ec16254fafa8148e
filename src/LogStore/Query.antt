-- ===== src/LogStore/Query.antt =====
-- pkg/logstore/query.go: reading the history of the logs.
pub mod Reader
pub mod Cursor
pub mod Filter
pub mod Pager
