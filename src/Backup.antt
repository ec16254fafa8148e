-- ===== src/Backup.antt =====
-- The backups of service/backup_*.go.
pub mod Hold
pub mod Schedule
pub mod Retention
pub mod Inventory
pub mod Plan
pub mod Scheduler
