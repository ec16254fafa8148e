-- ===== src/Restic.antt =====
-- pkg/restic: the router over restic and rclone.
pub mod Router
