-- ===== src/Lidarr.antt =====
-- The downloads of albums: the scheduler of stacks/lidarr-ytdl/patches, and the audit of
-- scripts/lidarr-ytdl-audit.py.
pub mod Scheduler
pub mod Audit
mod Tests
