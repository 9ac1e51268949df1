-- ===== src/Digest.antt =====
-- scripts/log-digest.py: the weekly digest of container errors that repeat.
pub mod Fetch
pub mod Groups
pub mod Compose
pub mod Discord
pub mod Main
mod Tests
