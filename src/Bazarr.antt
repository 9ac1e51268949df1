-- ===== src/Bazarr.antt =====
-- stacks/arr-stack/scripts/bazarr-translate-missing-es.py: a run that has missing Spanish subtitles
-- translated, one item after the other.
pub mod Attempts
pub mod Paths
pub mod Errors
pub mod Item
pub mod Run
mod Tests
