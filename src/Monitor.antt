-- ===== src/Monitor.antt =====
-- scripts/netmon.py: what Plex is serving, the counters of the modem, and when the line is tested.
pub mod Sessions
pub mod Modem
pub mod Main
pub mod Buffering
mod Tests
