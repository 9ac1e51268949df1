-- ===== src/LiveTv.antt =====
-- The programs that feed live television: the playlist of stacks/threadfin/generate_live_m3u.py and the
-- guide of stacks/schedulesdirect-epg/generate_schedulesdirect_epg.py.
pub mod Tables
pub mod Playlist
pub mod Stations
pub mod Guide
mod Tests
