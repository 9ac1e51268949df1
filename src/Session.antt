-- ===== src/Session.antt =====
-- scripts/session-activity.py: is anyone playing or streaming on this machine?
pub mod Varint
pub mod Socket
pub mod Java
pub mod Bedrock
pub mod Sunshine
pub mod Check
mod Tests
