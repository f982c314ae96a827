-- ===== src/Bridge.antt =====
-- The Mac's side of the audio datagrams (bridge/agent).
pub mod Protocol
pub mod Delivery
mod Tests
