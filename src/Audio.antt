-- ===== src/Audio.antt =====
-- The audio transmitter (audio_tx.h, audio_tx.cpp): the capture task, the ring and the sender task.
pub mod State
pub mod Capture
pub mod Sender
pub mod Events
pub mod Laws
pub mod Privacy
pub mod Reading
pub mod Activity
mod Tests
