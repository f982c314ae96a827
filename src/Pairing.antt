-- ===== src/Pairing.antt =====
-- The pairing manager (pairing.h, pairing.cpp): the control link to the paired Mac. `State` to
-- `Manager` hold the code's definitions, the other modules prove what they are named for.
pub mod State
pub mod Token
pub mod Send
pub mod Link
pub mod Discovery
pub mod Snapshot
pub mod Receive
pub mod Manager
pub mod Events
pub mod Frame
pub mod Backoff
pub mod Decode
pub mod Sending
pub mod Lines
pub mod Silence
pub mod Session
pub mod SnapshotLaws
pub mod Manual
pub mod Authentication
pub mod Invariant
pub mod Fixture
mod Tests
