-- ===== src/Keys.antt =====
-- The key path: the key map (keymap.cpp) and the key transmitter (key_tx.cpp).
pub mod Keymap
pub mod Transmitter
pub mod Bounds
pub mod Latching
pub mod Balance
mod Tests
