-- ===== src/Device.antt =====
-- The whole device: the serial console and the main program over the managers (serial_console.h,
-- serial_console.cpp, main.cpp).
pub mod State
pub mod Console
pub mod Loop
pub mod Invariant
pub mod Keyboard
mod Tests
