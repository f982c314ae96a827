-- ===== src/Ui.antt =====
-- The controller of the device's screen, keyboard and power (ui.h, ui.cpp).
pub mod State
pub mod Characters
pub mod Input
pub mod Power
pub mod Battery
pub mod Visual
pub mod Layout
pub mod Pages
pub mod Forms
pub mod Controller
pub mod Invariant
pub mod Cutting
pub mod Charge
pub mod Ellipsis
pub mod Reading
pub mod Fitting
pub mod Fixture
mod Tests
