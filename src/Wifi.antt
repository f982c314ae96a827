-- ===== src/Wifi.antt =====
-- The WiFi manager (wifi_mgr.h, wifi_mgr.cpp): the saved networks, the scan and the reconnects.
pub mod State
pub mod Scan
pub mod Manager
pub mod Invariant
pub mod Networks
pub mod Listing
pub mod Saved
pub mod Refinement
mod Tests
