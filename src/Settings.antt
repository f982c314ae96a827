-- ===== src/Settings.antt =====
-- The settings store (settings_store.h, settings_store.cpp).
pub mod Store
pub mod Keys
pub mod RoundTrip
mod Tests
