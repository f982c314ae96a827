-- ===== src/Wifi/State.antt =====
-- firmware/m5stack-cardputer-adv/src/wifi_mgr.h: the state of `WifiManager`, what the WiFi driver
-- answers during one call, and the calls that the manager makes of it.
use cardputer_codex_deck.Base.{ℕ, Bool, false, Option, none, List, [], Text, ℤ}
use cardputer_codex_deck.Models.{WifiNetwork}

pub record WifiScanResult : Type 0 where
  pub ssid : Text
  pub rssi : ℤ
  pub encrypted : Bool
  pub saved : Bool

-- `WiFi.SSID(i)`, `WiFi.RSSI(i)` and `WiFi.encryptionType(i) != WIFI_AUTH_OPEN` after a scan.
pub record Access : Type 0 where
  pub ssid : Text
  pub rssi : ℤ
  pub encrypted : Bool

-- A call of the driver or of the settings store.
pub data WifiCall : Type 0 where
  disconnect : WifiCall
  begin : Text → Text → WifiCall
  save_wifi_networks : List WifiNetwork → WifiCall

-- `saved_`, `scan_` are the lists of their first `savedCount_`, `scanCount_` entries. `worker` says
-- that the scan worker runs, `scan_result` is what waits in the queue: what the driver found, no
-- entry after a failed scan. `calls` are the calls made, newest first.
pub record WifiManager : Type 0 where
  pub saved : List WifiNetwork
  pub scan : List WifiScanResult
  pub scanning : Bool
  pub pending_scan : Bool
  pub scan_result_queue : Bool
  pub scan_result : Option (List Access)
  pub worker : Bool
  pub needs_setup : Bool
  pub last_scan_start_ms : ℕ
  pub scan_ever_succeeded : Bool
  pub connect_started_ms : ℕ
  pub last_reconnect_ms : ℕ
  pub reconnect_index : ℕ
  pub reconnect_attempts : ℕ
  pub calls : List WifiCall

-- What a call finds: the clock, `WiFi.status() == WL_CONNECTED`, `WiFi.SSID()`, `WiFi.RSSI()`,
-- whether the worker can be created, and `std::sort` by falling strength, which may order equal
-- ones either way.
pub record WifiEnv : Type 0 where
  pub now : ℕ
  pub connected : Bool
  pub ssid : Text
  pub rssi : ℤ
  pub task_started : Bool
  pub sort : List WifiScanResult → List WifiScanResult

-- The members' initial values in wifi_mgr.h.
abbrev pub initial : WifiManager
initial = record {
  saved = [];
  scan = [];
  scanning = false;
  pending_scan = false;
  scan_result_queue = false;
  scan_result = none;
  worker = false;
  needs_setup = false;
  last_scan_start_ms = 0;
  scan_ever_succeeded = false;
  connect_started_ms = 0;
  last_reconnect_ms = 0;
  reconnect_index = 0;
  reconnect_attempts = 0;
  calls = [];
}
