-- ===== src/Models.antt =====
-- firmware/m5stack-cardputer-adv/src/models.h and app_config.h: the types and limits that the
-- components share. A `String` is a byte list, an `IPAddress` its four octets in one number
-- (0 is 0.0.0.0), a signed field that can be -1 an `Option`.
use cardputer_codex_deck.Base.{ℕ, Bool, false, Option, Text, []}

abbrev pub control_port : ℕ
control_port = 7788

abbrev pub heartbeat_ms : ℕ
heartbeat_ms = 5000

abbrev pub heartbeat_miss_limit : ℕ
heartbeat_miss_limit = 3

abbrev pub reconnect_min_ms : ℕ
reconnect_min_ms = 1000

abbrev pub reconnect_max_ms : ℕ
reconnect_max_ms = 20000

abbrev pub max_wifi_networks : ℕ
max_wifi_networks = 8

abbrev pub max_paired_macs : ℕ
max_paired_macs = 4

abbrev pub max_discovered_macs : ℕ
max_discovered_macs = 8

abbrev pub max_agent_sessions : ℕ
max_agent_sessions = 8

pub record WifiNetwork : Type 0 where
  pub ssid : Text
  pub password : Text

pub record PairedMac : Type 0 where
  pub id : Text
  pub name : Text
  pub token : Text

pub record DiscoveredMac : Type 0 where
  pub id : Text
  pub name : Text
  pub ip : ℕ
  pub port : ℕ
  pub paired : Bool

pub record DeviceSettings : Type 0 where
  pub mic_muted : Bool
  pub typeless_function_key : ℕ
  pub brightness : ℕ
  pub screen_timeout_sec : ℕ
  pub last_mac_id : Text

abbrev pub default_settings : DeviceSettings
default_settings = record {
  mic_muted = false;
  typeless_function_key = 13;
  brightness = 128;
  screen_timeout_sec = 60;
  last_mac_id = [];
}

pub data LinkState : Type 0 where
  offline discovering connecting awaiting_pair_code authenticating connected incompatible :
      LinkState

pub data AgentStatus : Type 0 where
  offline idle running needs_input ready blocked : AgentStatus

pub data AgentPhase : Type 0 where
  none thinking tool : AgentPhase

pub record AgentSession : Type 0 where
  pub id : Text
  pub title : Text
  pub project : Text
  pub activity : Text
  pub status : AgentStatus
  pub phase : AgentPhase
  pub unread : Bool

pub data AgentQuotaMode : Type 0 where
  unknown subscription api : AgentQuotaMode

-- `none` is the source's -1: the window was not reported.
pub record AgentQuota : Type 0 where
  pub mode : AgentQuotaMode
  pub weekly_remaining : Option ℕ
  pub five_hour_remaining : Option ℕ
