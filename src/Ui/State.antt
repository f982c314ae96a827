-- ===== src/Ui/State.antt =====
-- firmware/m5stack-cardputer-adv/src/ui.h: the state of `DeviceUi` that its input and power code
-- keeps, the objects it drives, and what one call finds around it.
use cardputer_codex_deck.Base.{ℕ, Bool, true, false, Option, none, some, List, [], Text, ℤ}
use cardputer_codex_deck.Models.{DeviceSettings, LinkState, default_settings}
use cardputer_codex_deck.Pairing.State.{PairingManager, Env}
use cardputer_codex_deck.Wifi.State.{WifiManager, WifiEnv}
use cardputer_codex_deck.Audio.State.{AudioTransmitter}

pub data UiMode : Type 0 where
  local remote : UiMode

pub data Page : Type 0 where
  main codex wifi wifi_password computers add_computer pair_code brightness screen_off : Page

-- `batteryLevel_` is `none` for -1; a voltage is never negative here.
pub record DeviceUi : Type 0 where
  pub mode : UiMode
  pub page : Page
  pub main_selection : ℕ
  pub home_setting_selection : ℕ
  pub list_selection : ℕ
  pub agent_selection : ℕ
  pub selected_agent_id : Text
  pub last_agent_focus_id : Text
  pub last_agent_focus_seq : ℕ
  pub last_agent_snapshot_seq : ℕ
  pub last_link_state : LinkState
  pub last_wifi_connected : Bool
  pub pending_ssid : Text
  pub text_entry : Text
  pub screen_off : Bool
  pub screen_dimmed : Bool
  pub consumes_keyboard : Bool
  pub suppress_until_release : Bool
  pub render_requested : Bool
  pub battery_charging : Bool
  pub usb_power_present : Bool
  pub battery_level : Option ℕ
  pub battery_voltage_mv : ℕ
  pub battery_trend_baseline_mv : ℕ
  pub last_activity_ms : ℕ
  pub last_render_ms : ℕ
  pub last_computer_scan_ms : ℕ
  pub last_battery_sample_ms : ℕ
  pub battery_trend_started_ms : ℕ
  pub inferred_charging_until_ms : ℕ

-- The objects of main.cpp that the controller refers to. The one `settings` of main.cpp, which
-- `pairing_.begin` is given too, is the pairing manager's. `display` lists the calls of the
-- display, newest first.
pub data DisplayCall : Type 0 where
  set_brightness : ℕ → DisplayCall
  sleep wakeup : DisplayCall

pub record Deck : Type 0 where
  pub ui : DeviceUi
  pub wifi : WifiManager
  pub pairing : PairingManager
  pub audio : AudioTransmitter
  pub display : List DisplayCall

-- `keysState()`, as far as the controller reads it.
pub record KeysState : Type 0 where
  pub word : Text
  pub enter : Bool
  pub del : Bool
  pub tab : Bool

pub data ChargeState : Type 0 where
  is_discharging is_charging charge_unknown : ChargeState

-- What one call finds: the clock, BtnA, the keyboard, the power chip (`battery_level` is `none` for
-- a negative answer), USB, what the store's writes return, and the surroundings of the managers.
pub record UiEnv : Type 0 where
  pub now : ℕ
  pub button_clicked : Bool
  pub is_pressed : Bool
  pub is_change : Bool
  pub keys : KeysState
  pub battery_voltage : ℤ
  pub battery_level : Option ℕ
  pub charge : ChargeState
  pub usb : Bool
  pub saved : Bool
  pub wifi : WifiEnv
  pub pairing : Env

abbrev pub is_remote : UiMode → Bool
is_remote remote = true
is_remote local = false

abbrev pub is_pair_code : Page → Bool
is_pair_code pair_code = true
is_pair_code _ = false

-- The settings object.
abbrev pub settings_of : PairingManager → DeviceSettings
settings_of m = elim m.settings [ none ↦ default_settings | some s ↦ s ]

-- The members' initial values in ui.h.
abbrev pub initial : DeviceUi
initial = record {
  mode = local;
  page = main;
  main_selection = 0;
  home_setting_selection = 0;
  list_selection = 0;
  agent_selection = 0;
  selected_agent_id = [];
  last_agent_focus_id = [];
  last_agent_focus_seq = 0;
  last_agent_snapshot_seq = 0;
  last_link_state = LinkState.offline;
  last_wifi_connected = false;
  pending_ssid = [];
  text_entry = [];
  screen_off = false;
  screen_dimmed = false;
  consumes_keyboard = false;
  suppress_until_release = false;
  render_requested = true;
  battery_charging = false;
  usb_power_present = false;
  battery_level = none;
  battery_voltage_mv = 0;
  battery_trend_baseline_mv = 0;
  last_activity_ms = 0;
  last_render_ms = 0;
  last_computer_scan_ms = 0;
  last_battery_sample_ms = 0;
  battery_trend_started_ms = 0;
  inferred_charging_until_ms = 0;
}
