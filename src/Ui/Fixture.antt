-- ===== src/Ui/Fixture.antt =====
-- A device on the home screen, linked to one Mac, with one network in range.
use cardputer_codex_deck.Base.{refl, true, false, none, [], ◌∷◌, text, arith, negsuc, pos}
use cardputer_codex_deck.Pairing.Fixture.{at, home, linked, linked-IsValid}
use cardputer_codex_deck.Wifi.State.{WifiEnv, WifiManager}
use cardputer_codex_deck.Wifi.State as Wifi
use cardputer_codex_deck.Wifi.Invariant as WifiInvariant
use cardputer_codex_deck.Audio.State as Audio
use cardputer_codex_deck.Ui.State.{Deck, UiEnv, KeysState, charge_unknown, initial}
use cardputer_codex_deck.Ui.Invariant.{IsValid}

abbrev pub wifi_env : WifiEnv
wifi_env = record {
  now = 30000;
  connected = true;
  ssid = text "home";
  rssi = negsuc 49;
  task_started = true;
  sort = λ l. l;
}

abbrev pub no_keys : KeysState
no_keys = record { word = []; enter = false; del = false; tab = false }

-- The key `/` is pressed.
abbrev pub right : UiEnv
right = record {
  now = 30000;
  button_clicked = false;
  is_pressed = true;
  is_change = true;
  keys = record no_keys { word = text "/" };
  battery_voltage = pos 3900;
  battery_level = none;
  charge = charge_unknown;
  usb = false;
  saved = true;
  wifi = wifi_env;
  pairing = at 30000;
}

-- BtnA is clicked.
abbrev pub click : UiEnv
click = record right {
  button_clicked = true;
  is_pressed = false;
  is_change = false;
  keys = no_keys;
}

abbrev pub in_range : WifiManager
in_range = record Wifi.initial {
  scan = record { ssid = text "cafe"; rssi = negsuc 60; encrypted = false; saved = false } ∷ [];
  scan_ever_succeeded = true;
  scan_result_queue = true;
}

abbrev pub deck : Deck
deck = record {
  ui = record initial { last_activity_ms = 29000 };
  wifi = in_range;
  pairing = linked;
  audio = Audio.initial;
  display = [];
}

in_range-IsValid : WifiInvariant.IsValid in_range
in_range-IsValid = record {
  saved_bound = omega arith;
  saved_distinct = tt;
  scan_bound = omega arith;
  scans = tt;
  queue_made = λ h. refl;
}

pub deck-IsValid : IsValid (home ∷ []) deck
deck-IsValid = record {
  wifi_valid = in_range-IsValid;
  pairing_valid = linked-IsValid;
  ui_valid = record {
    mode_is = refl;
    owns_is = refl;
    microphone = refl;
    main_bound = omega arith;
    home_bound = omega arith;
    home_agrees = λ h. absurd (omega arith);
    agent_bound = omega arith;
    entry_bound = omega arith;
    code_bound = λ h. omega arith;
    dark = λ h. refl;
    level = tt;
  };
  ring_bound = omega arith;
  level_bound = omega arith;
}
