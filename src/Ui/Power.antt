-- ===== src/Ui/Power.antt =====
-- firmware/m5stack-cardputer-adv/src/ui.cpp: activity, the sleeping and dimming of the screen, and
-- the ladders of brightness and screen timeout.
use cardputer_codex_deck.Base.{
  ℕ, ◌*◌, ◌/◌, true, false, ◌&&◌, not, List, [], ◌∷◌, none, some, ◌==◌, leb, if◌then◌else◌,
  find_index?, min, max, u32, sub32,
}
use cardputer_codex_deck.Ui.State.{
  DeviceUi, Deck, UiEnv, set_brightness, sleep, wakeup, settings_of,
}

abbrev pub brightness_levels : List ℕ
brightness_levels = 64 ∷ 128 ∷ 192 ∷ 255 ∷ []

abbrev pub screen_timeouts : List ℕ
screen_timeouts = 30 ∷ 60 ∷ 120 ∷ 300 ∷ 0 ∷ []

abbrev pub idle_dim_after_ms : ℕ
idle_dim_after_ms = 15000

-- The search loops of `brightnessLevelIndex` and `screenTimeoutIndex`; the default is 1.
abbrev pub index_or_one : List ℕ → ℕ → ℕ
index_or_one levels value = elim (find_index? (λ level. level == value) levels) [
  | none ↦ 1
  | some i ↦ i
]

unfoldable pub brightness_level_index : ℕ → ℕ
brightness_level_index value = index_or_one brightness_levels value

unfoldable pub screen_timeout_index : ℕ → ℕ
screen_timeout_index value = index_or_one screen_timeouts value

abbrev pub reset_battery_trend : UiEnv → DeviceUi → DeviceUi
reset_battery_trend env u = record u {
  battery_trend_baseline_mv = u.battery_voltage_mv;
  battery_trend_started_ms = env.now;
}

unfoldable pub note_activity : UiEnv → Deck → Deck
note_activity env d =
    let u : DeviceUi = record d.ui { last_activity_ms = env.now } in
    if u.screen_dimmed && not u.screen_off
    then record d {
      ui = record (reset_battery_trend env (record u { screen_dimmed = false })) {
        render_requested = true;
      };
      display = set_brightness (settings_of d.pairing).brightness ∷ d.display;
    }
    else record d { ui = u }

unfoldable pub wake_screen : UiEnv → Deck → Deck
wake_screen env d =
    let u : DeviceUi = record d.ui {
      screen_off = false;
      screen_dimmed = false;
      last_battery_sample_ms = 0;
    } in
    record d {
      ui = record (reset_battery_trend env u) { render_requested = true };
      display = set_brightness (settings_of d.pairing).brightness ∷ wakeup ∷ d.display;
    }

-- `max(kIdleDimMinBrightness, min(kIdleDimMaxBrightness, brightness / 3))`.
abbrev pub dimmed_brightness : ℕ → ℕ
dimmed_brightness brightness = max 12 (min 40 (brightness / 3))

unfoldable pub update_screen_power : UiEnv → Deck → Deck
update_screen_power env d =
    let u = d.ui in
    let inactive_ms = sub32 env.now u.last_activity_ms in
    let timeout = (settings_of d.pairing).screen_timeout_sec in
    if u.screen_off
    then d
    else if not (timeout == 0) && leb (u32 (timeout * 1000)) inactive_ms
    then record d {
      ui = reset_battery_trend env (record u { screen_off = true; screen_dimmed = false });
      display = sleep ∷ d.display;
    }
    else if not u.screen_dimmed && leb idle_dim_after_ms inactive_ms
    then record d {
      ui = record (reset_battery_trend env (record u { screen_dimmed = true })) {
        render_requested = true;
      };
      display = set_brightness (dimmed_brightness (settings_of d.pairing).brightness) ∷ d.display;
    }
    else d
