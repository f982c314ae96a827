-- ===== src/Ui/Invariant/Screen.antt =====
-- The invariant under the operations that touch the controller's own state only.
use cardputer_codex_deck.Base.{ℕ, ◌≤◌, ◌≡◌, Bool, false, List, arith, if_both}
use cardputer_codex_deck.Models.{PairedMac}
use cardputer_codex_deck.Audio.State.{set_active}
use cardputer_codex_deck.Ui.State.{UiMode, is_pair_code, is_remote, DeviceUi, Deck, UiEnv, Page}
use cardputer_codex_deck.Ui.Power.{note_activity, wake_screen, update_screen_power}
use cardputer_codex_deck.Ui.Battery.{
  battery_sample, power_source, infer_charging, follow_trend, update_battery_state,
  battery_percent_from_voltage, smooth,
}
use cardputer_codex_deck.Ui.Pages.{
  set_page, show_codex, move_left, move_right, move_up, move_down, remember_setting,
}
use cardputer_codex_deck.Ui.Controller.{set_mode, watch_changes, follow_focus, draw}
use cardputer_codex_deck.Ui.Invariant.{Face, at_mode, UiValid, InMode}

module _ {face : Face} {active : Bool} {u : DeviceUi} (v : UiValid face active u) where
  pub remember_setting-UiValid : UiValid face active (remember_setting u)
  remember_setting-UiValid = ground arith

  pub move_left-UiValid : UiValid face active (remember_setting (move_left u))
  unfolding move_left
  move_left-UiValid = ground arith

  pub move_right-UiValid : UiValid face active (remember_setting (move_right u))
  unfolding move_right
  move_right-UiValid = ground arith

  pub move_up-UiValid : UiValid face active (remember_setting (move_up u))
  unfolding move_up
  move_up-UiValid = ground arith

  pub move_down-UiValid : UiValid face active (remember_setting (move_down u))
  unfolding move_down
  move_down-UiValid = ground arith

  pub set_page-UiValid :
      (env : UiEnv) (page : Page)
      → is_pair_code page ≡ false
      → UiValid face active (set_page env page u)
  unfolding set_page
  set_page-UiValid env page other = ground arith

  pub show_codex-UiValid : (env : UiEnv) → UiValid face active (show_codex env u)
  unfolding show_codex set_page
  show_codex-UiValid env = ground arith

battery_percent_bound : (mv : ℕ) → battery_percent_from_voltage mv ≤ 100
unfolding battery_percent_from_voltage
battery_percent_bound mv = omega arith

module _ {face : Face} {active : Bool} {u : DeviceUi} (v : UiValid face active u)
    (env : UiEnv) where
  battery_sample-UiValid : UiValid face active (battery_sample env u)
  unfolding battery_sample
  battery_sample-UiValid =
      ground (arith, battery_percent_bound (smooth u.battery_voltage_mv env.battery_voltage))

  power_source-UiValid : UiValid face active (power_source env u)
  unfolding power_source
  power_source-UiValid = ground arith

  infer_charging-UiValid : UiValid face active (infer_charging env u)
  unfolding infer_charging follow_trend
  infer_charging-UiValid = ground arith

  charging-UiValid :
      (b c : Bool) → UiValid face active (record u { battery_charging = b; render_requested = c })
  charging-UiValid b c = ground arith

pub update_battery_state-UiValid :
    {face : Face} {active : Bool} {u : DeviceUi}
    → UiValid face active u
    → (env : UiEnv) (force : Bool) → UiValid face active (update_battery_state force env u)
unfolding update_battery_state
update_battery_state-UiValid {face} {active} {u} v env force =
    let t = infer_charging-UiValid (power_source-UiValid (battery_sample-UiValid v env) env) env in
    if_both (UiValid face active) _ v (charging-UiValid t env _ _)

module _ {loaded : List PairedMac} {face : Face} {d : Deck} (v : InMode loaded face d)
    (env : UiEnv) where
  pub with_ui-IsValid :
      {u : DeviceUi} → UiValid face d.audio.active u → InMode loaded face (record d { ui = u })
  with_ui-IsValid h = record {
    wifi_valid = v.wifi_valid;
    pairing_valid = v.pairing_valid;
    ui_valid = h;
    ring_bound = v.ring_bound;
    level_bound = v.level_bound;
  }

  pub note_activity-IsValid : InMode loaded face (note_activity env d)
  unfolding note_activity
  note_activity-IsValid = ground arith

  pub wake_screen-IsValid : InMode loaded face (wake_screen env d)
  unfolding wake_screen
  wake_screen-IsValid = ground arith

  pub update_screen_power-IsValid : InMode loaded face (update_screen_power env d)
  unfolding update_screen_power
  update_screen_power-IsValid = ground arith

  pub set_mode-IsValid :
      (mode : UiMode) → InMode loaded (at_mode (is_remote mode) face) (set_mode env mode d)
  unfolding set_mode set_active
  set_mode-IsValid mode = ground arith

  pub watch_changes-IsValid : InMode loaded face (watch_changes env d)
  unfolding watch_changes
  watch_changes-IsValid = ground arith

  pub follow_focus-IsValid : InMode loaded face (follow_focus d)
  unfolding follow_focus
  follow_focus-IsValid = ground arith

  pub draw-IsValid : InMode loaded face (draw env d)
  unfolding draw
  draw-IsValid = ground arith
