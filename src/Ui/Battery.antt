-- ===== src/Ui/Battery.antt =====
-- firmware/m5stack-cardputer-adv/src/ui.cpp, `updateBatteryState`: the filtered voltage, the level
-- and the charging state. A difference of two voltages is compared without a sign.
use cardputer_codex_deck.Base.{
  ℕ, ◌+◌, ◌-◌, ◌*◌, ◌/◌, Bool, true, false, ◌&&◌, ◌||◌, not, Option, none, some, ◌==◌, ltb, leb,
  if◌then◌else◌, min, max, u32, sub32, ℤ, pos, negsuc,
}
use cardputer_codex_deck.Ui.State.{DeviceUi, UiEnv, ChargeState, is_charging, is_discharging}

abbrev pub charging_rise_mv : ℕ
charging_rise_mv = 25

abbrev pub discharging_fall_mv : ℕ
discharging_fall_mv = 12

abbrev pub battery_trend_min_ms : ℕ
battery_trend_min_ms = 6000

abbrev pub battery_trend_window_ms : ℕ
battery_trend_window_ms = 20000

abbrev pub inferred_charging_hold_ms : ℕ
inferred_charging_hold_ms = 60000

-- The quotient of a negative number is at most 0, and so is its level.
unfoldable pub battery_percent_from_voltage : ℕ → ℕ
battery_percent_from_voltage millivolts = max 0 (min 100 ((millivolts - 3300) * 100 / 800))

unfoldable pub deadline_pending : ℕ → ℕ → Bool
deadline_pending deadline now =
    not (deadline == 0) && ltb 0 (sub32 deadline now) && ltb (sub32 deadline now) 2147483648

-- The filtered voltage after a measurement.
unfoldable pub smooth : ℕ → ℤ → ℕ
smooth voltage (negsuc _) = voltage
smooth voltage (pos measured) =
    if measured == 0
    then voltage
    else if voltage == 0
    then measured
    else (voltage * 3 + measured + 2) / 4

abbrev pub clamp_level : Option ℕ → Option ℕ
clamp_level none = none
clamp_level (some reported) = some (min 100 reported)

unfoldable pub battery_sample : UiEnv → DeviceUi → DeviceUi
battery_sample env u =
    let voltage = smooth u.battery_voltage_mv env.battery_voltage in
    record u {
      last_battery_sample_ms = env.now;
      battery_voltage_mv = voltage;
      battery_level =
          if ltb 0 voltage
          then some (battery_percent_from_voltage voltage)
          else clamp_level env.battery_level;
    }

abbrev pub directly_charging : ChargeState → Bool
directly_charging is_charging = true
directly_charging _ = false

abbrev pub directly_discharging : ChargeState → Bool
directly_discharging is_discharging = true
directly_discharging _ = false

abbrev pub restart_trend : UiEnv → DeviceUi → DeviceUi
restart_trend env u = record u {
  battery_trend_baseline_mv = u.battery_voltage_mv;
  battery_trend_started_ms = env.now;
}

-- The trend of a device on battery whose charger says nothing.
unfoldable pub follow_trend : UiEnv → DeviceUi → DeviceUi
follow_trend env u =
    let t = if u.battery_trend_baseline_mv == 0 then restart_trend env u else u in
    let age = sub32 env.now t.battery_trend_started_ms in
    if leb battery_trend_min_ms age
      && leb (t.battery_trend_baseline_mv + charging_rise_mv) t.battery_voltage_mv
    then restart_trend env
        (record t { inferred_charging_until_ms = u32 (env.now + inferred_charging_hold_ms) })
    else if leb battery_trend_window_ms age
    then restart_trend env (record t {
      inferred_charging_until_ms =
          if leb (t.battery_voltage_mv + discharging_fall_mv) t.battery_trend_baseline_mv
          then 0
          else t.inferred_charging_until_ms;
    })
    else t

-- The power source: a discharging report or the loss of USB ends an inferred charge.
unfoldable pub power_source : UiEnv → DeviceUi → DeviceUi
power_source env u = record u {
  usb_power_present = env.usb;
  inferred_charging_until_ms =
      if (u.usb_power_present && not env.usb) || directly_discharging env.charge
      then 0
      else u.inferred_charging_until_ms;
}

unfoldable pub infer_charging : UiEnv → DeviceUi → DeviceUi
infer_charging env u =
    if not u.usb_power_present
      && not (directly_charging env.charge)
      && not (directly_discharging env.charge)
      && ltb 0 u.battery_voltage_mv
    then follow_trend env u
    else restart_trend env u

-- `batteryLevel_ != oldLevel`.
abbrev pub same_level : Option ℕ → Option ℕ → Bool
same_level none none = true
same_level (some a) (some b) = a == b
same_level _ _ = false

abbrev pub same_flag : Bool → Bool → Bool
same_flag a b = if a then b else not b

unfoldable pub update_battery_state : Bool → UiEnv → DeviceUi → DeviceUi
update_battery_state force env u =
    let interval = if u.screen_off then 10000 else 2000 in
    let t = infer_charging env (power_source env (battery_sample env u)) in
    let charging =
      directly_charging env.charge
      || t.usb_power_present
      || deadline_pending t.inferred_charging_until_ms env.now in
    if not force
      && not (u.last_battery_sample_ms == 0)
      && ltb (sub32 env.now u.last_battery_sample_ms) interval
    then u
    else record t {
      battery_charging = charging;
      render_requested =
          if same_level t.battery_level u.battery_level
            && same_flag charging u.battery_charging
            && same_flag t.usb_power_present u.usb_power_present
          then t.render_requested
          else true;
    }
