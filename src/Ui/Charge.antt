-- ===== src/Ui/Charge.antt =====
-- The filtered voltage and the charging state (Ui/Battery).
use cardputer_codex_deck.Base.{ℕ, ◌≤◌, ◌<◌, min, max, arith, pos}
use cardputer_codex_deck.Ui.State.{DeviceUi, UiEnv}
use cardputer_codex_deck.Ui.Battery.{smooth, infer_charging, power_source, battery_sample}

-- A measurement moves the filtered voltage towards itself, never past.
smooth_within :
    (v m : ℕ) → 0 < m → 0 < v → (min v m ≤ smooth v (pos m)) × (smooth v (pos m) ≤ max v m)
unfolding smooth
smooth_within v m h k = ground arith

-- The state after a sample, before the charging flag is set.
abbrev sampled : UiEnv → DeviceUi → DeviceUi
sampled env u = infer_charging env (power_source env (battery_sample env u))
