-- ===== src/Ui/Invariant/Asking.antt =====
-- What decides the mode: a click on BtnA, and a pair code that is asked for (Ui/Controller).
use cardputer_codex_deck.Base.{◌≡◌, refl, ap, ◌∙◌, Bool, false, ◌&&◌, not, if◌then◌else◌, arith}
use cardputer_codex_deck.Ui.State.{is_remote, is_pair_code, DeviceUi, Deck, UiEnv}
use cardputer_codex_deck.Ui.Power.{note_activity, wake_screen, update_screen_power}
use cardputer_codex_deck.Ui.Battery.{
  update_battery_state, infer_charging, follow_trend, power_source, battery_sample,
}
use cardputer_codex_deck.Ui.Pages.{set_page}
use cardputer_codex_deck.Ui.Controller.{
  set_mode, toggle_mode, on_button, on_keyboard, watch_changes, first_boot, pair_code_requested,
  observe,
}

-- Whether the pairing flow takes the user to the pair code.
abbrev pub asks_code : Deck → Bool
asks_code d = pair_code_requested d.pairing.state && not (is_pair_code d.ui.page)

-- The mode after BtnA: a click with the screen on switches it.
abbrev pub clicked_mode : UiEnv → Deck → Bool → Bool
clicked_mode env d remote = if env.button_clicked && not d.ui.screen_off then not remote else remote

-- The mode after a pass.
abbrev pub next_mode : UiEnv → Deck → Bool
next_mode env d = clicked_mode env d (is_remote d.ui.mode) && not (asks_code d)

pub note_activity-screen_off :
    (env : UiEnv) (d : Deck) → (note_activity env d).ui.screen_off ≡ d.ui.screen_off
unfolding note_activity
note_activity-screen_off env d = ground arith

-- What the pairing flow reads.
record SameAsk (d e : Deck) : Type 0 where
  link : e.pairing.state ≡ d.pairing.state
  page : is_pair_code e.ui.page ≡ is_pair_code d.ui.page

module _ (env : UiEnv) where
  note_activity-SameAsk : (d : Deck) → SameAsk d (note_activity env d)
  unfolding note_activity
  note_activity-SameAsk d = ground arith

  wake_screen-SameAsk : (d : Deck) → SameAsk d (wake_screen env d)
  unfolding wake_screen
  wake_screen-SameAsk d = ground arith

  on_button-SameAsk : (d : Deck) → SameAsk d (on_button env d)
  unfolding on_button toggle_mode set_mode
  on_button-SameAsk d =
      let n = note_activity-SameAsk d in
      let w = wake_screen-SameAsk (note_activity env d) in ground arith

  on_keyboard-SameAsk : (d : Deck) → SameAsk d (on_keyboard env d)
  unfolding on_keyboard
  on_keyboard-SameAsk d =
      let n = note_activity-SameAsk d in
      let w = wake_screen-SameAsk (note_activity env d) in ground arith

  update_battery_state-page :
      (force : Bool) (u : DeviceUi) → (update_battery_state force env u).page ≡ u.page
  unfolding update_battery_state infer_charging follow_trend power_source battery_sample
  update_battery_state-page force u = ground arith

  update_screen_power-SameAsk : (d : Deck) → SameAsk d (update_screen_power env d)
  unfolding update_screen_power
  update_screen_power-SameAsk d = ground arith

  watch_changes-SameAsk : (d : Deck) → SameAsk d (watch_changes env d)
  unfolding watch_changes
  watch_changes-SameAsk d = ground arith

  first_boot-SameAsk : (d : Deck) → SameAsk d (first_boot env d)
  unfolding first_boot set_page
  first_boot-SameAsk d = ground arith

  pub observe-asks_code : (d : Deck) → asks_code (observe env d) ≡ asks_code d
  unfolding observe
  observe-asks_code d =
      let b = on_button env d in
      let k = on_keyboard env b in
      let u = update_battery_state false env k.ui in
      let p = update_screen_power env (record k { ui = u }) in
      let w = watch_changes env p in
      let hb = on_button-SameAsk d in
      let hk = on_keyboard-SameAsk b in
      let hu = ap is_pair_code (update_battery_state-page false k.ui) in
      let hp = update_screen_power-SameAsk (record k { ui = u }) in
      let hw = watch_changes-SameAsk p in
      let hf = first_boot-SameAsk w in
      rw
        (
          hf.link ∙ hw.link ∙ hp.link ∙ hk.link ∙ hb.link,
          hf.page ∙ hw.page ∙ hp.page ∙ hu ∙ hk.page ∙ hb.page,
        )
        refl
