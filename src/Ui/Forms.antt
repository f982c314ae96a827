-- ===== src/Ui/Forms.antt =====
-- firmware/m5stack-cardputer-adv/src/ui.cpp: the pages of the password, the computers, the pair
-- code, the brightness and the screen timeout.
use cardputer_codex_deck.Base.{
  ℕ, ◌+◌, ◌-◌, ◌%◌, Bool, true, false, ◌&&◌, ◌||◌, Option, none, some, [], ◌∷◌, ◌==◌, ltb, leb,
  if◌then◌else◌, length, get_elem?,
}
use cardputer_codex_deck.Models.{DeviceSettings}
use cardputer_codex_deck.Pairing.State.{PairingManager, save_settings}
use cardputer_codex_deck.Pairing.Send.{submit_pair_code}
use cardputer_codex_deck.Pairing.Link.{disconnect}
use cardputer_codex_deck.Pairing.Discovery.{request_discovery}
use cardputer_codex_deck.Pairing.Manager.{
  connect_to_discovered, connect_to_paired, paired_current, delete_pairing,
}
use cardputer_codex_deck.Wifi.Manager.{add_and_connect}
use cardputer_codex_deck.Ui.State.{
  DeviceUi, Deck, UiEnv, main, wifi, computers, add_computer, set_brightness, settings_of,
}
use cardputer_codex_deck.Ui.Characters.{remove_last, append_typed_text}
use cardputer_codex_deck.Ui.Input.{
  pressed, nav_up, nav_down, nav_left, nav_right, enter_pressed, escape_pressed, backspace_pressed,
  back_pressed,
}
use cardputer_codex_deck.Ui.Power.{
  brightness_levels, screen_timeouts, brightness_level_index, screen_timeout_index,
  reset_battery_trend, note_activity,
}
use cardputer_codex_deck.Ui.Pages.{go, list_at, previous_of, next_of, with_wifi}

-- The last two branches of the text forms: a key that deletes, or the typed characters.
abbrev pub edit_text : UiEnv → ℕ → Bool → DeviceUi → DeviceUi
edit_text env max_length digits_only u = record u {
  text_entry =
      if env.keys.del
      then remove_last u.text_entry
      else append_typed_text env.keys.word max_length digits_only u.text_entry;
}

abbrev pub clear_text : Deck → Deck
clear_text d = let u = d.ui in record d { ui = record u { text_entry = [] } }

unfoldable pub handle_password : UiEnv → Deck → Option Deck
handle_password env d =
    if escape_pressed env.keys
    then some (go env wifi d)
    else if env.keys.enter
    then with_wifi (add_and_connect env.wifi d.ui.pending_ssid d.ui.text_entry d.wifi).0
        (λ e. go env main (clear_text e)) d
    else some (record d { ui = edit_text env 63 false d.ui })

-- Enter on a row of the computers: the paired Macs, "Add new" and "Back".
unfoldable pub choose_computer : UiEnv → Deck → Deck
choose_computer env d =
    let i = d.ui.list_selection in
    if ltb i (length d.pairing.paired)
    then record d {
      pairing =
          if paired_current d.pairing i
          then disconnect true d.pairing
          else (connect_to_paired i d.pairing).0;
    }
    else if i == length d.pairing.paired
    then go env add_computer
        (list_at 0 (record d { pairing = request_discovery env.pairing d.pairing }))
    else go env main d

unfoldable pub delete_computer : UiEnv → Deck → Deck
delete_computer env d =
    let i = d.ui.list_selection in
    let e : Deck = record d { pairing = (delete_pairing env.saved i d.pairing).0 } in
    if leb (length e.pairing.paired) i && ltb 0 i then list_at (i - 1) e else e

unfoldable pub handle_computers : UiEnv → Deck → Deck
handle_computers env d =
    let k = env.keys in
    let i = d.ui.list_selection in
    let rows = length d.pairing.paired + 2 in
    if backspace_pressed k && ltb i (length d.pairing.paired)
    then delete_computer env d
    else if escape_pressed k
    then go env main d
    else if nav_up k
    then list_at (previous_of rows i) d
    else if nav_down k
    then list_at (next_of rows i) d
    else if enter_pressed k
    then choose_computer env d
    else d

unfoldable pub handle_add_computer : UiEnv → Deck → Deck
handle_add_computer env d =
    let k = env.keys in
    let i = d.ui.list_selection in
    let count = length d.pairing.discovered in
    if k.tab || pressed k b'r'
    then record d { pairing = request_discovery env.pairing d.pairing }
    else if back_pressed k
    then go env computers d
    else if ltb 0 count && nav_up k
    then list_at (previous_of count i) d
    else if ltb 0 count && nav_down k
    then list_at (next_of count i) d
    else if ltb 0 count && enter_pressed k
    then record d { pairing = (connect_to_discovered i d.pairing).0 }
    else d

unfoldable pub handle_pair_code : UiEnv → Deck → Deck
handle_pair_code env d =
    if escape_pressed env.keys
    then go env computers (record d { pairing = disconnect true d.pairing })
    else if env.keys.enter && length d.ui.text_entry == 6
    then record d { pairing = (submit_pair_code env.pairing d.ui.text_entry d.pairing).0 }
    else record d { ui = edit_text env 6 true d.ui }

-- `direction`: one entry back or forth in a ladder of levels, none for no key.
abbrev pub step_level : UiEnv → ℕ → ℕ → Option ℕ
step_level env count current =
    let k = env.keys in
    if nav_right k || nav_up k || enter_pressed k
    then some ((current + count + 1) % count)
    else if nav_left k || nav_down k
    then some ((current + count - 1) % count)
    else none

-- `settings_.x = ...; store_.saveSettings(settings_)` on the shared settings.
abbrev pub store_settings : DeviceSettings → PairingManager → PairingManager
store_settings s m = record m { settings = some s; store = save_settings s ∷ m.store }

unfoldable pub handle_brightness : UiEnv → Deck → Option Deck
handle_brightness env d =
    let s = settings_of d.pairing in
    let u = d.ui in
    if back_pressed env.keys
    then some (go env main d)
    else elim (step_level env (length brightness_levels) (brightness_level_index s.brightness)) [
      | none ↦ some d
      | some next ↦ elim (get_elem? brightness_levels next) [
        | none ↦ none
        | some level ↦ some (record d {
          ui = reset_battery_trend env (record u { screen_dimmed = false });
          display = set_brightness level ∷ d.display;
          pairing = store_settings (record s { brightness = level }) d.pairing;
        })
      ]
    ]

unfoldable pub handle_screen_off : UiEnv → Deck → Option Deck
handle_screen_off env d =
    let s = settings_of d.pairing in
    if back_pressed env.keys
    then some (go env main d)
    else elim (step_level env (length screen_timeouts)
        (screen_timeout_index s.screen_timeout_sec)) [
          | none ↦ some d
          | some next ↦ elim (get_elem? screen_timeouts next) [
            | none ↦ none
            | some seconds ↦ some (
                note_activity env (record d {
                  pairing = store_settings (record s { screen_timeout_sec = seconds }) d.pairing;
                }))
          ]
        ]
