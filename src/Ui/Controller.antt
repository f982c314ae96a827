-- ===== src/Ui/Controller.antt =====
-- firmware/m5stack-cardputer-adv/src/ui.cpp and ui.h: `begin`, `tick`, the mode switch and the
-- routing of a keypress. `render` is its request only: the drawing is not modelled.
use cardputer_codex_deck.Base.{
  ℕ, ◌-◌, Bool, true, false, ◌&&◌, ◌||◌, not, Option, none, some, [], ◌∷◌, text_eq, is_empty, ◌==◌,
  leb, if◌then◌else◌, length, find_index?, sub32, min,
}
use cardputer_codex_deck.Models.{LinkState, AgentSession}
use cardputer_codex_deck.Pairing.State.{is_connected}
use cardputer_codex_deck.Pairing.Discovery.{request_discovery}
use cardputer_codex_deck.Wifi.Manager.{start_scan}
use cardputer_codex_deck.Audio.State.{set_active}
use cardputer_codex_deck.Ui.State.{
  UiMode, local, remote, is_remote, is_pair_code, DeviceUi, Deck, UiEnv, Page, main, codex, wifi,
  wifi_password, computers, add_computer, pair_code, brightness, screen_off, set_brightness,
  settings_of,
}
use cardputer_codex_deck.Ui.Power.{
  reset_battery_trend, note_activity, wake_screen, update_screen_power,
}
use cardputer_codex_deck.Ui.Battery.{same_flag, update_battery_state}
use cardputer_codex_deck.Ui.Visual.{render_interval_ms}
use cardputer_codex_deck.Ui.Pages.{go, select_agent, handle_main, handle_codex, handle_wifi}
use cardputer_codex_deck.Ui.Forms.{
  handle_password, handle_computers, handle_add_computer, handle_pair_code, handle_brightness,
  handle_screen_off, clear_text,
}

-- `begin`, after the canvas and the fonts.
unfoldable pub begin : UiEnv → Deck → Deck
begin env d =
    let u : DeviceUi = record d.ui { last_activity_ms = env.now } in
    record d {
      audio = set_active (is_remote u.mode) d.audio;
      ui = record (update_battery_state true env u) {
        last_render_ms = env.now;
        render_requested = false;
      };
      display = set_brightness (settings_of d.pairing).brightness ∷ d.display;
    }

unfoldable pub set_mode : UiEnv → UiMode → Deck → Deck
set_mode env mode d =
    if same_flag (is_remote mode) (is_remote d.ui.mode)
    then d
    else (let u : DeviceUi = record d.ui { mode = mode } in
        record d {
          audio = set_active (is_remote mode) d.audio;
          ui = record (reset_battery_trend env u) {
            render_requested = true;
            suppress_until_release = env.is_pressed;
          };
        })

unfoldable pub toggle_mode : UiEnv → Deck → Deck
toggle_mode env d = set_mode env (if is_remote d.ui.mode then local else remote) d

-- `screenOff_ ? wakeScreen() : toggleMode()` of a click on BtnA.
unfoldable pub on_button : UiEnv → Deck → Deck
on_button env d =
    let e = note_activity env d in
    if not env.button_clicked
    then d
    else if e.ui.screen_off
    then wake_screen env e
    else toggle_mode env e

abbrev pub suppress : Bool → DeviceUi → DeviceUi
suppress b u = record u { suppress_until_release = b }

unfoldable pub on_keyboard : UiEnv → Deck → Deck
on_keyboard env d =
    let e = note_activity env d in
    let w = wake_screen env e in
    if not env.is_pressed
    then record d { ui = suppress false d.ui }
    else if not e.ui.screen_off
    then e
    else if is_remote w.ui.mode
    then w
    else record w { ui = suppress true w.ui }

abbrev pub link_index : LinkState → ℕ
link_index LinkState.offline = 0
link_index LinkState.discovering = 1
link_index LinkState.connecting = 2
link_index LinkState.awaiting_pair_code = 3
link_index LinkState.authenticating = 4
link_index LinkState.connected = 5
link_index LinkState.incompatible = 6

unfoldable pub watch_changes : UiEnv → Deck → Deck
watch_changes env d =
    let u = d.ui in
    if u.last_agent_snapshot_seq == d.pairing.agents.seq
      && link_index u.last_link_state == link_index d.pairing.state
      && same_flag u.last_wifi_connected env.wifi.connected
    then d
    else record d {
      ui = record u {
        last_agent_snapshot_seq = d.pairing.agents.seq;
        last_link_state = d.pairing.state;
        last_wifi_connected = env.wifi.connected;
        render_requested = true;
      };
    }

abbrev pub is_main : Page → Bool
is_main main = true
is_main _ = false

abbrev pub is_computers : Page → Bool
is_computers computers = true
is_computers add_computer = true
is_computers _ = false

abbrev pub shows_codex : Page → Bool
shows_codex main = true
shows_codex codex = true
shows_codex _ = false

abbrev pub pair_code_requested : LinkState → Bool
pair_code_requested LinkState.awaiting_pair_code = true
pair_code_requested _ = false

-- The first boot: no WiFi credentials.
unfoldable pub first_boot : UiEnv → Deck → Deck
first_boot env d =
    let w = d.wifi in
    if w.needs_setup && not (is_remote d.ui.mode) && is_main d.ui.page
    then go env wifi (record d { wifi = start_scan (record w { needs_setup = false }) })
    else d

unfoldable pub pairing_flow : UiEnv → Deck → Deck
pairing_flow env d =
    if pair_code_requested d.pairing.state && not (is_pair_code d.ui.page)
    then go env pair_code (clear_text (set_mode env local d))
    else if is_pair_code d.ui.page && is_connected d.pairing.state
    then go env computers d
    else d

unfoldable pub scan_computers : UiEnv → Deck → Deck
scan_computers env d =
    let u = d.ui in
    if not (is_remote u.mode)
      && is_computers u.page
      && leb 10000 (sub32 env.now u.last_computer_scan_ms)
    then record d {
      pairing = request_discovery env.pairing d.pairing;
      ui = record u { last_computer_scan_ms = env.now };
    }
    else d

unfoldable pub follow_focus : Deck → Deck
follow_focus d =
    let u = d.ui in
    let a = d.pairing.agents in
    if shows_codex u.page
      && not (text_eq a.focus_id u.last_agent_focus_id && a.focus_seq == u.last_agent_focus_seq)
    then record d {
      ui = record u {
        last_agent_focus_id = a.focus_id;
        last_agent_focus_seq = a.focus_seq;
        selected_agent_id = a.focus_id;
        render_requested = true;
      };
    }
    else d

-- The selected session is looked up, or the next best is taken.
unfoldable pub find_selected : Deck → Option Deck
find_selected d =
    let u = d.ui in
    let sessions = d.pairing.agents.sessions in
    if not (shows_codex u.page) || is_empty u.selected_agent_id
    then some d
    else elim (find_index? (λ (a : AgentSession). text_eq a.id u.selected_agent_id) sessions) [
      | some i ↦ some (record d { ui = record u { agent_selection = i } })
      | none ↦
          if length sessions == 0
          then some (record d { ui = record u { agent_selection = 0; selected_agent_id = [] } })
          else select_agent (min u.agent_selection (length sessions - 1)) d
    ]

-- The `switch` of `handleInput`.
unfoldable pub handle_page : UiEnv → Page → Deck → Option Deck
handle_page env main d = some (handle_main env d)
handle_page env codex d = handle_codex env d
handle_page env wifi d = handle_wifi env d
handle_page env wifi_password d = handle_password env d
handle_page env computers d = some (handle_computers env d)
handle_page env add_computer d = some (handle_add_computer env d)
handle_page env pair_code d = some (handle_pair_code env d)
handle_page env brightness d = handle_brightness env d
handle_page env screen_off d = handle_screen_off env d

abbrev pub handle_input : UiEnv → Deck → Option Deck
handle_input env d = handle_page env d.ui.page d

abbrev pub request_render : Deck → Deck
request_render d = let u = d.ui in record d { ui = record u { render_requested = true } }

abbrev pub then_render : Option Deck → Option Deck
then_render none = none
then_render (some d) = some (request_render d)

-- The routing of a keypress.
unfoldable pub route_input : UiEnv → Deck → Option Deck
route_input env d =
    let u = d.ui in
    let free = not (is_remote u.mode) && not u.suppress_until_release in
    let e : Deck = record d {
      ui = record u { consumes_keyboard = not (is_remote u.mode) || u.suppress_until_release };
    } in
    if free && env.is_change && env.is_pressed
    then then_render (handle_input env (note_activity env e))
    else some e

-- The last block of `tick`.
unfoldable pub draw : UiEnv → Deck → Deck
draw env d =
    let u = d.ui in
    if not u.screen_off
      && (u.render_requested || leb (render_interval_ms env d) (sub32 env.now u.last_render_ms))
    then record d { ui = record u { last_render_ms = env.now; render_requested = false } }
    else d

-- `tick` up to the pairing flow, and on to the lookup of the selected agent.
unfoldable pub observe : UiEnv → Deck → Deck
observe env d =
    let k = on_keyboard env (on_button env d) in
    let p = update_screen_power env (record k { ui = update_battery_state false env k.ui }) in
    first_boot env (watch_changes env p)

unfoldable pub prepare : UiEnv → Deck → Deck
prepare env d = follow_focus (scan_computers env (pairing_flow env (observe env d)))

abbrev pub then_draw : UiEnv → Option Deck → Option Deck
then_draw env none = none
then_draw env (some d) = some (draw env d)

unfoldable pub tick : UiEnv → Deck → Option Deck
tick env d = elim (find_selected (prepare env d)) [
  | none ↦ none
  | some f ↦ then_draw env (route_input env f)
]
