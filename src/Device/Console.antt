-- ===== src/Device/Console.antt =====
-- firmware/m5stack-cardputer-adv/src/serial_console.cpp: the line buffer and the commands. What is
-- printed, and the pokes at pins, codec and speaker, leave this state as it is.
use cardputer_codex_deck.Base.{
  ℕ, ◌+◌, Bool, true, false, ◌&&◌, ◌||◌, not, Option, none, some, [], ◌∷◌, ◌++◌, Text, text,
  text_eq, is_empty, ◌==◌, ltb, if◌then◌else◌, length, take, drop, find_index?,
}
use cardputer_codex_deck.Models.{DeviceSettings, LinkState, AgentStatus, AgentPhase}
use cardputer_codex_deck.Pairing.State.{PairingManager}
use cardputer_codex_deck.Pairing.Send.{submit_pair_code, send_key}
use cardputer_codex_deck.Pairing.Link.{disconnect}
use cardputer_codex_deck.Pairing.Discovery.{request_discovery}
use cardputer_codex_deck.Pairing.Manager.{connect_to_discovered}
use cardputer_codex_deck.Wifi.Manager.{start_scan, add_and_connect, forget}
use cardputer_codex_deck.Audio.State.{set_muted}
use cardputer_codex_deck.Ui.State.{Deck, UiEnv, settings_of}
use cardputer_codex_deck.Ui.Pages.{show_codex, with_wifi}
use cardputer_codex_deck.Ui.Forms.{store_settings}
use cardputer_codex_deck.Ui.Controller.{toggle_mode}
use cardputer_codex_deck.Device.State.{Arduino}

unfoldable pub link_state_name : LinkState → Text
link_state_name LinkState.offline = text "offline"
link_state_name LinkState.discovering = text "discovering"
link_state_name LinkState.connecting = text "connecting"
link_state_name LinkState.awaiting_pair_code = text "awaiting_pair_code"
link_state_name LinkState.authenticating = text "authenticating"
link_state_name LinkState.connected = text "connected"
link_state_name LinkState.incompatible = text "incompatible"

unfoldable pub agent_status_name : AgentStatus → Text
agent_status_name AgentStatus.offline = text "offline"
agent_status_name AgentStatus.idle = text "idle"
agent_status_name AgentStatus.running = text "running"
agent_status_name AgentStatus.needs_input = text "needs_input"
agent_status_name AgentStatus.ready = text "ready"
agent_status_name AgentStatus.blocked = text "blocked"

unfoldable pub agent_phase_name : AgentPhase → Text
agent_phase_name AgentPhase.none = text "none"
agent_phase_name AgentPhase.thinking = text "thinking"
agent_phase_name AgentPhase.tool = text "tool"

abbrev pub space_index : Text → Option ℕ
space_index s = find_index? (λ c. c == b' ') s

-- The part before the first space, and the part behind it.
unfoldable pub split_command : Text → Text × Text
split_command s = elim (space_index s) [ none ↦ (s, []) | some i ↦ (take i s, drop (i + 1) s) ]

-- The same, where the space must stand behind the first place.
unfoldable pub split_argument : Text → Option (Text × Text)
split_argument s = elim (space_index s) [
  | none ↦ none
  | some i ↦ if i == 0 then none else some (take i s, drop (i + 1) s)
]

abbrev pub starts_with : Text → Text → Bool
starts_with [] s = true
starts_with (c ∷ cs) [] = false
starts_with (c ∷ cs) (x ∷ s) = x == c && starts_with cs s

-- `s.indexOf(part) >= 0`.
abbrev pub has_part : Text → Text → Bool
has_part part [] = starts_with part []
has_part part (x ∷ s) = if starts_with part (x ∷ s) then true else has_part part s

-- `key <name> [modifiers]`: key down, then key up.
unfoldable pub console_key : UiEnv → Text → PairingManager → PairingManager
console_key env rest m =
    let (name, modifiers) : Text × Text = elim (split_argument rest) [
      | none ↦ (rest, [])
      | some p ↦ p
    ] in
    let cmd = has_part (text "cmd") modifiers in
    let shift = has_part (text "shift") modifiers in
    let alt = has_part (text "alt") modifiers in
    let ctrl = has_part (text "ctrl") modifiers in
    let down = (send_key env.pairing name (text "down") cmd shift alt ctrl m).0 in
    (send_key env.pairing name (text "up") cmd shift alt ctrl down).0

unfoldable pub console_mute : Text → Deck → Deck
console_mute rest d =
    let s : DeviceSettings = settings_of d.pairing in
    let muted = text_eq rest (text "on") in
    record d {
      audio = set_muted muted d.audio;
      pairing = store_settings (record s { mic_muted = muted }) d.pairing;
    }

unfoldable pub console_wifi : UiEnv → Text → Deck → Option Deck
console_wifi env rest d = elim (split_argument rest) [
  | none ↦ some d
  | some p ↦ with_wifi (add_and_connect env.wifi p.0 p.1 d.wifi).0 (λ e. e) d
]

-- The command of a verb, and what it does; the others print only.
unfoldable pub console_command : Arduino → UiEnv → Text → Text → Deck → Option Deck
console_command lib env verb rest d =
    if text_eq verb (text "mode")
    then some (toggle_mode env d)
    else if text_eq verb (text "scan")
    then some (record d { wifi = start_scan d.wifi })
    else if text_eq verb (text "wifi")
    then console_wifi env rest d
    else if text_eq verb (text "forget")
    then some (record d { wifi = (forget env.wifi rest d.wifi).0 })
    else if text_eq verb (text "page") && text_eq rest (text "codex")
    then some (record d { ui = show_codex env d.ui })
    else if text_eq verb (text "discover")
    then some (record d { pairing = request_discovery env.pairing d.pairing })
    else if text_eq verb (text "connect")
    then some (record d { pairing = (connect_to_discovered (lib.to_size rest) d.pairing).0 })
    else if text_eq verb (text "pair")
    then some (record d { pairing = (submit_pair_code env.pairing rest d.pairing).0 })
    else if text_eq verb (text "key")
    then some (record d { pairing = console_key env rest d.pairing })
    else if text_eq verb (text "mute")
    then some (console_mute rest d)
    else if text_eq verb (text "disconnect")
    then some (record d { pairing = disconnect true d.pairing })
    else some d

unfoldable pub handle : Arduino → UiEnv → Text → Deck → Option Deck
handle lib env line d =
    let (verb, rest) = split_command (lib.trim line) in console_command lib env verb rest d

abbrev pub is_newline : ℕ → Bool
is_newline c = c == 10 || c == 13

-- One byte of the loop of `tick`: the line buffer and the device after it.
unfoldable pub console_byte : Arduino → UiEnv → ℕ → Text → Deck → Option (Text × Deck)
console_byte lib env c buffer d =
    if not (is_newline c)
    then some (if ltb (length buffer) 200 then buffer ++ c ∷ [] else buffer, d)
    else if is_empty buffer
    then some (buffer, d)
    else elim (handle lib env buffer d) [ none ↦ none | some e ↦ some ([], e) ]

-- `tick` over the bytes that wait.
unfoldable pub console_tick : Arduino → UiEnv → Text → Text → Deck → Option (Text × Deck)
console_tick lib env [] buffer d = some (buffer, d)
console_tick lib env (c ∷ bytes) buffer d = elim (console_byte lib env c buffer d) [
  | none ↦ none
  | some p ↦ console_tick lib env bytes p.0 p.1
]
