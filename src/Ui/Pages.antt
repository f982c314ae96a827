-- ===== src/Ui/Pages.antt =====
-- firmware/m5stack-cardputer-adv/src/ui.cpp: what each page does with a keypress. `none` is an
-- access past the used entries of an array.
use cardputer_codex_deck.Base.{
  ℕ, ◌+◌, ◌-◌, ◌%◌, Bool, true, false, ◌&&◌, ◌||◌, not, Option, none, some, [], text_eq, ◌==◌, ltb,
  leb, if◌then◌else◌, length, get_elem?, find_index?,
}
use cardputer_codex_deck.Models.{WifiNetwork}
use cardputer_codex_deck.Pairing.Send.{send_agent_ack}
use cardputer_codex_deck.Pairing.Discovery.{request_discovery}
use cardputer_codex_deck.Wifi.State.{WifiScanResult, WifiManager}
use cardputer_codex_deck.Wifi.Manager.{start_scan, connect_saved, add_and_connect, forget}
use cardputer_codex_deck.Ui.State.{
  DeviceUi, Deck, UiEnv, Page, main, codex, wifi, wifi_password, computers, brightness, screen_off,
}
use cardputer_codex_deck.Ui.Input.{
  pressed, nav_up, nav_down, nav_left, nav_right, enter_pressed, escape_pressed, backspace_pressed,
  back_pressed,
}

unfoldable pub set_page : UiEnv → Page → DeviceUi → DeviceUi
set_page env page u = record u {
  page = page;
  list_selection = 0;
  suppress_until_release = env.is_pressed;
  render_requested = true;
}

abbrev pub go : UiEnv → Page → Deck → Deck
go env page d = record d { ui = set_page env page d.ui }

unfoldable pub show_codex : UiEnv → DeviceUi → DeviceUi
show_codex env u =
    set_page env codex
      (record u { last_agent_focus_id = []; last_agent_focus_seq = 0; selected_agent_id = [] })

-- One step back or forth in a ring of `count` entries.
abbrev pub previous_of : ℕ → ℕ → ℕ
previous_of count i = (i + count - 1) % count

abbrev pub next_of : ℕ → ℕ → ℕ
next_of count i = (i + 1) % count

abbrev pub list_at : ℕ → Deck → Deck
list_at i d = let u = d.ui in record d { ui = record u { list_selection = i } }

-- The branches of the arrow keys on the home screen.
unfoldable pub move_left : DeviceUi → DeviceUi
move_left u =
    let s = u.main_selection in
    if ltb 0 s && not (s == 2) && not (s == 4)
    then record u { home_setting_selection = s - 1; main_selection = 0 }
    else record u { main_selection = if s == 2 then 1 else if s == 4 then 3 else s }

unfoldable pub move_right : DeviceUi → DeviceUi
move_right u =
    let s = u.main_selection in
    record u {
      main_selection =
          if s == 0
          then u.home_setting_selection + 1
          else if s == 1
          then 2
          else if s == 3
          then 4
          else s;
    }

unfoldable pub move_up : DeviceUi → DeviceUi
move_up u =
    let s = u.main_selection in
    record u { main_selection = if s == 3 then 1 else if s == 4 then 2 else s }

unfoldable pub move_down : DeviceUi → DeviceUi
move_down u =
    let s = u.main_selection in
    record u { main_selection = if s == 1 then 3 else if s == 2 then 4 else s }

-- The `switch` of the home screen on Enter.
unfoldable pub open_selected : UiEnv → Deck → Deck
open_selected env d =
    let s = d.ui.main_selection in
    let e = list_at 0 d in
    if s == 0
    then record d { ui = show_codex env d.ui }
    else if s == 1
    then go env wifi (record e { wifi = start_scan e.wifi })
    else if s == 2
    then go env computers (record e { pairing = request_discovery env.pairing e.pairing })
    else if s == 3
    then go env brightness d
    else if s == 4
    then go env screen_off d
    else d

abbrev pub remember_setting : DeviceUi → DeviceUi
remember_setting u =
    if ltb 0 u.main_selection then record u { home_setting_selection = u.main_selection - 1 } else u

unfoldable pub remembered : Deck → Deck
remembered d = record d { ui = remember_setting d.ui }

unfoldable pub handle_main : UiEnv → Deck → Deck
handle_main env d =
    let k = env.keys in
    remembered (
      if nav_left k
      then record d { ui = move_left d.ui }
      else if nav_right k
      then record d { ui = move_right d.ui }
      else if nav_up k
      then record d { ui = move_up d.ui }
      else if nav_down k
      then record d { ui = move_down d.ui }
      else if enter_pressed k
      then open_selected env d
      else d)

-- `agentSelection_ = i; selectedAgentId_ = pairing_.agent(i).id`.
unfoldable pub select_agent : ℕ → Deck → Option Deck
select_agent i d = elim (get_elem? d.pairing.agents.sessions i) [
  | none ↦ none
  | some agent ↦
      let u = d.ui in
      some (record d { ui = record u { agent_selection = i; selected_agent_id = agent.id } })
]

abbrev pub acknowledge : UiEnv → Deck → Option Deck
acknowledge env d = elim (get_elem? d.pairing.agents.sessions d.ui.agent_selection) [
  | none ↦ none
  | some agent ↦ some (record d { pairing = (send_agent_ack env.pairing agent.id d.pairing).0 })
]

-- `handleCodex` behind its first test.
unfoldable pub move_codex : UiEnv → Deck → Option Deck
move_codex env d =
    let k = env.keys in
    let count = length d.pairing.agents.sessions in
    let i = d.ui.agent_selection in
    if back_pressed k
    then some (go env main d)
    else if ltb 0 count && nav_left k
    then select_agent (previous_of count i) d
    else if ltb 0 count && nav_right k
    then select_agent (next_of count i) d
    else if ltb 0 count && enter_pressed k
    then acknowledge env d
    else some d

unfoldable pub handle_codex : UiEnv → Deck → Option Deck
handle_codex env d =
    let count = length d.pairing.agents.sessions in
    if ltb 0 count && leb count d.ui.agent_selection
    then elim (select_agent (count - 1) d) [ none ↦ none | some e ↦ move_codex env e ]
    else move_codex env d

-- A call of the WiFi manager and what follows.
abbrev pub with_wifi : Option WifiManager → (Deck → Deck) → Deck → Option Deck
with_wifi none after d = none
with_wifi (some w) after d = some (after (record d { wifi = w }))

-- Enter on a network of the list.
unfoldable pub choose_network : UiEnv → WifiScanResult → Deck → Option Deck
choose_network env selected d =
    let u = d.ui in
    if selected.saved
    then elim (find_index? (λ (n : WifiNetwork). text_eq n.ssid selected.ssid) d.wifi.saved) [
      | none ↦ some d
      | some i ↦ with_wifi (connect_saved env.wifi i d.wifi).0 (go env main) d
    ]
    else if selected.encrypted
    then some (
        go env wifi_password
          (record d { ui = record u { pending_ssid = selected.ssid; text_entry = [] } }))
    else with_wifi (add_and_connect env.wifi selected.ssid [] d.wifi).0 (go env main) d

-- `handleWifi` behind its first test, with `wifi_.scanResult(listSelection_)` if the list has it.
unfoldable pub move_wifi : UiEnv → Option WifiScanResult → Deck → Option Deck
move_wifi env selected d =
    let k = env.keys in
    let count = length d.wifi.scan in
    let i = d.ui.list_selection in
    let is_saved : Bool = elim selected [ none ↦ false | some r ↦ r.saved ] in
    if k.tab || pressed k b'r'
    then some (record d { wifi = start_scan d.wifi })
    else if backspace_pressed k && ltb 0 count && is_saved
    then elim selected [
      | none ↦ none
      | some r ↦ some (record d { wifi = (forget env.wifi r.ssid d.wifi).0 })
    ]
    else if escape_pressed k
    then some (go env main d)
    else if ltb 0 count && nav_up k
    then some (list_at (previous_of count i) d)
    else if ltb 0 count && nav_down k
    then some (list_at (next_of count i) d)
    else if ltb 0 count && enter_pressed k
    then elim selected [ none ↦ none | some r ↦ choose_network env r d ]
    else some d

unfoldable pub handle_wifi : UiEnv → Deck → Option Deck
handle_wifi env d =
    let count = length d.wifi.scan in
    let e = if ltb 0 count && leb count d.ui.list_selection then list_at (count - 1) d else d in
    move_wifi env (get_elem? e.wifi.scan e.ui.list_selection) e
