-- ===== src/Ui/Invariant/Pages.antt =====
-- The invariant under the pages' handlers of Ui/Pages.
use cardputer_codex_deck.Base.{ℕ, ◌<◌, ◌≡◌, refl, false, Option, some, List, arith, if_both, length}
use cardputer_codex_deck.Models.{PairedMac}
use cardputer_codex_deck.Pairing.State.{PairingManager}
use cardputer_codex_deck.Pairing.Invariant as Pairing
use cardputer_codex_deck.Pairing.Invariant.Discovery.{request_discovery-IsValid}
use cardputer_codex_deck.Pairing.Invariant.Manager.{send_agent_ack-IsValid}
use cardputer_codex_deck.Wifi.State.{WifiManager}
use cardputer_codex_deck.Wifi.Invariant as Wifi
use cardputer_codex_deck.Wifi.Invariant.{start_scan-IsValid, connect_saved-InBounds, get_elem?-in}
use cardputer_codex_deck.Ui.State.{DeviceUi, Deck, UiEnv, Page, is_pair_code}
use cardputer_codex_deck.Ui.Pages.{
  go, list_at, remembered, remember_setting, move_left, move_right, move_up, move_down,
  open_selected, handle_main, select_agent, acknowledge, with_wifi,
}
use cardputer_codex_deck.Ui.Invariant.{Face, UiValid, InMode, KeepsIn}
use cardputer_codex_deck.Ui.Invariant.Screen.{
  with_ui-IsValid, set_page-UiValid, show_codex-UiValid, remember_setting-UiValid,
  move_left-UiValid, move_right-UiValid, move_up-UiValid, move_down-UiValid,
}

module _ {loaded : List PairedMac} {face : Face} {d : Deck} (v : InMode loaded face d)
    (env : UiEnv) where
  pub go-IsValid : (page : Page) → is_pair_code page ≡ false → InMode loaded face (go env page d)
  go-IsValid page other = with_ui-IsValid v env (set_page-UiValid v.ui_valid env page other)

  pub list_at-IsValid : (i : ℕ) → InMode loaded face (list_at i d)
  list_at-IsValid i = ground arith

  remembered-IsValid : InMode loaded face (remembered d)
  unfolding remembered
  remembered-IsValid = with_ui-IsValid v env (remember_setting-UiValid v.ui_valid)

  remembered_ui-IsValid :
      (u : DeviceUi)
      → UiValid face d.audio.active (remember_setting u)
      → InMode loaded face (remembered (record d { ui = u }))
  unfolding remembered
  remembered_ui-IsValid u h = with_ui-IsValid v env h

  pub kept : KeepsIn loaded face (some d)
  kept = (d, refl, v)

  -- The WiFi manager and the pairing manager are exchanged for valid ones.
  pub with_wifi_manager :
      {w : WifiManager} → Wifi.IsValid w → InMode loaded face (record d { wifi = w })
  with_wifi_manager h = record {
    wifi_valid = h;
    pairing_valid = v.pairing_valid;
    ui_valid = v.ui_valid;
    ring_bound = v.ring_bound;
    level_bound = v.level_bound;
  }

  pub with_pairing_manager :
      {m : PairingManager}
      → Pairing.IsValid loaded m
      → InMode loaded face (record d { pairing = m })
  with_pairing_manager h = record {
    wifi_valid = v.wifi_valid;
    pairing_valid = h;
    ui_valid = v.ui_valid;
    ring_bound = v.ring_bound;
    level_bound = v.level_bound;
  }

  pub with_wifi-Keeps :
      {o : Option WifiManager} (after : Deck → Deck)
      → ((e : Deck) → InMode loaded face e → InMode loaded face (after e))
      → Wifi.InBounds o
      → KeepsIn loaded face (with_wifi o after d)
  with_wifi-Keeps after keeps (w, result, h) = rw result (_, refl, keeps _ (with_wifi_manager h))

  pub select_agent-Keeps :
      (i : ℕ) → i < length d.pairing.agents.sessions → KeepsIn loaded face (select_agent i d)
  unfolding select_agent
  select_agent-Keeps i h =
      let (agent, at) = get_elem?-in d.pairing.agents.sessions i h in
      let bound = v.pairing_valid.sessions_bound in rw (at, select_agent) (_, refl, ground arith)

  pub acknowledge-Keeps :
      d.ui.agent_selection < length d.pairing.agents.sessions
      → KeepsIn loaded face (acknowledge env d)
  acknowledge-Keeps h =
      let (agent, at) = get_elem?-in d.pairing.agents.sessions d.ui.agent_selection h in
      rw (at, acknowledge)
        (
          _,
          refl,
          with_pairing_manager (send_agent_ack-IsValid v.pairing_valid env.pairing agent.id),
        )

module _ {loaded : List PairedMac} {face : Face} {d : Deck} (v : InMode loaded face d)
    (env : UiEnv) where
  open_selected-IsValid : InMode loaded face (open_selected env d)
  unfolding open_selected
  open_selected-IsValid =
      let P = InMode loaded face in
      let e = list_at-IsValid v env 0 in
      let scan = with_wifi_manager e env (start_scan-IsValid env.wifi d.wifi v.wifi_valid) in
      let find =
        with_pairing_manager e env (request_discovery-IsValid v.pairing_valid env.pairing) in
      if_both P _ (with_ui-IsValid v env (show_codex-UiValid v.ui_valid env)) (
        if_both P _ (go-IsValid scan env Page.wifi refl) (
          if_both P _ (go-IsValid find env Page.computers refl) (
            if_both P _ (go-IsValid v env Page.brightness refl)
              (if_both P _ (go-IsValid v env Page.screen_off refl) v))))

  pub handle_main-IsValid : InMode loaded face (handle_main env d)
  unfolding handle_main
  handle_main-IsValid =
      let P = λ (e : Deck). InMode loaded face (remembered e) in
      let u = v.ui_valid in
      let home = remembered_ui-IsValid v env in
      if_both P _ (home (move_left d.ui) (move_left-UiValid u)) (
        if_both P _ (home (move_right d.ui) (move_right-UiValid u)) (
          if_both P _ (home (move_up d.ui) (move_up-UiValid u)) (
            if_both P _ (home (move_down d.ui) (move_down-UiValid u)) (
              if_both P _ (remembered-IsValid open_selected-IsValid env)
                (remembered-IsValid v env)))))
