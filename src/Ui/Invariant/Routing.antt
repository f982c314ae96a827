-- ===== src/Ui/Invariant/Routing.antt =====
-- The invariant across what `tick` calls besides the buttons, and the choice of the page's handler.
use cardputer_codex_deck.Base.{
  ◌-◌, ◌<◌, ◌≡◌, refl, Bool, false, ◌||◌, not, List, arith, inl, inr, if_both, ◌==◌, is_empty,
  length, find_index?, find_index?-lt, Option-cases, Bool-cases, text_eq, min,
}
use cardputer_codex_deck.Models.{PairedMac, AgentSession}
use cardputer_codex_deck.Pairing.Invariant.Discovery.{request_discovery-IsValid}
use cardputer_codex_deck.Wifi.State.{WifiManager}
use cardputer_codex_deck.Wifi.Invariant as Wifi
use cardputer_codex_deck.Wifi.Invariant.{start_scan-IsValid}
use cardputer_codex_deck.Audio.State.{set_active}
use cardputer_codex_deck.Ui.State.{
  is_pair_code, Deck, UiEnv, Page, main, codex, wifi, wifi_password, computers, add_computer,
  pair_code, brightness, screen_off,
}
use cardputer_codex_deck.Ui.Pages.{set_page, go}
use cardputer_codex_deck.Ui.Forms.{clear_text}
use cardputer_codex_deck.Ui.Controller.{
  set_mode, toggle_mode, suppress, first_boot, scan_computers, find_selected, handle_page,
  shows_codex, request_render,
}
use cardputer_codex_deck.Ui.Invariant.{Face, at_mode, InMode, KeepsIn}
use cardputer_codex_deck.Ui.Invariant.Pages.{
  go-IsValid, kept, with_wifi_manager, select_agent-Keeps, handle_main-IsValid,
}
use cardputer_codex_deck.Ui.Invariant.Lists.{handle_codex-Keeps, handle_wifi-Keeps}
use cardputer_codex_deck.Ui.Invariant.Forms.{
  handle_password-Keeps, handle_computers-IsValid, handle_add_computer-IsValid,
  handle_pair_code-IsValid, handle_brightness-Keeps, handle_screen_off-Keeps,
}

module _ {loaded : List PairedMac} {face : Face} {d : Deck} (v : InMode loaded face d)
    (env : UiEnv) where
  pub suppress-IsValid : (b : Bool) → InMode loaded face (record d { ui = suppress b d.ui })
  suppress-IsValid b = ground arith

  pub toggle_mode-IsValid : InMode loaded (at_mode (not face.remote) face) (toggle_mode env d)
  unfolding toggle_mode set_mode set_active
  toggle_mode-IsValid = ground arith

  -- The pair code's page starts with no text.
  pub pair_code-IsValid : InMode loaded face (go env pair_code (clear_text d))
  unfolding set_page
  pair_code-IsValid = ground arith

  pub scan_computers-IsValid : InMode loaded face (scan_computers env d)
  unfolding scan_computers
  scan_computers-IsValid =
      let p = request_discovery-IsValid v.pairing_valid env.pairing in ground arith

  pub first_boot-IsValid : InMode loaded face (first_boot env d)
  unfolding first_boot
  first_boot-IsValid =
      let w = d.wifi in
      let seen : WifiManager = record w { needs_setup = false } in
      let vw : Wifi.IsValid seen = let h = v.wifi_valid in ground arith in
      if_both (InMode loaded face) _
        (go-IsValid (with_wifi_manager v env (start_scan-IsValid env.wifi seen vw)) env Page.wifi
          refl)
        v

  pub render-IsValid : InMode loaded face (request_render d)
  render-IsValid = ground arith

  pub find_selected-Keeps : KeepsIn loaded face (find_selected d)
  unfolding find_selected
  find_selected-Keeps =
      let u = d.ui in
      let sessions = d.pairing.agents.sessions in
      let same = λ (a : AgentSession). text_eq a.id u.selected_agent_id in
      let bound = v.pairing_valid.sessions_bound in
      elim (Bool-cases (not (shows_codex u.page) || is_empty u.selected_agent_id)) [
        | inl other ↦ rw other (kept v env)
        | inr on ↦ elim (Option-cases (find_index? same sessions)) [
          | inr (i, there) ↦
              let inside : i < length sessions = find_index?-lt same sessions there in
              rw (on, there) (_, refl, ground arith)
          | inl absent ↦ elim (Bool-cases (length sessions == 0)) [
            | inl empty ↦ rw (on, absent, empty) (_, refl, ground arith)
            | inr some_left ↦
                rw (on, absent, some_left)
                  (select_agent-Keeps v env (min u.agent_selection (length sessions - 1))
                    (ground arith))
          ]
        ]
      ]

  pub handle_page-Keeps :
      (p : Page)
      → (is_pair_code p ≡ false → is_pair_code d.ui.page ≡ false)
      → KeepsIn loaded face (handle_page env p d)
  unfolding handle_page
  handle_page-Keeps main at = kept (handle_main-IsValid v env) env
  handle_page-Keeps codex at = handle_codex-Keeps v env
  handle_page-Keeps wifi at = handle_wifi-Keeps v env
  handle_page-Keeps wifi_password at = handle_password-Keeps v env (at refl)
  handle_page-Keeps computers at = kept (handle_computers-IsValid v env) env
  handle_page-Keeps add_computer at = kept (handle_add_computer-IsValid v env) env
  handle_page-Keeps pair_code at = kept (handle_pair_code-IsValid v env) env
  handle_page-Keeps brightness at = handle_brightness-Keeps v env
  handle_page-Keeps screen_off at = handle_screen_off-Keeps v env
