-- ===== src/Ui/Invariant/Lists.antt =====
-- The invariant under the handlers of the agent list and the network list, which use no entry past
-- the used ones.
use cardputer_codex_deck.Base.{
  ℕ, ◌+◌, ◌-◌, ◌%◌, ◌<◌, ◌≡◌, refl, Bool, false, ◌&&◌, ◌||◌, Option, none, some, List, [], arith,
  inl, inr, if_both, if_given, ltb, leb, length, Option-cases, Bool-cases, text_eq, find_index?,
}
use cardputer_codex_deck.Models.{PairedMac, WifiNetwork}
use cardputer_codex_deck.Wifi.State.{WifiScanResult}
use cardputer_codex_deck.Wifi.Invariant.{
  start_scan-IsValid, connect_saved-InBounds, get_elem?-in, mod_lt,
}
use cardputer_codex_deck.Wifi.Networks.{add_and_connect-InBounds, forget-IsValid}
use cardputer_codex_deck.Ui.State.{Deck, UiEnv, Page}
use cardputer_codex_deck.Ui.Input.{
  nav_up, nav_down, nav_left, nav_right, enter_pressed, back_pressed, escape_pressed, pressed,
  backspace_pressed,
}
use cardputer_codex_deck.Ui.Pages.{
  go, select_agent, move_codex, handle_codex, choose_network, move_wifi, handle_wifi,
}
use cardputer_codex_deck.Ui.Invariant.{Face, InMode, KeepsIn}
use cardputer_codex_deck.Ui.Invariant.Pages.{
  go-IsValid, list_at-IsValid, kept, with_wifi_manager, with_wifi-Keeps, select_agent-Keeps,
  acknowledge-Keeps,
}

module _ {loaded : List PairedMac} {face : Face} {d : Deck} (v : InMode loaded face d)
    (env : UiEnv) where
  move_codex-Keeps :
      (0 < length d.pairing.agents.sessions
        → d.ui.agent_selection < length d.pairing.agents.sessions)
      → KeepsIn loaded face (move_codex env d)
  unfolding move_codex
  move_codex-Keeps inside =
      let K = KeepsIn loaded face in
      let count = length d.pairing.agents.sessions in
      let i = d.ui.agent_selection in
      let ring =
        λ (j : ℕ) (h : 0 < count). select_agent-Keeps v env (j % count) (mod_lt j count h) in
      if_given K (back_pressed env.keys) (λ h. kept (go-IsValid v env Page.main refl) env)
        (λ _.
          if_given K (ltb 0 count && nav_left env.keys) (λ h. ring (i + count - 1) (ground arith))
            (λ _.
              if_given K (ltb 0 count && nav_right env.keys) (λ h. ring (i + 1) (ground arith))
                (λ _.
                  if_given K (ltb 0 count && enter_pressed env.keys)
                    (λ h. acknowledge-Keeps v env (inside (ground arith))) (λ _. kept v env))))

module _ {loaded : List PairedMac} {face : Face} {d : Deck} (v : InMode loaded face d)
    (env : UiEnv) where
  pub handle_codex-Keeps : KeepsIn loaded face (handle_codex env d)
  unfolding handle_codex select_agent
  handle_codex-Keeps =
      let count = length d.pairing.agents.sessions in
      let i = d.ui.agent_selection in
      elim (Bool-cases (ltb 0 count && leb count i)) [
        | inr inside ↦ rw inside (move_codex-Keeps v env (ground arith))
        | inl past ↦
            let last : count - 1 < count = ground arith in
            let (agent, at) = get_elem?-in d.pairing.agents.sessions (count - 1) last in
            let (e, chosen, ve) = select_agent-Keeps v env (count - 1) last in
            let u = d.ui in
            let f : Deck = record d {
              ui = record u { agent_selection = count - 1; selected_agent_id = agent.id };
            } in
            let bound = v.pairing_valid.sessions_bound in
            let vf : InMode loaded face f = ground arith in
            rw (past, at) (move_codex-Keeps vf env (λ _. last))
      ]

  choose_network-Keeps : (r : WifiScanResult) → KeepsIn loaded face (choose_network env r d)
  unfolding choose_network
  choose_network-Keeps r =
      let K = KeepsIn loaded face in
      let home = λ (e : Deck) (h : InMode loaded face e). go-IsValid h env Page.main refl in
      let u = d.ui in
      let asked : Deck = record d { ui = record u { pending_ssid = r.ssid; text_entry = [] } } in
      let vasked : InMode loaded face asked = ground arith in
      let index = find_index? (λ (n : WifiNetwork). text_eq n.ssid r.ssid) d.wifi.saved in
      elim (Bool-cases r.saved) [
        | inl saved ↦ elim (Option-cases index) [
          | inl absent ↦ simp (saved, absent) (kept v env)
          | inr (i, there) ↦
              simp (saved, there)
                (with_wifi-Keeps v env (go env Page.main) home
                  (connect_saved-InBounds env.wifi i d.wifi v.wifi_valid))
        ]
        | inr new ↦ simp new (
            if_both K r.encrypted (kept (go-IsValid vasked env Page.wifi_password refl) env) (
              with_wifi-Keeps v env (go env Page.main) home
                (add_and_connect-InBounds env.wifi r.ssid [] d.wifi v.wifi_valid)))
      ]

  move_wifi-Keeps :
      (selected : Option WifiScanResult)
      → (0 < length d.wifi.scan → (r : WifiScanResult) × (selected ≡ some r))
      → KeepsIn loaded face (move_wifi env selected d)
  unfolding move_wifi
  move_wifi-Keeps selected inside =
      let K = KeepsIn loaded face in
      let k = env.keys in
      let count = length d.wifi.scan in
      let is_saved : Bool = elim selected [ none ↦ false | some r ↦ r.saved ] in
      if_given K (k.tab || pressed k b'r')
        (λ _. kept (with_wifi_manager v env (start_scan-IsValid env.wifi d.wifi v.wifi_valid)) env)
        (λ _.
          if_given K (backspace_pressed k && ltb 0 count && is_saved)
            (λ h.
              (let (r, at) = inside (ground arith) in
                rw at (
                  kept
                    (with_wifi_manager v env (forget-IsValid env.wifi r.ssid d.wifi v.wifi_valid))
                    env)))
            (λ _.
              if_given K (escape_pressed k) (λ _. kept (go-IsValid v env Page.main refl) env)
                (λ _.
                  if_given K (ltb 0 count && nav_up k) (λ _. kept (list_at-IsValid v env _) env)
                    (λ _.
                      if_given K (ltb 0 count && nav_down k)
                        (λ _. kept (list_at-IsValid v env _) env)
                        (λ _.
                          if_given K (ltb 0 count && enter_pressed k)
                            (λ h.
                              (let (r, at) = inside (ground arith) in
                                rw at (choose_network-Keeps r)))
                            (λ _. kept v env))))))

module _ {loaded : List PairedMac} {face : Face} {d : Deck} (v : InMode loaded face d)
    (env : UiEnv) where
  pub handle_wifi-Keeps : KeepsIn loaded face (handle_wifi env d)
  unfolding handle_wifi
  handle_wifi-Keeps =
      let count = length d.wifi.scan in
      elim (Bool-cases (ltb 0 count && leb count d.ui.list_selection)) [
        | inl past ↦ rw past (
            move_wifi-Keeps (list_at-IsValid v env (count - 1)) env _
              (λ h. get_elem?-in d.wifi.scan (count - 1) (omega arith)))
        | inr inside ↦ rw inside (
            move_wifi-Keeps v env _
              (λ h. get_elem?-in d.wifi.scan d.ui.list_selection (ground arith)))
      ]
