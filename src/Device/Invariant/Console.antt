-- ===== src/Device/Invariant/Console.antt =====
-- The invariant under the commands of the console.
use cardputer_codex_deck.Base.{
  ℕ, ◌≤◌, ◌≡◌, refl, true, Option, none, some, List, [], ◌∷◌, ◌++◌, arith, inl, inr, Text, text,
  text_eq, is_empty, ltb, not, if_both, if_given, ltb→lt, length, length-append, Option-cases,
}
use cardputer_codex_deck.Models.{PairedMac}
use cardputer_codex_deck.Pairing.State.{PairingManager}
use cardputer_codex_deck.Pairing.Invariant as Pairing
use cardputer_codex_deck.Pairing.Invariant.Link.{disconnect-IsValid}
use cardputer_codex_deck.Pairing.Invariant.Discovery.{request_discovery-IsValid}
use cardputer_codex_deck.Pairing.Invariant.Manager.{
  connect_to_discovered-IsValid, submit_pair_code-IsValid, send_key-IsValid,
}
use cardputer_codex_deck.Wifi.Invariant.{start_scan-IsValid}
use cardputer_codex_deck.Wifi.Networks.{add_and_connect-InBounds, forget-IsValid}
use cardputer_codex_deck.Audio.State.{set_muted}
use cardputer_codex_deck.Ui.State.{Deck, UiEnv, settings_of}
use cardputer_codex_deck.Ui.Invariant.{Face, InMode, IsValid, Keeps, KeepsIn-Keeps}
use cardputer_codex_deck.Ui.Invariant.Screen.{with_ui-IsValid, show_codex-UiValid}
use cardputer_codex_deck.Ui.Invariant.Pages.{
  with_wifi_manager, with_pairing_manager, with_wifi-Keeps,
}
use cardputer_codex_deck.Ui.Invariant.Forms.{store_settings-IsValid}
use cardputer_codex_deck.Ui.Invariant.Routing.{toggle_mode-IsValid}
use cardputer_codex_deck.Device.State.{Arduino}
use cardputer_codex_deck.Device.Console.{
  split_command, split_argument, console_key, console_mute, console_wifi, console_command, handle,
  is_newline, console_byte, console_tick,
}

settled :
    {loaded : List PairedMac} {face : Face} {d : Deck}
    → InMode loaded face d
    → Keeps loaded (some d)
settled {d = d} v = KeepsIn-Keeps (d, refl, v)

module _ {loaded : List PairedMac} {d : Deck} (v : IsValid loaded d) (env : UiEnv) where
  console_mute-IsValid : (rest : Text) → IsValid loaded (console_mute rest d)
  unfolding console_mute set_muted
  console_mute-IsValid rest =
      let s = settings_of d.pairing in
      let p =
        store_settings-IsValid v.pairing_valid
          (record s { mic_muted = text_eq rest (text "on") }) in
      ground arith

  console_wifi-Keeps : (rest : Text) → Keeps loaded (console_wifi env rest d)
  unfolding console_wifi
  console_wifi-Keeps rest = elim (Option-cases (split_argument rest)) [
    | inl usage ↦ rw (usage, console_wifi) (settled v)
    | inr (p, named) ↦
        rw (named, console_wifi)
          (KeepsIn-Keeps (
            with_wifi-Keeps v env (λ e. e) (λ e h. h)
              (add_and_connect-InBounds env.wifi p.0 p.1 d.wifi v.wifi_valid)))
  ]

  console_key-IsValid : (rest : Text) → Pairing.IsValid loaded (console_key env rest d.pairing)
  unfolding console_key
  console_key-IsValid rest =
      let p = v.pairing_valid in
      send_key-IsValid (send_key-IsValid p env.pairing _ _ _ _ _ _) env.pairing _ _ _ _ _ _

  console_command-Keeps :
      (lib : Arduino) (verb rest : Text) → Keeps loaded (console_command lib env verb rest d)
  unfolding console_command
  console_command-Keeps lib verb rest =
      let K = Keeps loaded in
      let p = v.pairing_valid in
      let managed = λ (m : PairingManager) (h : Pairing.IsValid loaded m).
        settled (with_pairing_manager v env h) in
      if_both K _ (settled (toggle_mode-IsValid v env)) (
        if_both K _
          (settled (with_wifi_manager v env (start_scan-IsValid env.wifi d.wifi v.wifi_valid)))
          (if_both K _ (console_wifi-Keeps rest) (
            if_both K _
              (settled (with_wifi_manager v env (forget-IsValid env.wifi rest d.wifi v.wifi_valid)))
              (if_both K _ (settled (with_ui-IsValid v env (show_codex-UiValid v.ui_valid env))) (
                if_both K _ (managed _ (request_discovery-IsValid p env.pairing)) (
                  if_both K _ (managed _ (connect_to_discovered-IsValid p (lib.to_size rest))) (
                    if_both K _ (managed _ (submit_pair_code-IsValid p env.pairing rest)) (
                      if_both K _ (managed _ (console_key-IsValid rest)) (
                        if_both K _ (settled (console_mute-IsValid rest))
                          (if_both K _ (managed _ (disconnect-IsValid p true)) (settled v)))))))))))

  handle-Keeps : (lib : Arduino) (line : Text) → Keeps loaded (handle lib env line d)
  unfolding handle
  handle-Keeps lib line =
      console_command-Keeps lib (split_command (lib.trim line)).0 (split_command (lib.trim line)).1

-- The line and the device after some bytes.
abbrev pub Console : List PairedMac → Option (Text × Deck) → Type 0
Console loaded o = (p : Text × Deck) × (o ≡ some p) × ((length p.0 ≤ 200) × IsValid loaded p.1)

console_byte-Console :
    (lib : Arduino) (env : UiEnv) (c : ℕ) (buffer : Text) {loaded : List PairedMac} {d : Deck}
    → length buffer ≤ 200
    → IsValid loaded d
    → Console loaded (console_byte lib env c buffer d)
unfolding console_byte
console_byte-Console lib env c buffer {loaded} {d} h v =
    let longer = length-append buffer (c ∷ []) in
    let (e, result, ve) = handle-Keeps v env lib buffer in
    if_both (Console loaded) (not (is_newline c))
      (
        _,
        refl,
        (
          if_given (λ (b : Text). length b ≤ 200) (ltb (length buffer) 200) {x = buffer ++ c ∷ []}
              {y = buffer} (λ room. omega (arith, longer, ltb→lt (length buffer) 200 room))
              (λ _. h),
          v,
        ),
      )
      (if_both (Console loaded) (is_empty buffer)
        {y = elim (handle lib env buffer d) [ none ↦ none | some e ↦ some ([], e) ]}
        (_, refl, (h, v)) (rw result (_, refl, (omega arith, ve))))

pub console_tick-Console :
    (lib : Arduino) (env : UiEnv) (bytes buffer : Text) {loaded : List PairedMac} {d : Deck}
    → length buffer ≤ 200
    → IsValid loaded d
    → Console loaded (console_tick lib env bytes buffer d)
unfolding console_tick
console_tick-Console lib env [] buffer h v = (_, refl, (h, v))
console_tick-Console lib env (c ∷ bytes) buffer h v =
    let (p, result, (k, w)) = console_byte-Console lib env c buffer h v in
    rw (result, console_tick) (console_tick-Console lib env bytes p.0 k w)
