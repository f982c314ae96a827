-- ===== src/Ui/Invariant/Forms.antt =====
-- The invariant under the handlers of Ui/Forms.
use cardputer_codex_deck.Base.{
  ℕ, ◌+◌, ◌-◌, ◌≤◌, ◌<◌, ◌≡◌, refl, Bool, true, false, ◌&&◌, not, some, List, [], ◌∷◌, ◌++◌, arith,
  inl, inr, if_both, ltb, leb, if◌then◌else◌, length, length-append, length-take, max, Option-cases,
  Bool-cases, Text, is_digit,
}
use cardputer_codex_deck.Models.{PairedMac, DeviceSettings}
use cardputer_codex_deck.Pairing.State.{PairingManager}
use cardputer_codex_deck.Pairing.Manager.{paired_current}
use cardputer_codex_deck.Pairing.Invariant as Pairing
use cardputer_codex_deck.Pairing.Invariant.Link.{disconnect-IsValid}
use cardputer_codex_deck.Pairing.Invariant.Discovery.{request_discovery-IsValid}
use cardputer_codex_deck.Pairing.Invariant.Manager.{
  connect_to_discovered-IsValid, connect_to_paired-IsValid, delete_pairing-IsValid,
  submit_pair_code-IsValid,
}
use cardputer_codex_deck.Wifi.Invariant.{get_elem?-in, mod_lt}
use cardputer_codex_deck.Wifi.Networks.{add_and_connect-InBounds}
use cardputer_codex_deck.Ui.State.{Deck, UiEnv, Page, is_pair_code, settings_of}
use cardputer_codex_deck.Ui.Characters.{remove_last, append_typed_text}
use cardputer_codex_deck.Ui.Power.{
  brightness_levels, screen_timeouts, brightness_level_index, screen_timeout_index,
}
use cardputer_codex_deck.Ui.Input.{nav_up, nav_down, enter_pressed, back_pressed}
use cardputer_codex_deck.Ui.Pages.{go, previous_of, next_of}
use cardputer_codex_deck.Ui.Forms.{
  edit_text, clear_text, handle_password, choose_computer, delete_computer, handle_computers,
  handle_add_computer, handle_pair_code, step_level, store_settings, handle_brightness,
  handle_screen_off,
}
use cardputer_codex_deck.Ui.Invariant.{Face, InMode, KeepsIn}
use cardputer_codex_deck.Ui.Invariant.Screen.{note_activity-IsValid}
use cardputer_codex_deck.Ui.Invariant.Pages.{
  go-IsValid, list_at-IsValid, kept, with_pairing_manager, with_wifi-Keeps,
}

pub length-append_typed_text :
    (word : Text) (n : ℕ) (digits : Bool) (s : Text)
    → length (append_typed_text word n digits s) ≤ max n (length s)
unfolding append_typed_text
length-append_typed_text [] n digits s = omega arith
length-append_typed_text (c ∷ word) n digits s =
    let longer = length-append s (c ∷ []) in
    let wanted = not (digits && not (is_digit c)) && leb 32 c && leb c 126 in
    let next : Text = if wanted then s ++ c ∷ [] else s in
    let rest = length-append_typed_text word n digits next in
    let grows : length next ≤ length s + 1 =
      if_both (λ (t : Text). length t ≤ length s + 1) wanted {x = s ++ c ∷ []} {y = s} (omega arith)
        (omega arith) in
    elim (Bool-cases (leb n (length s))) [
      | inl full ↦ rw full (omega arith)
      | inr room ↦ rw room (ground arith)
    ]

pub length-remove_last : (s : Text) → length (remove_last s) ≤ length s
length-remove_last [] = omega arith
length-remove_last (c ∷ s) = omega (arith, length-take (length (c ∷ s) - 1) (c ∷ s))

clear_text-IsValid :
    {loaded : List PairedMac} {face : Face} {d : Deck}
    → InMode loaded face d
    → InMode loaded face (clear_text d)
clear_text-IsValid v = ground arith

module _ {loaded : List PairedMac} {face : Face} {d : Deck} (v : InMode loaded face d)
    (env : UiEnv) where
  edit_text-IsValid :
      (n : ℕ) (digits : Bool)
      → n ≤ 63
      → (is_pair_code d.ui.page ≡ true → n ≤ 6)
      → InMode loaded face (record d { ui = edit_text env n digits d.ui })
  edit_text-IsValid n digits limit code =
      let shorter = length-remove_last d.ui.text_entry in
      let bound = length-append_typed_text env.keys.word n digits d.ui.text_entry in
      elim (Bool-cases env.keys.del) [
        | inl del ↦ rw del (ground arith)
        | inr typed ↦ rw typed (ground arith)
      ]

  pub handle_password-Keeps :
      is_pair_code d.ui.page ≡ false → KeepsIn loaded face (handle_password env d)
  unfolding handle_password
  handle_password-Keeps at =
      let K = KeepsIn loaded face in
      if_both K _ (kept (go-IsValid v env Page.wifi refl) env) (
        if_both K _
          (with_wifi-Keeps v env (λ e. go env Page.main (clear_text e))
            (λ e h. go-IsValid (clear_text-IsValid h) env Page.main refl)
            (add_and_connect-InBounds env.wifi d.ui.pending_ssid d.ui.text_entry d.wifi
              v.wifi_valid))
          (kept (edit_text-IsValid 63 false (omega arith) (λ h. absurd (ground arith))) env))

  choose_computer-IsValid : InMode loaded face (choose_computer env d)
  unfolding choose_computer
  choose_computer-IsValid =
      let p = v.pairing_valid in
      let i = d.ui.list_selection in
      if_both (InMode loaded face) _
        (with_pairing_manager v env (
          if_both (Pairing.IsValid loaded) (paired_current d.pairing i) (disconnect-IsValid p true)
            (connect_to_paired-IsValid p i)))
        (if_both (InMode loaded face) _
          (go-IsValid
            (list_at-IsValid (with_pairing_manager v env (request_discovery-IsValid p env.pairing))
              env 0)
            env Page.add_computer refl)
          (go-IsValid v env Page.main refl))

  delete_computer-IsValid : InMode loaded face (delete_computer env d)
  unfolding delete_computer
  delete_computer-IsValid =
      let e =
        with_pairing_manager v env
          (delete_pairing-IsValid v.pairing_valid env.saved d.ui.list_selection) in
      if_both (InMode loaded face) _ (list_at-IsValid e env (d.ui.list_selection - 1)) e

  pub handle_computers-IsValid : InMode loaded face (handle_computers env d)
  unfolding handle_computers
  handle_computers-IsValid =
      let P = InMode loaded face in
      let k = env.keys in
      let i = d.ui.list_selection in
      let rows = length d.pairing.paired + 2 in
      if_both P _ delete_computer-IsValid (
        if_both P _ (go-IsValid v env Page.main refl) (
          if_both P (nav_up k) (list_at-IsValid v env (previous_of rows i)) (
            if_both P (nav_down k) (list_at-IsValid v env (next_of rows i))
              (if_both P (enter_pressed k) choose_computer-IsValid v))))

  pub handle_add_computer-IsValid : InMode loaded face (handle_add_computer env d)
  unfolding handle_add_computer
  handle_add_computer-IsValid =
      let P = InMode loaded face in
      let p = v.pairing_valid in
      let k = env.keys in
      let i = d.ui.list_selection in
      let count = length d.pairing.discovered in
      if_both P _ (with_pairing_manager v env (request_discovery-IsValid p env.pairing)) (
        if_both P _ (go-IsValid v env Page.computers refl) (
          if_both P (ltb 0 count && nav_up k) (list_at-IsValid v env (previous_of count i)) (
            if_both P (ltb 0 count && nav_down k) (list_at-IsValid v env (next_of count i)) (
              if_both P (ltb 0 count && enter_pressed k)
                (with_pairing_manager v env (connect_to_discovered-IsValid p d.ui.list_selection))
                v))))

  pub handle_pair_code-IsValid : InMode loaded face (handle_pair_code env d)
  unfolding handle_pair_code
  handle_pair_code-IsValid =
      let P = InMode loaded face in
      let p = v.pairing_valid in
      if_both P _
        (go-IsValid (with_pairing_manager v env (disconnect-IsValid p true)) env Page.computers
          refl)
        (if_both P _
          (with_pairing_manager v env (submit_pair_code-IsValid p env.pairing d.ui.text_entry))
          (edit_text-IsValid 6 true (omega arith) (λ _. omega arith)))

pub store_settings-IsValid :
    {loaded : List PairedMac} {m : PairingManager}
    → Pairing.IsValid loaded m
    → (s : DeviceSettings) → Pairing.IsValid loaded (store_settings s m)
store_settings-IsValid v s = ground arith

-- A step from any index stays inside a ladder.
pub step_level-lt :
    (env : UiEnv) (count current : ℕ) {next : ℕ}
    → 0 < count
    → step_level env count current ≡ some next
    → next < count
step_level-lt env count current h k =
    ground (arith, mod_lt (current + count + 1) count h, mod_lt (current + count - 1) count h)

module _ {loaded : List PairedMac} {face : Face} {d : Deck} (v : InMode loaded face d)
    (env : UiEnv) where
  pub handle_brightness-Keeps : KeepsIn loaded face (handle_brightness env d)
  unfolding handle_brightness
  handle_brightness-Keeps =
      let s = settings_of d.pairing in
      let step = step_level env (length brightness_levels) (brightness_level_index s.brightness) in
      elim (Bool-cases (back_pressed env.keys)) [
        | inl back ↦ rw back (kept (go-IsValid v env Page.main refl) env)
        | inr on ↦ elim (Option-cases step) [
          | inl no_key ↦ rw (on, no_key) (kept v env)
          | inr (next, pressed) ↦
              let (level, at) =
                get_elem?-in brightness_levels next (step_level-lt env _ _ (omega arith) pressed) in
              let p = store_settings-IsValid v.pairing_valid (record s { brightness = level }) in
              rw (on, pressed, at) (_, refl, ground arith)
        ]
      ]

  pub handle_screen_off-Keeps : KeepsIn loaded face (handle_screen_off env d)
  unfolding handle_screen_off
  handle_screen_off-Keeps =
      let s = settings_of d.pairing in
      let step =
        step_level env (length screen_timeouts) (screen_timeout_index s.screen_timeout_sec) in
      elim (Bool-cases (back_pressed env.keys)) [
        | inl back ↦ rw back (kept (go-IsValid v env Page.main refl) env)
        | inr on ↦ elim (Option-cases step) [
          | inl no_key ↦ rw (on, no_key) (kept v env)
          | inr (next, pressed) ↦
              let (seconds, at) =
                get_elem?-in screen_timeouts next (step_level-lt env _ _ (omega arith) pressed) in
              let p =
                store_settings-IsValid v.pairing_valid
                  (record s { screen_timeout_sec = seconds }) in
              rw (on, pressed, at)
                (_, refl, note_activity-IsValid (with_pairing_manager v env p) env)
        ]
      ]
