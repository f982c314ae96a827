-- ===== src/Ui/Invariant/Controller.antt =====
-- The invariant across `tick`, `begin` and the mode switch.
use cardputer_codex_deck.Base.{
  ◌≤◌, ◌≡◌, refl, Bool, true, false, ◌&&◌, ◌||◌, not, Option, some, List, arith, inl, inr, if_both,
  length, Bool-cases, ap, ◌∙◌,
}
use cardputer_codex_deck.Models.{PairedMac}
use cardputer_codex_deck.Wifi.Invariant as Wifi
use cardputer_codex_deck.Wifi.Invariant.{start_scan-IsValid}
use cardputer_codex_deck.Audio.State.{set_active, ring_frames}
use cardputer_codex_deck.Pairing.Invariant as Pairing
use cardputer_codex_deck.Ui.State.{local, is_remote, DeviceUi, Deck, UiEnv, Page}
use cardputer_codex_deck.Ui.Power.{note_activity}
use cardputer_codex_deck.Ui.Controller.{
  begin, on_button, on_keyboard, pairing_flow, observe, then_render, route_input, prepare,
  then_draw, tick,
}
use cardputer_codex_deck.Ui.Invariant.{
  Face, at_mode, owning, face_of, UiValid, InMode, KeepsIn, KeepsIn-Keeps, InMode-IsValid, IsValid,
  Keeps,
}
use cardputer_codex_deck.Ui.Invariant.Screen.{
  with_ui-IsValid, update_battery_state-UiValid, note_activity-IsValid, wake_screen-IsValid,
  update_screen_power-IsValid, set_mode-IsValid, watch_changes-IsValid, follow_focus-IsValid,
  draw-IsValid,
}
use cardputer_codex_deck.Ui.Invariant.Asking.{
  asks_code, clicked_mode, next_mode, note_activity-screen_off, observe-asks_code,
}
use cardputer_codex_deck.Ui.Invariant.Pages.{go-IsValid, kept}
use cardputer_codex_deck.Ui.Invariant.Routing.{
  suppress-IsValid, toggle_mode-IsValid, pair_code-IsValid, scan_computers-IsValid,
  first_boot-IsValid, render-IsValid, find_selected-Keeps, handle_page-Keeps,
}

in_mode :
    {loaded : List PairedMac} (face : Face) {a b : Bool} {d : Deck}
    → a ≡ b
    → InMode loaded (at_mode a face) d
    → InMode loaded (at_mode b face) d
in_mode face e v = rw⁻¹ e v

and_true : (b : Bool) → b ≡ (b && true)
and_true b = ground arith

and_not : (b : Bool) → false ≡ (b && false)
and_not b = ground arith

then_render-Keeps :
    {loaded : List PairedMac} {face : Face} {o : Option Deck}
    → UiEnv
    → KeepsIn loaded face o
    → KeepsIn loaded face (then_render o)
then_render-Keeps env (d, result, v) = rw result (_, refl, render-IsValid v env)

then_draw-Keeps :
    {loaded : List PairedMac} {face : Face} {o : Option Deck} (env : UiEnv)
    → KeepsIn loaded face o
    → KeepsIn loaded face (then_draw env o)
then_draw-Keeps env (d, result, v) = rw result (_, refl, draw-IsValid v env)

module _ {loaded : List PairedMac} {face : Face} {d : Deck} (v : InMode loaded face d)
    (env : UiEnv) where
  pairing_flow-IsValid :
      InMode loaded (at_mode (face.remote && not (asks_code d)) face) (pairing_flow env d)
  unfolding pairing_flow
  pairing_flow-IsValid = elim (Bool-cases (asks_code d)) [
    | inl asks ↦
        rw asks (
          in_mode face (and_not face.remote) (pair_code-IsValid (set_mode-IsValid v env local) env))
    | inr quiet ↦ rw quiet (
        in_mode face (and_true face.remote)
          (if_both (InMode loaded face) _ (go-IsValid v env Page.computers refl) v))
  ]

  on_button-IsValid :
      InMode loaded (at_mode (clicked_mode env d face.remote) face) (on_button env d)
  unfolding on_button
  on_button-IsValid =
      let n = note_activity-IsValid v env in
      let same = note_activity-screen_off env d in
      elim (Bool-cases env.button_clicked) [
        | inr idle ↦ rw idle v
        | inl clicked ↦ elim (Bool-cases d.ui.screen_off) [
          | inl dark ↦ simp (clicked, dark, same) (wake_screen-IsValid n env)
          | inr lit ↦ simp (clicked, lit, same) (toggle_mode-IsValid n env)
        ]
      ]

  on_keyboard-IsValid : InMode loaded face (on_keyboard env d)
  unfolding on_keyboard
  on_keyboard-IsValid =
      let n = note_activity-IsValid v env in
      let w = wake_screen-IsValid n env in
      if_both (InMode loaded face) _ (suppress-IsValid v env false) (
        if_both (InMode loaded face) _ n
          (if_both (InMode loaded face) _ w (suppress-IsValid w env true)))

  route_input-Keeps :
      KeepsIn loaded
        (owning (not face.remote || d.ui.suppress_until_release) face)
        (route_input env d)
  unfolding route_input
  route_input-Keeps =
      let u = d.ui in
      let e : Deck = record d {
        ui = record u { consumes_keyboard = not (is_remote u.mode) || u.suppress_until_release };
      } in
      let routed = owning (not face.remote || u.suppress_until_release) face in
      let ve : InMode loaded routed e = ground arith in
      let n = note_activity env e in
      if_both (KeepsIn loaded routed) _
        (then_render-Keeps env
          (handle_page-Keeps (note_activity-IsValid ve env) env n.ui.page (λ h. h)))
        (kept ve env)

module _ {loaded : List PairedMac} {face : Face} {d : Deck} (v : InMode loaded face d)
    (env : UiEnv) where
  observe-IsValid : InMode loaded (at_mode (clicked_mode env d face.remote) face) (observe env d)
  unfolding observe
  observe-IsValid =
      let k = on_keyboard-IsValid (on_button-IsValid v env) env in
      let b = with_ui-IsValid k env (update_battery_state-UiValid k.ui_valid env false) in
      first_boot-IsValid (watch_changes-IsValid (update_screen_power-IsValid b env) env) env

  prepare-IsValid :
      InMode loaded
        (at_mode (clicked_mode env d face.remote && not (asks_code d)) face)
        (prepare env d)
  unfolding prepare
  prepare-IsValid =
      let f =
        in_mode face (ap (λ b. clicked_mode env d face.remote && not b) (observe-asks_code env d))
          (pairing_flow-IsValid observe-IsValid env) in
      follow_focus-IsValid (scan_computers-IsValid f env) env

-- What a pass of the controller leaves.
pub record Pass (loaded : List PairedMac) (remote : Bool) (e : Deck) : Type 0 where
  pub valid : IsValid loaded e
  pub mode : is_remote e.ui.mode ≡ remote
  pub microphone : e.audio.active ≡ remote
  pub keyboard : remote ≡ false → e.ui.consumes_keyboard ≡ true

abbrev pub Ticked : List PairedMac → Bool → Option Deck → Type 0
Ticked loaded remote o = (e : Deck) × (o ≡ some e) × Pass loaded remote e

module _ {loaded : List PairedMac} {d : Deck} (v : IsValid loaded d) (env : UiEnv) where
  -- A pass of the controller, in its mode; in Local mode it owns the keyboard.
  tick-KeepsIn :
      (s : Bool) × KeepsIn loaded
        (record { remote = next_mode env d; owns = not (next_mode env d) || s })
        (tick env d)
  unfolding tick
  tick-KeepsIn =
      let (f, result, vf) = find_selected-Keeps (prepare-IsValid v env) env in
      (
        f.ui.suppress_until_release,
        rw (result, tick) (then_draw-Keeps env (route_input-Keeps vf env)),
      )

  -- From any valid state, a pass of the controller uses no entry past the used ones of the agents,
  -- the scan, the saved networks or the ladders, and leaves everything valid: the microphone is
  -- used exactly in Remote mode, the controller owns the keyboard in Local mode, and the mode is
  -- the old one, switched if BtnA was clicked with the screen on, and Local if a pair code is asked
  -- for on another page.
  pub tick-Ticked : Ticked loaded (next_mode env d) (tick env d)
  tick-Ticked =
      let (s, kept_in) = tick-KeepsIn in
      let (e, result, ve) = kept_in in
      let u = ve.ui_valid in
      (
        e,
        result,
        record {
          valid = InMode-IsValid ve;
          mode = u.mode_is;
          microphone = u.microphone;
          keyboard = λ here. u.owns_is ∙ ap (λ b. not b || s) here;
        },
      )

  pub tick-Keeps : Keeps loaded (tick env d)
  tick-Keeps = KeepsIn-Keeps tick-KeepsIn.1

-- `begin` needs no valid controller: it sets the microphone by the mode.
pub begin-IsValid :
    {loaded : List PairedMac} (d : Deck) (env : UiEnv)
    → Wifi.IsValid d.wifi
    → Pairing.IsValid loaded d.pairing
    → UiValid (face_of d.ui) (is_remote d.ui.mode) d.ui
    → length d.audio.queue ≤ ring_frames
    → d.audio.level ≤ 255
    → IsValid loaded (begin env d)
unfolding begin set_active
begin-IsValid d env w p u ring level =
    let start : DeviceUi = record d.ui { last_activity_ms = env.now } in
    let vs : UiValid (face_of d.ui) (is_remote d.ui.mode) start = ground arith in
    let b = update_battery_state-UiValid vs env true in ground arith
