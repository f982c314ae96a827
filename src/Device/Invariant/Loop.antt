-- ===== src/Device/Invariant/Loop.antt =====
-- The invariant across the main loop, the tasks beside it, and every history.
use cardputer_codex_deck.Base.{
  ◌≤◌, refl, Bool, false, some, List, [], ◌∷◌, arith, Text, length, DistinctBy,
}
use cardputer_codex_deck.Models.{
  PairedMac, WifiNetwork, DeviceSettings, max_paired_macs, max_wifi_networks,
}
use cardputer_codex_deck.Pairing.State.{PairingManager, Env, is_connected}
use cardputer_codex_deck.Pairing.State as PairingState
use cardputer_codex_deck.Pairing.Manager as PairingControl
use cardputer_codex_deck.Pairing.Invariant.Manager as PairingInvariant
use cardputer_codex_deck.Audio.State as AudioState
use cardputer_codex_deck.Ui.State as UiState
use cardputer_codex_deck.Pairing.Snapshot.{Json}
use cardputer_codex_deck.Pairing.Events as PairingEvents
use cardputer_codex_deck.Pairing.Invariant as Pairing
use cardputer_codex_deck.Pairing.Invariant.Link.{connect_task_entry-IsValid}
use cardputer_codex_deck.Pairing.Invariant.Manager.{tick-IsValid, step-IsValid, send_key-IsValid}
use cardputer_codex_deck.Wifi.Invariant.{
  SortKeepsLength, ssid_of, begin-InBounds, scan_task_entry-IsValid, tick-InBounds,
}
use cardputer_codex_deck.Keys.Keymap.{KeyCodes}
use cardputer_codex_deck.Keys.Bounds as Keys
use cardputer_codex_deck.Audio.State.{AudioTransmitter, Capture, Sender, CaptureEnv, SenderEnv}
use cardputer_codex_deck.Ui.State.{Deck, UiEnv, settings_of}
use cardputer_codex_deck.Ui.Invariant as Ui
use cardputer_codex_deck.Ui.Invariant.Pages.{with_wifi_manager, with_pairing_manager}
use cardputer_codex_deck.Ui.Invariant.Controller as UiController
use cardputer_codex_deck.Ui.Invariant.Controller.{tick-Keeps}
use cardputer_codex_deck.Device.State.{Device, LoopEnv, Arduino, constructed}
use cardputer_codex_deck.Device.Loop.{
  tick_managers, key_pass, tick_keys, loop, DeviceEvent, loops, scan_ends, connect_ends,
  bytes_arrive, peer_closes, captures, sends, step, run, setup, device_run,
}
use cardputer_codex_deck.Device.Invariant.{IsValid, Runs}
use cardputer_codex_deck.Device.Invariant.Console.{console_tick-Console}
use cardputer_codex_deck.Device.Invariant.Parts.{
  send_keys-IsValid, with_deck, with_link, capture-IsValid, sender-IsValid,
}

-- A history in which `std::sort` keeps the number of networks whenever it is called.
abbrev pub SortsIn : DeviceEvent → Type 0
SortsIn (loops env) = SortKeepsLength env.ui.wifi
SortsIn _ = Unit {0}

abbrev pub Sorts : List DeviceEvent → Type 0
Sorts [] = Unit {0}
Sorts (e ∷ es) = SortsIn e × Sorts es

module _ (json : Json) (codes : KeyCodes) (lib : Arduino) {loaded : List PairedMac} where
  tick_managers-Keeps :
      (env : UiEnv) {d : Deck}
      → SortKeepsLength env.wifi
      → Ui.IsValid loaded d
      → Ui.Keeps loaded (tick_managers json env d)
  unfolding tick_managers
  tick_managers-Keeps env {d} sorts v =
      let (w, result, vw) = tick-InBounds env.wifi d.wifi sorts v.wifi_valid in
      rw (result, tick_managers)
        (tick-Keeps
          (with_pairing_manager (with_wifi_manager v env vw) env
            (tick-IsValid json env.pairing v.pairing_valid))
          env)

  tick_keys-IsValid :
      (env : LoopEnv) {v : Device} → IsValid loaded v → IsValid loaded (tick_keys codes env v)
  unfolding tick_keys key_pass
  tick_keys-IsValid env {v} h =
      let d = v.deck in
      let k =
        Keys.tick-IsValid codes env.keyboard (settings_of d.pairing).typeless_function_key
          d.ui.consumes_keyboard (is_connected d.pairing.state) v.keys h.keys_valid in
      let m =
        send_keys-IsValid env.ui.pairing (key_pass codes env v.keys d).1
          h.deck_valid.pairing_valid in
      let w = with_link h m in
      record {
        deck_valid = w.deck_valid;
        keys_valid = k;
        buffer_bound = h.buffer_bound;
        counters = h.counters;
      }

  pub loop-Runs :
      (env : LoopEnv) {v : Device}
      → SortKeepsLength env.ui.wifi
      → IsValid loaded v
      → Runs loaded (loop json codes lib env v)
  unfolding loop
  loop-Runs env {v} sorts h =
      let (p, read, (short, vd)) =
        console_tick-Console lib env.ui env.serial v.buffer h.buffer_bound h.deck_valid in
      let (e, ticked, ve) = tick_managers-Keeps env.ui sorts vd in
      let w : IsValid loaded (record v { buffer = p.0; deck = e }) = record {
        deck_valid = ve;
        keys_valid = h.keys_valid;
        buffer_bound = short;
        counters = h.counters;
      } in
      rw (read, ticked, loop) (_, refl, tick_keys-IsValid env w)

  pub step-Runs :
      (e : DeviceEvent) {v : Device}
      → SortsIn e
      → IsValid loaded v
      → Runs loaded (step json codes lib e v)
  unfolding step PairingEvents.step
  step-Runs (loops env) sorts h = loop-Runs env sorts h
  step-Runs (scan_ends result) {v} sorts h =
      let d = v.deck in
      let k = h.deck_valid in
      let w = scan_task_entry-IsValid d.wifi k.wifi_valid result in
      (
        _,
        refl,
        with_deck h (record {
          wifi_valid = w;
          pairing_valid = k.pairing_valid;
          ui_valid = k.ui_valid;
          ring_bound = k.ring_bound;
          level_bound = k.level_bound;
        }),
      )
  step-Runs (connect_ends connects) {v} sorts h =
      (_, refl, with_link h (connect_task_entry-IsValid h.deck_valid.pairing_valid connects))
  step-Runs (bytes_arrive bytes) {v} sorts h =
      let p = h.deck_valid.pairing_valid in
      (_, refl, with_link h (step-IsValid json (PairingEvents.arrives bytes) p))
  step-Runs peer_closes {v} sorts h =
      let p = h.deck_valid.pairing_valid in
      (_, refl, with_link h (step-IsValid json PairingEvents.peer_closes p))
  step-Runs (captures env) {v} sorts h =
      (_, refl, capture-IsValid h (record env { shared = v.deck.pairing.audio }))
  step-Runs (sends env) {v} sorts h =
      (_, refl, sender-IsValid h (record env { shared = v.deck.pairing.audio }))

  run-Runs :
      (es : List DeviceEvent) {v : Device}
      → Sorts es
      → IsValid loaded v
      → Runs loaded (run json codes lib es v)
  unfolding run
  run-Runs [] sorts h = (_, refl, h)
  run-Runs (e ∷ es) {v} sorts h =
      let (w, result, vw) = step-Runs e sorts.0 h in rw (result, run) (run-Runs es sorts.1 vw)

setup-Runs :
    (env : UiEnv) (settings : DeviceSettings) (networks : List WifiNetwork) (macs : List PairedMac)
    (mac : Text) (scan_queue connect_queue : Bool)
    → length networks ≤ max_wifi_networks
    → DistinctBy ssid_of networks
    → length macs ≤ max_paired_macs
    → Pairing.Distinct macs
    → Runs macs (setup env settings networks macs mac scan_queue connect_queue constructed)
unfolding setup AudioState.begin
setup-Runs env settings networks macs mac scan_queue connect_queue few apart paired distinct =
    let (w, result, vw) = begin-InBounds env.wifi networks scan_queue few apart in
    let m = PairingControl.begin (some settings) macs mac connect_queue PairingState.initial in
    let vm =
      PairingInvariant.begin-IsValid (some settings) macs mac connect_queue paired distinct in
    let d : Deck = record constructed.deck {
      wifi = w;
      pairing = m;
      audio = record AudioState.initial { muted = settings.mic_muted };
    } in
    let u : Ui.UiValid (Ui.face_of UiState.initial) false UiState.initial = ground arith in
    let vd = UiController.begin-IsValid d env vw vm u (omega arith) (omega arith) in
    rw (result, setup)
      (
        _,
        refl,
        record {
          deck_valid = vd;
          keys_valid = record { within = omega arith; fits = tt };
          buffer_bound = omega arith;
          counters = record { reads = omega arith; frames = omega arith; sends = omega arith };
        },
      )

-- From power-up with at most 8 stored networks of distinct names and at most 4 stored Macs of
-- distinct ids, in every history of passes of the main loop, with whatever is typed, sent on the
-- serial line or received, of worker results and of steps of the audio tasks, no entry past the
-- used ones of an array is used and everything stays valid, if `std::sort` keeps the number of
-- networks.
pub device_run-Runs :
    (json : Json) (codes : KeyCodes) (lib : Arduino) (env : UiEnv) (settings : DeviceSettings)
    (networks : List WifiNetwork) (macs : List PairedMac) (mac : Text)
    (scan_queue connect_queue : Bool) (es : List DeviceEvent)
    → length networks ≤ max_wifi_networks
    → DistinctBy ssid_of networks
    → length macs ≤ max_paired_macs
    → Pairing.Distinct macs
    → Sorts es
    → Runs macs
        (device_run json codes lib env settings networks macs mac scan_queue connect_queue es)
unfolding device_run
device_run-Runs json codes lib env settings networks macs mac scan_queue connect_queue es few apart
      paired distinct sorts =
    let (v, result, h) =
      setup-Runs env settings networks macs mac scan_queue connect_queue few apart paired
        distinct in
    rw (result, device_run) (run-Runs json codes lib es sorts h)
