-- ===== src/Device/Invariant/Parts.antt =====
-- The invariant when one part of the device changes.
use cardputer_codex_deck.Base.{List, [], ◌∷◌, arith}
use cardputer_codex_deck.Models.{PairedMac}
use cardputer_codex_deck.Pairing.State.{PairingManager, Env}
use cardputer_codex_deck.Pairing.Invariant as Pairing
use cardputer_codex_deck.Pairing.Invariant.Manager.{send_key-IsValid}
use cardputer_codex_deck.Keys.Transmitter.{KeyEvent}
use cardputer_codex_deck.Audio.State.{CaptureEnv, SenderEnv}
use cardputer_codex_deck.Audio.Capture.{capture_step}
use cardputer_codex_deck.Audio.Sender.{sender_step}
use cardputer_codex_deck.Audio.Events.{System, audio_step}
use cardputer_codex_deck.Audio.Activity.{capture_step-active, sender_step-active}
use cardputer_codex_deck.Audio.Events as Events
use cardputer_codex_deck.Audio.Laws as Audio
use cardputer_codex_deck.Audio.Laws.{audio_step-IsValid}
use cardputer_codex_deck.Ui.State.{Deck}
use cardputer_codex_deck.Ui.Invariant as Ui
use cardputer_codex_deck.Device.State.{Device}
use cardputer_codex_deck.Device.Loop.{send_keys}
use cardputer_codex_deck.Device.Invariant.{IsValid}

pub send_keys-IsValid :
    (env : Env) (es : List KeyEvent) {loaded : List PairedMac} {m : PairingManager}
    → Pairing.IsValid loaded m
    → Pairing.IsValid loaded (send_keys env es m)
unfolding send_keys
send_keys-IsValid env [] v = v
send_keys-IsValid env (e ∷ es) v = send_keys-IsValid env es (send_key-IsValid v env _ _ _ _ _ _)

module _ {loaded : List PairedMac} {v : Device} (h : IsValid loaded v) where
  pub with_deck : {d : Deck} → Ui.IsValid loaded d → IsValid loaded (record v { deck = d })
  with_deck vd = record {
    deck_valid = vd;
    keys_valid = h.keys_valid;
    buffer_bound = h.buffer_bound;
    counters = h.counters;
  }

  -- The pairing manager is exchanged for a valid one.
  pub with_link :
      {m : PairingManager}
      → Pairing.IsValid loaded m
      → let d = v.deck in IsValid loaded (record v { deck = record d { pairing = m } })
  with_link vm =
      let k = h.deck_valid in
      with_deck (record {
        wifi_valid = k.wifi_valid;
        pairing_valid = vm;
        ui_valid = k.ui_valid;
        ring_bound = k.ring_bound;
        level_bound = k.level_bound;
      })

  pub capture-IsValid :
      (env : CaptureEnv)
      → let d = v.deck in
        let r = capture_step env v.capture d.audio in
        IsValid loaded (record v { capture = r.0; deck = record d { audio = r.1 } })
  unfolding audio_step
  capture-IsValid env =
      let d = v.deck in
      let k = h.deck_valid in
      let s : System = record { capture = v.capture; sender = v.sender; shared = d.audio } in
      let vs : Audio.IsValid s = record {
        ring = k.ring_bound;
        level = k.level_bound;
        reads = h.counters.reads;
        frames = h.counters.frames;
        sends = h.counters.sends;
      } in
      let a = audio_step-IsValid s (Events.captures env) vs in
      let same = capture_step-active env v.capture d.audio in ground arith

  pub sender-IsValid :
      (env : SenderEnv)
      → let d = v.deck in
        let r = sender_step env v.sender d.audio in
        IsValid loaded (record v { sender = r.0; deck = record d { audio = r.1 } })
  unfolding audio_step
  sender-IsValid env =
      let d = v.deck in
      let k = h.deck_valid in
      let s : System = record { capture = v.capture; sender = v.sender; shared = d.audio } in
      let vs : Audio.IsValid s = record {
        ring = k.ring_bound;
        level = k.level_bound;
        reads = h.counters.reads;
        frames = h.counters.frames;
        sends = h.counters.sends;
      } in
      let a = audio_step-IsValid s (Events.sends env) vs in
      let same = sender_step-active env v.sender d.audio in ground arith
