-- ===== src/Device/Loop.antt =====
-- firmware/m5stack-cardputer-adv/src/main.cpp: `setup` and `loop`, and the tasks that run between
-- two passes.
use cardputer_codex_deck.Base.{Bool, false, Option, none, some, List, [], ◌∷◌, Text, text}
use cardputer_codex_deck.Models.{WifiNetwork, PairedMac, DeviceSettings}
use cardputer_codex_deck.Pairing.State.{PairingManager, Env, is_connected}
use cardputer_codex_deck.Pairing.Snapshot.{Json}
use cardputer_codex_deck.Pairing.Send.{send_key}
use cardputer_codex_deck.Pairing.Link.{connect_task_entry}
use cardputer_codex_deck.Pairing.Manager as Pairing
use cardputer_codex_deck.Pairing.Events.{receive}
use cardputer_codex_deck.Wifi.State.{Access}
use cardputer_codex_deck.Wifi.Manager as Wifi
use cardputer_codex_deck.Wifi.Manager.{scan_task_entry}
use cardputer_codex_deck.Keys.Keymap.{KeyCodes}
use cardputer_codex_deck.Keys.Transmitter.{KeyEvent, Action, down, up, KeyTransmitter}
use cardputer_codex_deck.Keys.Transmitter as Keys
use cardputer_codex_deck.Audio.State.{AudioTransmitter, CaptureEnv, SenderEnv}
use cardputer_codex_deck.Audio.State as Audio
use cardputer_codex_deck.Audio.Capture.{capture_step}
use cardputer_codex_deck.Audio.Sender.{sender_step}
use cardputer_codex_deck.Ui.State.{Deck, UiEnv, settings_of}
use cardputer_codex_deck.Ui.Controller as Ui
use cardputer_codex_deck.Device.State.{Device, LoopEnv, Arduino, constructed}
use cardputer_codex_deck.Device.Console.{console_tick}

abbrev pub action_name : Action → Text
action_name down = text "down"
action_name up = text "up"

-- The calls of `pairing_.sendKey` that the key transmitter makes, in order.
unfoldable pub send_keys : Env → List KeyEvent → PairingManager → PairingManager
send_keys env [] m = m
send_keys env (e ∷ es) m =
    send_keys env es
      (send_key env e.key (action_name e.action) e.cmd e.shift e.option e.control m).0

-- What happens to the device: a pass of the loop, the end of a scan or of a connect worker, the
-- peer's bytes or its close, and a step of an audio task.
pub data DeviceEvent : Type 0 where
  loops : LoopEnv → DeviceEvent
  scan_ends : List Access → DeviceEvent
  connect_ends : Bool → DeviceEvent
  bytes_arrive : Text → DeviceEvent
  peer_closes : DeviceEvent
  captures : CaptureEnv → DeviceEvent
  sends : SenderEnv → DeviceEvent

module _ (json : Json) where
  -- `wifi.tick(); pairing.tick(); ui.tick()`.
  unfoldable pub tick_managers : UiEnv → Deck → Option Deck
  tick_managers env d = elim (Wifi.tick env.wifi d.wifi) [
    | none ↦ none
    | some w ↦
        Ui.tick env (record d { wifi = w; pairing = Pairing.tick json env.pairing d.pairing })
  ]

module _ (codes : KeyCodes) where
  -- `keys.tick(ui.consumesKeyboard())`, with its events.
  unfoldable pub key_pass : LoopEnv → KeyTransmitter → Deck → KeyTransmitter × List KeyEvent
  key_pass env keys d =
      Keys.tick codes (settings_of d.pairing).typeless_function_key env.keyboard
        d.ui.consumes_keyboard (is_connected d.pairing.state) keys

  unfoldable pub tick_keys : LoopEnv → Device → Device
  tick_keys env v =
      let d = v.deck in
      let (keys, events) = key_pass env v.keys d in
      record v {
        keys = keys;
        deck = record d { pairing = send_keys env.ui.pairing events d.pairing };
      }

module _ (json : Json) (codes : KeyCodes) (lib : Arduino) where
  unfoldable pub loop : LoopEnv → Device → Option Device
  loop env v = elim (console_tick lib env.ui env.serial v.buffer v.deck) [
    | none ↦ none
    | some (buffer, d) ↦ elim (tick_managers json env.ui d) [
      | none ↦ none
      | some e ↦ some (tick_keys codes env (record v { buffer = buffer; deck = e }))
    ]
  ]

  unfoldable pub step : DeviceEvent → Device → Option Device
  step (loops env) v = loop env v
  step (scan_ends result) v =
      let d = v.deck in some (record v { deck = record d { wifi = scan_task_entry result d.wifi } })
  step (connect_ends connects) v =
      let d = v.deck in
      some (record v { deck = record d { pairing = connect_task_entry connects d.pairing } })
  step (bytes_arrive bytes) v =
      let d = v.deck in
      let m = d.pairing in
      some (record v { deck = record d { pairing = record m { client = receive bytes m.client } } })
  step peer_closes v =
      let d = v.deck in
      let m = d.pairing in
      let c = m.client in
      some (record v {
        deck = record d { pairing = record m { client = record c { connected = false } } };
      })
  step (captures env) v =
      let d = v.deck in
      let (c, t) = capture_step (record env { shared = d.pairing.audio }) v.capture d.audio in
      some (record v { capture = c; deck = record d { audio = t } })
  step (sends env) v =
      let d = v.deck in
      let (l, t) = sender_step (record env { shared = d.pairing.audio }) v.sender d.audio in
      some (record v { sender = l; deck = record d { audio = t } })

  unfoldable pub run : List DeviceEvent → Device → Option Device
  run [] v = some v
  run (e ∷ es) v = elim (step e v) [ none ↦ none | some w ↦ run es w ]

-- `setup`, from the objects as they are constructed: what the store holds, the WiFi MAC address
-- and whether the queues of the two managers could be created.
unfoldable pub setup :
    UiEnv
    → DeviceSettings
    → List WifiNetwork
    → List PairedMac
    → Text
    → Bool
    → Bool
    → Device
    → Option Device
setup env settings networks macs mac scan_queue connect_queue v =
    let d = v.deck in
    elim (Wifi.begin env.wifi networks scan_queue d.wifi) [
      | none ↦ none
      | some w ↦ some (record v {
        deck = Ui.begin env (record d {
          wifi = w;
          pairing = Pairing.begin (some settings) macs mac connect_queue d.pairing;
          audio = Audio.begin settings.mic_muted d.audio;
        });
      })
    ]

-- The program: `setup` once, then what happens.
unfoldable pub device_run :
    Json
    → KeyCodes
    → Arduino
    → UiEnv
    → DeviceSettings
    → List WifiNetwork
    → List PairedMac
    → Text
    → Bool
    → Bool
    → List DeviceEvent
    → Option Device
device_run json codes lib env settings networks macs mac scan_queue connect_queue es =
    elim (setup env settings networks macs mac scan_queue connect_queue constructed) [
      | none ↦ none
      | some v ↦ run json codes lib es v
    ]
