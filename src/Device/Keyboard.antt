-- ===== src/Device/Keyboard.antt =====
-- Who gets the keys: the key transmitter under the main loop (Device/Loop).
use cardputer_codex_deck.Base.{
  ◌≡◌, refl, Bool, true, false, ◌&&◌, Option, none, some, List, [], ◌∷◌, Text, ap, sym, ◌∙◌, arith,
  if◌then◌else◌,
}
use cardputer_codex_deck.Models.{PairedMac}
use cardputer_codex_deck.Pairing.Snapshot.{Json}
use cardputer_codex_deck.Pairing.State.{PairingManager, Env, is_connected}
use cardputer_codex_deck.Pairing.Send.{send_key}
use cardputer_codex_deck.Pairing.Invariant.Manager.{tick-IsValid}
use cardputer_codex_deck.Wifi.Invariant.{SortKeepsLength, tick-InBounds}
use cardputer_codex_deck.Keys.Keymap.{KeyCodes}
use cardputer_codex_deck.Keys.Transmitter.{KeyEvent, KeyTransmitter, contains, tick, release_all}
use cardputer_codex_deck.Keys.Balance.{Pass, holds, holds-tick}
use cardputer_codex_deck.Ui.State.{is_remote, Deck, settings_of}
use cardputer_codex_deck.Ui.Invariant.Controller.{tick-Ticked}
use cardputer_codex_deck.Ui.Invariant.Pages.{with_wifi_manager, with_pairing_manager}
use cardputer_codex_deck.Device.State.{Device, LoopEnv, Arduino}
use cardputer_codex_deck.Device.Console.{console_tick}
use cardputer_codex_deck.Device.Loop.{
  action_name, send_keys, tick_managers, key_pass, tick_keys, loop,
}
use cardputer_codex_deck.Device.Invariant.{IsValid}
use cardputer_codex_deck.Device.Invariant.Console.{console_tick-Console}

-- A call of `sendKey` for an event of the key transmitter.
abbrev send_event : Env → KeyEvent → PairingManager → PairingManager × Bool
send_event env e m = send_key env e.key (action_name e.action) e.cmd e.shift e.option e.control m

-- The events of `send_keys` that `sendKey` takes, in order: what the Mac gets.
pub received : Env → List KeyEvent → PairingManager → List KeyEvent
received env [] m = []
received env (e ∷ es) m =
    let (n, taken) = send_event env e m in
    let rest = received env es n in if taken then e ∷ rest else rest

pub all_taken : Env → List KeyEvent → PairingManager → Bool
all_taken env [] m = true
all_taken env (e ∷ es) m = let (n, taken) = send_event env e m in taken && all_taken env es n

received_all :
    (env : Env) (es : List KeyEvent) (m : PairingManager)
    → all_taken env es m ≡ true
    → received env es m ≡ es
unfolding received all_taken
received_all env [] m h = refl
received_all env (e ∷ es) m h =
    let (n, taken) = send_event env e m in
    let here : taken ≡ true = ground arith in
    let there : all_taken env es n ≡ true = ground arith in
    rw here (ap (◌∷◌ e) (received_all env es n there))

-- A pass in which the controller owns the keyboard takes back every key that was held.
key_pass_released :
    (codes : KeyCodes) (env : LoopEnv) (keys : KeyTransmitter) (d : Deck) (k : Text)
    → d.ui.consumes_keyboard ≡ true
    → holds (key_pass codes env keys d).1 k (contains keys.previous k) ≡ false
unfolding key_pass tick release_all contains
key_pass_released codes env keys d k h =
    let p : Pass = record {
      keyboard = env.keyboard;
      ui_consumes_keyboard = d.ui.consumes_keyboard;
      connected = is_connected d.pairing.state;
    } in
    let balanced = holds-tick codes (settings_of d.pairing).typeless_function_key keys p k in
    balanced ∙ rw h refl

tick_keys-mode :
    (codes : KeyCodes) (env : LoopEnv) (v : Device) → (tick_keys codes env v).deck.ui ≡ v.deck.ui
unfolding tick_keys
tick_keys-mode codes env v = refl

tick_keys-handed :
    (codes : KeyCodes) (env : LoopEnv) (v : Device)
    → (tick_keys codes env v).deck.pairing
      ≡ send_keys env.ui.pairing (key_pass codes env v.keys v.deck).1 v.deck.pairing
unfolding tick_keys
tick_keys-handed codes env v = refl

-- The deck as a pass of the main loop has it when it comes to the keys.
pub before_keys : Json → Arduino → LoopEnv → Device → Option Deck
before_keys json lib env v = elim (console_tick lib env.ui env.serial v.buffer v.deck) [
  | none ↦ none
  | some (buffer, d) ↦ tick_managers json env.ui d
]

-- What a pass did with the keys, from `keys` and `d` to `w`: it handed its events to `sendKey`, and
-- if the device is in Local mode and `sendKey` took them all, a Mac that held the keys of
-- `previous_` holds none.
pub record KeysBack (codes : KeyCodes) (env : LoopEnv) (keys : KeyTransmitter) (d : Deck)
    (w : Device) : Type 0 where
  pub handed : w.deck.pairing ≡ send_keys env.ui.pairing (key_pass codes env keys d).1 d.pairing
  pub released :
      is_remote w.deck.ui.mode ≡ false
      → all_taken env.ui.pairing (key_pass codes env keys d).1 d.pairing ≡ true
      → (k : Text)
      → holds
          (received env.ui.pairing (key_pass codes env keys d).1 d.pairing)
          k
          (contains keys.previous k)
        ≡ false

-- A pass of the main loop from any valid state hands the events of the key transmitter to
-- `sendKey`, on the link that its managers left. If the device is then in Local mode and `sendKey`
-- took them all, a Mac that held the keys of `previous_` holds none of them afterwards. This needs
-- `std::sort` to keep the number of networks.
pub loop-Local :
    (json : Json) (codes : KeyCodes) (lib : Arduino) (env : LoopEnv) {loaded : List PairedMac}
    {v : Device}
    → SortKeepsLength env.ui.wifi
    → IsValid loaded v
    → (w : Device) × (d : Deck) × (loop json codes lib env v ≡ some w)
      × (before_keys json lib env v ≡ some d)
      × KeysBack codes env v.keys d w
unfolding loop tick_managers before_keys
loop-Local json codes lib env {loaded} {v} sorts h =
    let (p, read, (short, vd)) =
      console_tick-Console lib env.ui env.serial v.buffer h.buffer_bound h.deck_valid in
    let d = p.1 in
    let (w, scanned, vw) = tick-InBounds env.ui.wifi d.wifi sorts vd.wifi_valid in
    let ve =
      with_pairing_manager (with_wifi_manager vd env.ui vw) env.ui
        (tick-IsValid json env.ui.pairing vd.pairing_valid) in
    let (e, ticked, pass) = tick-Ticked ve env.ui in
    let u : Device = record v { buffer = p.0; deck = e } in
    let same = ap (λ x. is_remote x.mode) (tick_keys-mode codes env u) in
    (
      tick_keys codes env u,
      e,
      rw (read, loop) (rw (scanned, tick_managers) (rw ticked refl)),
      rw (read, before_keys) (rw (scanned, tick_managers) ticked),
      record {
        handed = tick_keys-handed codes env u;
        released = λ here taken k.
            let owns = pass.keyboard (sym pass.mode ∙ sym same ∙ here) in
            let es = (key_pass codes env v.keys e).1 in
            ap (λ l. holds l k (contains v.keys.previous k))
              (received_all env.ui.pairing es e.pairing taken)
            ∙ key_pass_released codes env v.keys e k owns;
      },
    )
