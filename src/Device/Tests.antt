-- ===== src/Device/Tests.antt =====
-- The device at concrete inputs.
use cardputer_codex_deck.Base.{◌≡◌, refl, true, false, some, List, [], ◌∷◌, ◌++◌, text, arith, some}
use cardputer_codex_deck.Models.{WifiNetwork, default_settings}
use cardputer_codex_deck.Pairing.Fixture.{sample, home, home-Distinct}
use cardputer_codex_deck.Keys.Keymap.{KeyCodes}
use cardputer_codex_deck.Keys.Transmitter.{Keyboard}
use cardputer_codex_deck.Ui.Fixture.{right, click, deck, deck-IsValid}
use cardputer_codex_deck.Device.State.{Device, LoopEnv, Arduino, constructed}
use cardputer_codex_deck.Device.Loop.{
  loop, DeviceEvent, loops, scan_ends, connect_ends, bytes_arrive, device_run,
}
use cardputer_codex_deck.Device.Invariant.{IsValid, Runs}
use cardputer_codex_deck.Device.Invariant.Loop.{device_run-Runs}
use cardputer_codex_deck.Device.Keyboard.{before_keys, KeysBack, loop-Local}
use cardputer_codex_deck.Ui.State.{Deck}

abbrev codes : KeyCodes
codes = record {
  left_ctrl = 0x80;
  left_shift = 0x81;
  left_alt = 0x82;
  opt = 0x83;
  fn = 0xff;
  backspace = 0x2a;
  tab = 0x2b;
  enter = 0x28;
}

-- A library whose `trim` takes nothing off, and whose numbers are all 0.
abbrev arduino : Arduino
arduino = record { trim = λ s. s; to_size = λ s. 0 }

abbrev keyboard : Keyboard
keyboard = record {
  alt = false;
  shift = false;
  opt = false;
  ctrl = false;
  fn = false;
  positions = [];
}

-- A pass that finds the line `mode` on the serial port.
abbrev typed : LoopEnv
typed = record { serial = text "mode" ++ 10 ∷ []; ui = right; keyboard = keyboard }

abbrev network : WifiNetwork
network = record { ssid = text "home"; password = text "secret" }

abbrev history : List DeviceEvent
history =
    loops typed ∷ scan_ends [] ∷ connect_ends true ∷ bytes_arrive (text "pong") ∷ loops typed ∷ []

device_run-Runs_example : Runs (home ∷ []) (
    device_run sample codes arduino click default_settings
      (network ∷ [])
      (home ∷ [])
      (text "AA:BB")
      true
      true
      history)
device_run-Runs_example =
    device_run-Runs sample codes arduino click default_settings (network ∷ []) (home ∷ [])
      (text "AA:BB") true true history (omega arith) (refl, tt) (omega arith) home-Distinct
      ((λ l. refl), (tt, (tt, (tt, ((λ l. refl), tt)))))

abbrev running : Device
running = record constructed { deck = deck }

running-IsValid : IsValid (home ∷ []) running
running-IsValid = record {
  deck_valid = deck-IsValid;
  keys_valid = record { within = omega arith; fits = tt };
  buffer_bound = omega arith;
  counters = record { reads = omega arith; frames = omega arith; sends = omega arith };
}

loop-Local_example :
    (w : Device) × (d : Deck) × (loop sample codes arduino typed running ≡ some w)
    × (before_keys sample arduino typed running ≡ some d)
    × KeysBack codes typed running.keys d w
loop-Local_example = loop-Local sample codes arduino typed (λ l. refl) running-IsValid
