-- ===== src/Device/State.antt =====
-- firmware/m5stack-cardputer-adv/src/main.cpp and serial_console.h: the objects of the program and
-- the two audio tasks, and what one pass of `loop` finds around it.
use cardputer_codex_deck.Base.{ℕ, [], Text}
use cardputer_codex_deck.Keys.Transmitter.{KeyTransmitter, Keyboard}
use cardputer_codex_deck.Audio.State as Audio
use cardputer_codex_deck.Audio.State.{Capture, Sender, initial_capture, initial_sender}
use cardputer_codex_deck.Pairing.State as Pairing
use cardputer_codex_deck.Wifi.State as Wifi
use cardputer_codex_deck.Ui.State as Ui
use cardputer_codex_deck.Ui.State.{Deck, UiEnv}

-- `buffer` is the console's line, `keys` the key transmitter; `capture` and `sender` are the local
-- variables of the audio tasks, whose object is the deck's `audio`.
pub record Device : Type 0 where
  pub deck : Deck
  pub keys : KeyTransmitter
  pub buffer : Text
  pub capture : Capture
  pub sender : Sender

-- `serial` are the bytes that wait in `Serial`.
pub record LoopEnv : Type 0 where
  pub serial : Text
  pub ui : UiEnv
  pub keyboard : Keyboard

-- The operations of the Arduino `String` that the console calls and that are no index arithmetic:
-- `trim`, and `toInt` cast to `size_t`.
pub record Arduino : Type 0 where
  pub trim : Text → Text
  pub to_size : Text → ℕ

-- The program's objects as they are constructed.
abbrev pub constructed : Device
constructed = record {
  deck = record {
    ui = Ui.initial;
    wifi = Wifi.initial;
    pairing = Pairing.initial;
    audio = Audio.initial;
    display = [];
  };
  keys = record { previous = []; sent_keys = 0 };
  buffer = [];
  capture = initial_capture;
  sender = initial_sender;
}
