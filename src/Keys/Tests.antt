-- ===== src/Keys/Tests.antt =====
-- Key passes at concrete inputs.
use cardputer_codex_deck.Base.{
  ℕ, ◌≡◌, refl, true, false, none, some, List, [], ◌∷◌, ◌++◌, ◌+◌, ◌%◌, ◌^◌, Text, text, inl, arith,
  Option, length, ◌<◌,
}
use cardputer_codex_deck.Keys.Keymap.{KeyCodes, map_fn_key, typeless_key}
use cardputer_codex_deck.Keys.Transmitter.{
  Keyboard, ActiveKey, KeyTransmitter, contains, copy_key, modifier_entry, collect, build_current,
  key_event, send_missing, previous_physical, key_entry, resolve, tick, down, up, release_all,
}
use cardputer_codex_deck.Keys.Balance.{Pass, holds, pass, run, holds-tick, holds-run}
use cardputer_codex_deck.Keys.Bounds.{IsValid, tick-IsValid}
use cardputer_codex_deck.Keys.Latching.{AllKeep, build_current-latched}

abbrev codes : KeyCodes
codes = record {
  left_ctrl = 0x80;
  left_shift = 0x81;
  left_alt = 0x82;
  opt = 0x83;
  fn = 0xff;
  backspace = 0x2a;
  tab = 0x2b;
  enter = 0x28;
}

-- Fn and Space are down.
abbrev chord : Keyboard
chord = record {
  alt = false;
  shift = false;
  opt = false;
  ctrl = false;
  fn = true;
  positions =
      record { x = 0; y = 2; value_first = 0xff }
      ∷ record { x = 13; y = 3; value_first = b' ' }
      ∷ [];
}

-- Fn is released first.
abbrev space_only : Keyboard
space_only = record chord {
  fn = false;
  positions = record { x = 13; y = 3; value_first = b' ' } ∷ [];
}

abbrev fresh : KeyTransmitter
fresh = record { previous = []; sent_keys = 0 }

abbrev chorded : KeyTransmitter
chorded = record {
  previous =
      record {
        key = text "f13";
        physical = 55;
        cmd = false;
        shift = false;
        option = false;
        control = false;
      }
      ∷ [];
  sent_keys = 1;
}

abbrev remote : Keyboard → Pass
remote kb = record { keyboard = kb; ui_consumes_keyboard = false; connected = true }

chord_sends_f13 : (tick codes 13 chord false true fresh).0 ≡ chorded
unfolding tick build_current cardputer_codex_deck.Keys.Transmitter.count_missing collect key_entry
    cardputer_codex_deck.Keys.Keymap.is_keyboard_modifier modifier_entry resolve map_fn_key copy_key
    contains
chord_sends_f13 = refl

-- F13 stays held when Fn goes up before Space.
space_keeps_f13 : (tick codes 13 space_only false true chorded).1 ≡ []
unfolding tick send_missing contains build_current collect key_entry
    cardputer_codex_deck.Keys.Keymap.is_keyboard_modifier modifier_entry resolve previous_physical
    cardputer_codex_deck.Base.text_eq copy_key
space_keeps_f13 = refl

holds-tick_example :
    holds
      (pass codes 13 chorded (remote chord)).1
      (text "f13")
      (contains chorded.previous (text "f13"))
    ≡ contains (pass codes 13 chorded (remote chord)).0.previous (text "f13")
holds-tick_example = holds-tick codes 13 chorded (remote chord) (text "f13")

abbrev typing : List Pass
typing = remote chord ∷ remote space_only ∷ []

holds-run_example :
    holds (run codes 13 fresh typing).1 (text "f13") false
    ≡ contains (run codes 13 fresh typing).0.previous (text "f13")
unfolding contains
holds-run_example = holds-run codes 13 fresh typing (text "f13")

abbrev taken : Pass
taken = record { keyboard = chord; ui_consumes_keyboard = true; connected = true }

chorded-IsValid : IsValid chorded
chorded-IsValid = record { within = omega arith; fits = (omega arith, tt) }

tick-IsValid_example : IsValid (tick codes 13 chord false true chorded).0
tick-IsValid_example = tick-IsValid codes chord 13 false true chorded chorded-IsValid

fn_space : map_fn_key codes b' ' 14 ≡ some (text "f14")
unfolding map_fn_key
fn_space = refl

build_current-latched_example :
    (new : List ActiveKey) × (build_current codes 13 space_only chorded.previous
      ≡ collect (modifier_entry codes space_only) space_only.positions [] ++ new)
    × AllKeep chorded.previous new
build_current-latched_example =
    build_current-latched codes 13 space_only chorded.previous refl chorded-IsValid.fits
