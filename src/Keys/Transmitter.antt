-- ===== src/Keys/Transmitter.antt =====
-- firmware/m5stack-cardputer-adv/src/key_tx.h and key_tx.cpp. The keyboard library's snapshot is
-- an argument; `previous_` with `previousCount_` is the list of its first `previousCount_`
-- entries. A call of `pairing_.sendKey` is an event in the returned list, in order.
use cardputer_codex_deck.Base.{
  ℕ, ◌+◌, ◌*◌, ◌-◌, Bool, true, false, ◌&&◌, ◌||◌, not, Option, none, some, List, [], ◌∷◌, ◌++◌,
  Text, text, text_eq, leb, ◌==◌, if◌then◌else◌, length, take, any, u8, u32,
}
use cardputer_codex_deck.Keys.Keymap.{
  KeyCodes, map_fn_key, map_special_key, is_keyboard_modifier, map_modifier,
}

-- A pressed position, with its `getKeyValue(position).value_first`.
pub record Position : Type 0 where
  pub x : ℕ
  pub y : ℕ
  pub value_first : ℕ

-- `keysState()` and `keyList()`.
pub record Keyboard : Type 0 where
  pub alt : Bool
  pub shift : Bool
  pub opt : Bool
  pub ctrl : Bool
  pub fn : Bool
  pub positions : List Position

pub record ActiveKey : Type 0 where
  pub key : Text
  pub physical : ℕ
  pub cmd : Bool
  pub shift : Bool
  pub option : Bool
  pub control : Bool

pub data Action : Type 0 where
  down up : Action

-- One call `sendKey(key, action, cmd, shift, option, control)`.
pub record KeyEvent : Type 0 where
  pub key : Text
  pub action : Action
  pub cmd : Bool
  pub shift : Bool
  pub option : Bool
  pub control : Bool

pub record KeyTransmitter : Type 0 where
  pub previous : List ActiveKey
  pub sent_keys : ℕ

-- `sizeof(ActiveKey::key)` and the length of the two key arrays.
abbrev pub key_size : ℕ
key_size = 20

abbrev pub capacity : ℕ
capacity = 6

-- `strlcpy` keeps `sizeof(key) - 1` characters.
unfoldable pub copy_key : Text → Text
copy_key source = take (key_size - 1) source

abbrev pub physical_id : Position → ℕ
physical_id p = u8 (p.y * 14 + p.x)

abbrev pub active_key : Keyboard → Text → ℕ → ActiveKey
active_key kb key physical = record {
  key = key;
  physical = physical;
  cmd = kb.alt;
  shift = kb.shift;
  option = kb.opt;
  control = kb.ctrl;
}

unfoldable pub contains : List ActiveKey → Text → Bool
contains list key = any (λ a. text_eq a.key key) list

unfoldable pub previous_physical : List ActiveKey → ℕ → Option ActiveKey
previous_physical [] physical = none
previous_physical (a ∷ list) physical =
    if a.physical == physical then some a else previous_physical list physical

-- The body of the first loop of `buildCurrent`: `none` where it says `continue`.
unfoldable pub modifier_entry : KeyCodes → Keyboard → ℕ → Position → Option ActiveKey
modifier_entry codes kb count p =
    if not (is_keyboard_modifier codes p.value_first)
      || p.value_first == codes.left_shift
      || leb capacity count
    then none
    else elim (map_modifier codes p.value_first) [
      | none ↦ none
      | some mapped ↦ some (active_key kb (copy_key mapped) (physical_id p))
    ]

-- The ladder of the second loop: Fn held, the name that the map gives, the latched name, the value.
unfoldable pub resolve : Bool → Option Text → Option Text → ℕ → Option Text
resolve true (some mapped) latched physical = some (copy_key mapped)
resolve true none (some key) physical = some (copy_key key)
resolve true none none physical = none
resolve false mapped (some key) physical = some (copy_key key)
resolve false (some mapped) none physical = some (copy_key mapped)
resolve false none none physical =
    if leb 32 physical && leb physical 126 then some (physical ∷ []) else none

abbrev pub latched_key : Option ActiveKey → Option Text
latched_key none = none
latched_key (some a) = some a.key

-- The body of the second loop.
unfoldable pub key_entry :
    KeyCodes → ℕ → Keyboard → List ActiveKey → ℕ → Position → Option ActiveKey
key_entry codes typeless_function_key kb previous count p =
    if p.value_first == codes.fn || is_keyboard_modifier codes p.value_first || leb capacity count
    then none
    else elim (resolve kb.fn
        (if kb.fn
          then map_fn_key codes p.value_first typeless_function_key
          else map_special_key codes p.value_first)
        (latched_key (previous_physical previous (physical_id p))) p.value_first) [
          | none ↦ none
          | some key ↦ some (active_key kb key (physical_id p))
        ]

-- Both loops: an entry goes behind those that are there, and `count` is their number.
unfoldable pub collect :
    (ℕ → Position → Option ActiveKey) → List Position → List ActiveKey → List ActiveKey
collect body [] output = output
collect body (p ∷ ps) output = elim (body (length output) p) [
  | none ↦ collect body ps output
  | some a ↦ collect body ps (output ++ a ∷ [])
]

unfoldable pub build_current : KeyCodes → ℕ → Keyboard → List ActiveKey → List ActiveKey
build_current codes typeless_function_key kb previous =
    collect (key_entry codes typeless_function_key kb previous) kb.positions
      (collect (modifier_entry codes kb) kb.positions [])

-- The event of `send`. A modifier's own key-up carries no flag of its own.
unfoldable pub key_event : ActiveKey → Action → KeyEvent
key_event a down = record {
  key = a.key;
  action = down;
  cmd = a.cmd;
  shift = a.shift;
  option = a.option;
  control = a.control;
}
key_event a up = record {
  key = a.key;
  action = up;
  cmd = if text_eq a.key (text "cmd") then false else a.cmd;
  shift = a.shift;
  option = if text_eq a.key (text "alt") then false else a.option;
  control = if text_eq a.key (text "ctrl") then false else a.control;
}

-- `++sentKeys_` of `send`.
abbrev pub count_sent : Action → ℕ → ℕ
count_sent down n = u32 (n + 1)
count_sent up n = n

-- The loops of `tick` and `releaseAll`: send the keys of one list that another lacks.
unfoldable pub send_missing : Action → List ActiveKey → List ActiveKey → List KeyEvent
send_missing action others [] = []
send_missing action others (a ∷ list) =
    if contains others a.key
    then send_missing action others list
    else key_event a action ∷ send_missing action others list

unfoldable pub count_missing : Action → List ActiveKey → List ActiveKey → ℕ → ℕ
count_missing action others [] n = n
count_missing action others (a ∷ list) n =
    count_missing action others list (if contains others a.key then n else count_sent action n)

unfoldable pub release_all : KeyTransmitter → KeyTransmitter × List KeyEvent
release_all t = (record t { previous = [] }, send_missing up [] t.previous)

unfoldable pub tick :
    KeyCodes → ℕ → Keyboard → Bool → Bool → KeyTransmitter → KeyTransmitter × List KeyEvent
tick codes typeless_function_key kb ui_consumes_keyboard connected t =
    if ui_consumes_keyboard || not connected
    then release_all t
    else let current = build_current codes typeless_function_key kb t.previous in
      (
        record {
          previous = current;
          sent_keys = count_missing down t.previous current t.sent_keys;
        },
        send_missing up current t.previous ++ send_missing down t.previous current,
      )
