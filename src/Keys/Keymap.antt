-- ===== src/Keys/Keymap.antt =====
-- firmware/m5stack-cardputer-adv/src/keymap.cpp. The key codes of the M5Cardputer library are
-- parameters; `nullptr` is `none`.
use cardputer_codex_deck.Base.{
  ℕ, ◌-◌, Bool, ◌||◌, ◌&&◌, Option, none, some, Text, text, leb, ◌==◌, if◌then◌else◌,
}

-- `KEY_...` of M5Cardputer's keyboard header.
pub record KeyCodes : Type 0 where
  pub left_ctrl : ℕ
  pub left_shift : ℕ
  pub left_alt : ℕ
  pub opt : ℕ
  pub fn : ℕ
  pub backspace : ℕ
  pub tab : ℕ
  pub enter : ℕ

-- `functionKeys[index]` of the `case ' '`.
unfoldable pub typeless_key : ℕ → Text
typeless_key k =
    let index = if leb 13 k && leb k 16 then k - 13 else 0 in
    if index == 0
    then text "f13"
    else if index == 1
    then text "f14"
    else if index == 2
    then text "f15"
    else text "f16"

unfoldable pub map_fn_key : KeyCodes → ℕ → ℕ → Option Text
unfolding typeless_key
map_fn_key codes key typeless_function_key =
    if key == b' '
    then some (typeless_key typeless_function_key)
    else if key == b';'
    then some (text "up")
    else if key == b','
    then some (text "left")
    else if key == b'.'
    then some (text "down")
    else if key == b'/'
    then some (text "right")
    else if key == b'`'
    then some (text "escape")
    else if key == b'['
    then some (text "home")
    else if key == b']'
    then some (text "end")
    else if key == codes.backspace
    then some (text "delete_forward")
    else none

unfoldable pub map_special_key : KeyCodes → ℕ → Option Text
map_special_key codes key =
    if key == codes.backspace
    then some (text "backspace")
    else if key == codes.tab
    then some (text "tab")
    else if key == codes.enter
    then some (text "enter")
    else none

unfoldable pub is_keyboard_modifier : KeyCodes → ℕ → Bool
is_keyboard_modifier codes key =
    key == codes.left_ctrl || key == codes.left_shift || key == codes.left_alt || key == codes.opt

unfoldable pub map_modifier : KeyCodes → ℕ → Option Text
map_modifier codes key =
    if key == codes.left_ctrl
    then some (text "ctrl")
    else if key == codes.left_alt
    then some (text "cmd")
    else if key == codes.opt
    then some (text "alt")
    else none
