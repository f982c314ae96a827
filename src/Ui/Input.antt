-- ===== src/Ui/Input.antt =====
-- firmware/m5stack-cardputer-adv/src/ui.cpp: the keys that the pages react to.
use cardputer_codex_deck.Base.{ℕ, Bool, ◌||◌, to_lower, ◌==◌, any}
use cardputer_codex_deck.Ui.State.{KeysState}

unfoldable pub pressed : KeysState → ℕ → Bool
pressed k character = any (λ c. to_lower c == to_lower character) k.word

unfoldable pub nav_up : KeysState → Bool
nav_up k = pressed k b';' || pressed k b'i'

unfoldable pub nav_down : KeysState → Bool
nav_down k = pressed k b'.' || pressed k b'k'

unfoldable pub nav_left : KeysState → Bool
nav_left k = pressed k b',' || pressed k b'j'

unfoldable pub nav_right : KeysState → Bool
nav_right k = pressed k b'/' || pressed k b'l'

abbrev pub enter_pressed : KeysState → Bool
enter_pressed k = k.enter

unfoldable pub escape_pressed : KeysState → Bool
escape_pressed k = pressed k b'`'

abbrev pub backspace_pressed : KeysState → Bool
backspace_pressed k = k.del

unfoldable pub back_pressed : KeysState → Bool
back_pressed k = escape_pressed k || backspace_pressed k
