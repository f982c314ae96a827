-- ===== src/Settings/Keys.antt =====
-- The keys of the settings store: which of them differ.
use cardputer_codex_deck.Base.{ℕ, ◌<◌, ◌≡◌, ◌≢◌, refl, false, arith, text, text_eq, text_eq_iff}
use cardputer_codex_deck.Settings.Store.{decimal, key_for}

pub decimal_injective : (i j : ℕ) → i < 1000 → j < 1000 → decimal i ≡ decimal j → i ≡ j
unfolding decimal
decimal_injective i j h k e = ground arith

-- The same field at two indices.
pub ws_apart :
    (i j : ℕ)
    → i < 1000
    → j < 1000
    → i ≢ j
    → text_eq (key_for (text "ws") i) (key_for (text "ws") j) ≡ false
unfolding key_for text_eq
ws_apart i j h k n = ground (arith, decimal_injective i j h k, text_eq_iff (decimal i) (decimal j))

pub wp_apart :
    (i j : ℕ)
    → i < 1000
    → j < 1000
    → i ≢ j
    → text_eq (key_for (text "wp") i) (key_for (text "wp") j) ≡ false
unfolding key_for text_eq
wp_apart i j h k n = ground (arith, decimal_injective i j h k, text_eq_iff (decimal i) (decimal j))

-- Two fields.
pub ws_wp : (i j : ℕ) → text_eq (key_for (text "ws") i) (key_for (text "wp") j) ≡ false
unfolding key_for text_eq
ws_wp i j = refl

pub wp_ws : (i j : ℕ) → text_eq (key_for (text "wp") i) (key_for (text "ws") j) ≡ false
unfolding key_for text_eq
wp_ws i j = refl

-- A field and the count.
pub ws_count : (i : ℕ) → text_eq (key_for (text "ws") i) (text "wifi_n") ≡ false
unfolding key_for text_eq
ws_count i = refl

pub wp_count : (i : ℕ) → text_eq (key_for (text "wp") i) (text "wifi_n") ≡ false
unfolding key_for text_eq
wp_count i = refl
