-- ===== src/Ui/Characters.antt =====
-- firmware/m5stack-cardputer-adv/src/ui.cpp: the helpers that cut a text at a UTF-8 character, the
-- text entry, and the blend of two RGB565 colours.
use cardputer_codex_deck.Base.{
  ℕ, zero, suc, ◌+◌, ◌-◌, ◌*◌, ◌/◌, ◌%◌, Bool, true, false, ◌&&◌, not, [], ◌∷◌, ◌++◌, none, some,
  Text, is_empty, is_digit, ◌==◌, ltb, leb, if◌then◌else◌, length, get_elem?, take, u16,
}

abbrev pub byte_at : Text → ℕ → ℕ
byte_at value index = elim (get_elem? value index) [ none ↦ 0 | some c ↦ c ]

-- `(c & 0xC0) == 0x80` and the tests of a lead byte, by division.
abbrev pub is_continuation : ℕ → Bool
is_continuation c = c / 64 == 2

unfoldable pub utf8_character_length : Text → ℕ → ℕ
utf8_character_length value index =
    let lead = byte_at value index in
    let remaining = length value - index in
    if leb (length value) index
    then 0
    else if ltb lead 128
    then 1
    else if lead / 32 == 6
    then (if ltb remaining 2 then remaining else 2)
    else if lead / 16 == 14
    then (if ltb remaining 3 then remaining else 3)
    else if lead / 8 == 30
    then (if ltb remaining 4 then remaining else 4)
    else 1

unfoldable pub ascii_only : Text → Bool
ascii_only [] = true
ascii_only (c ∷ value) = if leb 128 c then false else ascii_only value

-- The loop of `removeLastUtf8Character`, from `index` down.
unfoldable pub character_start : Text → ℕ → ℕ
character_start value zero = 0
character_start value (suc index) =
    let before = character_start value index in
    if is_continuation (byte_at value (suc index)) then before else suc index

unfoldable pub remove_last_utf8_character : Text → Text
remove_last_utf8_character value =
    if is_empty value then value else take (character_start value (length value - 1)) value

-- `value.remove(value.length() - 1)`.
abbrev pub remove_last : Text → Text
remove_last value = if is_empty value then value else take (length value - 1) value

-- The loop of `appendTypedText` over the typed characters.
unfoldable pub append_typed_text : Text → ℕ → Bool → Text → Text
append_typed_text [] max_length digits_only destination = destination
append_typed_text (c ∷ word) max_length digits_only destination =
    let wanted = not (digits_only && not (is_digit c)) && leb 32 c && leb c 126 in
    let rest =
      append_typed_text word max_length digits_only
        (if wanted then destination ++ c ∷ [] else destination) in
    if leb max_length (length destination) then destination else rest

-- One channel of a blend: `field` is its mask plus one.
abbrev pub blend_channel : ℕ → ℕ → ℕ → ℕ → ℕ → ℕ
blend_channel shift field from to amount =
    u16 ((from / shift % field * (255 - amount) + to / shift % field * amount) / 255)

unfoldable pub blend_rgb565 : ℕ → ℕ → ℕ → ℕ
blend_rgb565 from to amount =
    let red = blend_channel 2048 32 from to amount in
    let green = blend_channel 32 64 from to amount in
    let blue = blend_channel 1 32 from to amount in u16 (red * 2048 + green * 32 + blue)
