-- ===== src/Pairing/Decode.antt =====
-- The token of the audio tasks against the one of the bridge (Pairing/Token).
use cardputer_codex_deck.Base.{
  ℕ, ◌+◌, ◌*◌, ◌/◌, ◌%◌, ◌<◌, ◌≡◌, refl, u8, ◌⊎◌, Bool, true, false, ◌&&◌, ◌||◌, ◌-◌, none, some,
  [], ◌∷◌, arith, map, length, leb, ltb, ◌==◌, if◌then◌else◌, is_digit, to_lower, Text,
  Option-cases, inl, inr,
}
use cardputer_codex_deck.Pairing.State.{PairingManager}
use cardputer_codex_deck.Pairing.Token.{nibble, decode_pairs, decode_token, set_audio_ready}

-- Lower-case hexadecimal, two digits a byte.
abbrev pub hex_digit : ℕ → ℕ
hex_digit n = if ltb n 10 then n + b'0' else n - 10 + b'a'

abbrev pub encode : Text → Text
encode [] = []
encode (b ∷ bytes) = hex_digit (b / 16) ∷ hex_digit (b % 16) ∷ encode bytes

abbrev pub is_hex : ℕ → Bool
is_hex c = is_digit c || leb b'a' (to_lower c) && leb (to_lower c) b'f'

abbrev pub all_hex : Text → Bool
all_hex [] = true
all_hex (c ∷ s) = is_hex c && all_hex s

abbrev pub IsByte : Text → Type 0
IsByte [] = Unit {0}
IsByte (b ∷ bytes) = (b < 256) × IsByte bytes

nibble_digit :
    (c n : ℕ) → nibble c ≡ some n → (n < 16) × (hex_digit n ≡ to_lower c) × (is_hex c ≡ true)
unfolding nibble
nibble_digit c n h = ground arith

nibble_none : (c : ℕ) → nibble c ≡ none → is_hex c ≡ false
unfolding nibble
nibble_none c h = ground arith

record Decodes (token bytes : Text) : Type 0 where
  round : encode bytes ≡ map to_lower token
  bytes_fit : IsByte bytes
  half : length bytes + length bytes ≡ length token
  hex : all_hex token ≡ true

pair_round :
    (a b : ℕ) (bs : Text) (h l : ℕ) (rest : Text)
    → u8 (a * 16 + b) / 16 ≡ a
    → u8 (a * 16 + b) % 16 ≡ b
    → hex_digit a ≡ to_lower h
    → hex_digit b ≡ to_lower l
    → encode bs ≡ map to_lower rest
    → encode (u8 (a * 16 + b) ∷ bs) ≡ map to_lower (h ∷ l ∷ rest)
pair_round a b bs h l rest upper lower ha hb r = rw (upper, lower, ha, hb, r)

decode_pairs-Decodes : (token bytes : Text) → decode_pairs token ≡ some bytes → Decodes token bytes
unfolding decode_pairs
decode_pairs-Decodes [] bytes e = ground arith
decode_pairs-Decodes (h ∷ []) bytes e = ground arith
decode_pairs-Decodes (h ∷ l ∷ rest) bytes e = elim (Option-cases (nibble h)) [
  | inl bad ↦ ground arith
  | inr (a, high) ↦ elim (Option-cases (nibble l)) [
    | inl bad ↦ ground arith
    | inr (b, low) ↦ elim (Option-cases (decode_pairs rest)) [
      | inl bad ↦ ground arith
      | inr (bs, tail) ↦
          let d = decode_pairs-Decodes rest bs tail in
          let made : bytes ≡ u8 (a * 16 + b) ∷ bs = ground arith in
          let (a16, digit_a, hex_a) = nibble_digit h a high in
          let (b16, digit_b, hex_b) = nibble_digit l b low in
          let upper : u8 (a * 16 + b) / 16 ≡ a = omega arith in
          let lower : u8 (a * 16 + b) % 16 ≡ b = omega arith in
          rw made (record {
            round = pair_round a b bs h l rest upper lower digit_a digit_b d.round;
            bytes_fit = (omega arith, d.bytes_fit);
            half = omega (arith, d.half);
            hex = ground (arith, d.hex);
          })
    ]
  ]
]

decode_pairs-hex :
    (token : Text) → decode_pairs token ≡ none → (length token % 2 ≡ 1) ⊎ (all_hex token ≡ false)
unfolding decode_pairs
decode_pairs-hex [] e = ground arith
decode_pairs-hex (h ∷ []) e = inl refl
decode_pairs-hex (h ∷ l ∷ rest) e = elim (Option-cases (nibble h)) [
  | inl bad ↦ inr (ground (arith, nibble_none h bad))
  | inr (a, high) ↦ elim (Option-cases (nibble l)) [
    | inl bad ↦ inr (ground (arith, nibble_none l bad))
    | inr (b, low) ↦ elim (decode_pairs-hex rest (ground arith)) [
      | inl odd ↦ inl (omega arith)
      | inr bad ↦ inr (ground arith)
    ]
  ]
]

-- `setAudioReady(true)` makes the audio link ready exactly when the token is 64 hexadecimal digits.
pub set_audio_ready-ready :
    (m : PairingManager)
    → (set_audio_ready true m).audio.ready ≡ (length m.target_token == 64 && all_hex m.target_token)
unfolding set_audio_ready decode_token
set_audio_ready-ready m = elim (Option-cases (decode_pairs m.target_token)) [
  | inl bad ↦ ground (arith, decode_pairs-hex m.target_token bad)
  | inr (bytes, good) ↦ ground (arith, (decode_pairs-Decodes m.target_token bytes good).hex)
]

-- If `setAudioReady(true)` makes the audio link ready, the audio tasks get the Mac's address and 32
-- bytes whose hexadecimal form is the token, up to the case of its letters.
pub set_audio_ready-token :
    (m : PairingManager)
    → (set_audio_ready true m).audio.ready ≡ true
    → let a = (set_audio_ready true m).audio in
      (a.ip ≡ m.target_ip)
      × (encode a.token ≡ map to_lower m.target_token)
      × IsByte a.token
      × (length a.token ≡ 32)
unfolding set_audio_ready decode_token
set_audio_ready-token m h = elim (Option-cases (decode_pairs m.target_token)) [
  | inl bad ↦ ground arith
  | inr (bytes, good) ↦
      let d = decode_pairs-Decodes m.target_token bytes good in
      ground (arith, d.round, d.bytes_fit, d.half)
]
