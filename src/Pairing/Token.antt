-- ===== src/Pairing/Token.antt =====
-- firmware/m5stack-cardputer-adv/src/pairing.cpp, `setAudioReady`: the hexadecimal token and the
-- record that the two audio tasks read.
use cardputer_codex_deck.Base.{
  ℕ, ◌+◌, ◌-◌, ◌*◌, Bool, true, false, ◌&&◌, Option, none, some, [], ◌∷◌, Text, ◌==◌, leb,
  if◌then◌else◌, length, replicate, is_digit, to_lower, u8,
}
use cardputer_codex_deck.Pairing.State.{PairingManager, AudioShared}

-- `high` and `low` of the loop, `none` for -1.
unfoldable pub nibble : ℕ → Option ℕ
nibble c =
    if is_digit c
    then some (c - b'0')
    else if leb b'a' (to_lower c) && leb (to_lower c) b'f'
    then some (to_lower c - b'a' + 10)
    else none

-- The loop over the pairs of digits.
unfoldable pub decode_pairs : Text → Option Text
decode_pairs [] = some []
decode_pairs (h ∷ []) = none
decode_pairs (h ∷ l ∷ rest) = elim (nibble h) [
  | none ↦ none
  | some high ↦ elim (nibble l) [
    | none ↦ none
    | some low ↦ elim (decode_pairs rest) [
      | none ↦ none
      | some bytes ↦ some (u8 (high * 16 + low) ∷ bytes)
    ]
  ]
]

-- `ready` and `decoded` after the loop.
unfoldable pub decode_token : Text → Option Text
decode_token token = if length token == 64 then decode_pairs token else none

-- What the critical section writes.
abbrev pub audio_record : Option Text → ℕ → ℕ → AudioShared
audio_record (some decoded) target_ip audio_ip = record {
  ready = true;
  ip = target_ip;
  token = decoded;
  status_seen = false;
  output_ready = false;
  received = 0;
  status_ms = 0;
}
audio_record none target_ip audio_ip = record {
  ready = false;
  ip = audio_ip;
  token = replicate 32 0;
  status_seen = false;
  output_ready = false;
  received = 0;
  status_ms = 0;
}

unfoldable pub set_audio_ready : Bool → PairingManager → PairingManager
set_audio_ready ready m = record m {
  audio = audio_record (if ready then decode_token m.target_token else none) m.target_ip m.audio.ip;
}

-- `audioEndpoint`: address and token, when the link offers them.
unfoldable pub audio_endpoint : AudioShared → Option (ℕ × Text)
audio_endpoint a = if a.ready then some (a.ip, a.token) else none

-- `audioStatus`: its result, and `received`, `updatedMs` and `outputReady`.
unfoldable pub audio_status : AudioShared → Bool × ℕ × ℕ × Bool
audio_status a = (a.status_seen, a.received, a.status_ms, a.output_ready)
