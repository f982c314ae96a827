-- ===== src/Bridge/Protocol.antt =====
-- bridge/agent/cardbridge/protocol.py and audio.py: a datagram as the bridge reads it. `bytes.fromhex`
-- and the HMAC of Python are parameters; a `ProtocolError` is `none`.
use cardputer_codex_deck.Base.{
  ℕ, ◌+◌, ◌*◌, ◌-◌, ◌%◌, ◌/◌, Option, none, some, List, [], ◌∷◌, ◌++◌, Text, text_eq, ◌==◌, ltb,
  not, if◌then◌else◌, take, drop, length, u32, ℤ, pos, negsuc,
}

abbrev pub audio_samples_per_frame : ℕ
audio_samples_per_frame = 320

abbrev pub audio_payload_size : ℕ
audio_payload_size = audio_samples_per_frame * 2

abbrev pub audio_header_size : ℕ
audio_header_size = 16

abbrev pub audio_packet_size : ℕ
audio_packet_size = audio_header_size + audio_payload_size

pub record AudioPacket : Type 0 where
  pub sequence : ℕ
  pub timestamp_ms : ℕ
  pub payload : Text

-- `struct.pack("!I", n & 0xFFFFFFFF)`.
unfoldable pub pack_word : ℕ → Text
pack_word n = let w = u32 n in w / 16777216 ∷ w / 65536 % 256 ∷ w / 256 % 256 ∷ w % 256 ∷ []

-- `struct.unpack("!I", bytes)`.
unfoldable pub unpack_word : Text → ℕ
unpack_word (a ∷ b ∷ c ∷ d ∷ []) = a * 16777216 + b * 65536 + c * 256 + d
unpack_word _ = 0

-- `struct.unpack("<h", bytes)`.
abbrev pub unpack_int16 : ℕ → ℕ → ℤ
unpack_int16 low high =
    let n = low + high * 256 in if ltb n 32768 then pos n else negsuc (65535 - n)

-- `struct.unpack("<320h", payload)`, of a payload of the size that `unpack_audio` lets through.
unfoldable pub unpack_samples : Text → List ℤ
unpack_samples (low ∷ high ∷ payload) = unpack_int16 low high ∷ unpack_samples payload
unpack_samples _ = []

-- `from_hex` is `bytes.fromhex`, none for a `ValueError`.
unfoldable pub token_bytes : (Text → Option Text) → Text → Option Text
token_bytes from_hex token = if not (length token == 64) then none else from_hex token

module _ (from_hex : Text → Option Text) (hmac : Text → Text → Text) where
  unfoldable pub audio_hmac : Text → ℕ → ℕ → Text → Option Text
  audio_hmac token sequence timestamp_ms payload =
      if not (length payload == audio_payload_size)
      then none
      else elim (token_bytes from_hex token) [
        | none ↦ none
        | some key ↦
            some (take 8 (hmac key (pack_word sequence ++ pack_word timestamp_ms ++ payload)))
      ]

  unfoldable pub unpack_audio : Text → Text → Option AudioPacket
  unpack_audio token datagram =
      let sequence = unpack_word (take 4 datagram) in
      let timestamp_ms = unpack_word (take 4 (drop 4 datagram)) in
      let signature = take 8 (drop 8 datagram) in
      let payload = drop audio_header_size datagram in
      if not (length datagram == audio_packet_size)
      then none
      else elim (audio_hmac token sequence timestamp_ms payload) [
        | none ↦ none
        | some expected ↦
            if text_eq signature expected
            then some
                (record { sequence = sequence; timestamp_ms = timestamp_ms; payload = payload })
            else none
      ]
