-- ===== src/Bridge/Tests.antt =====
-- A datagram from the device to the bridge at a concrete input.
use cardputer_codex_deck.Base.{
  ℕ, zero, suc, ◌+◌, ◌*◌, ◌-◌, ◌/◌, ◌%◌, ◌≡◌, ◌<◌, refl, ap, ◌∙◌, true, Option, some, [], ◌∷◌, ◌++◌,
  Text, map, to_lower, replicate, if◌then◌else◌, ltb, arith, negsuc,
}
use cardputer_codex_deck.Pairing.State.{PairingManager, initial}
use cardputer_codex_deck.Pairing.Token.{nibble, decode_pairs, decode_token, set_audio_ready}
use cardputer_codex_deck.Pairing.Decode.{hex_digit, encode, IsByte}
use cardputer_codex_deck.Audio.State.{AudioFrame}
use cardputer_codex_deck.Audio.Sender.{htonl, payload, packet}
use cardputer_codex_deck.Bridge.Protocol.{unpack_samples, unpack_audio}
use cardputer_codex_deck.Bridge.Delivery.{AllInt16, IsFrame, packet-unpack_audio}

abbrev digest : Text → Text → Text
digest key message = replicate 32 1

abbrev sign : Text → Text → Option Text
sign key message = some (digest key message)

abbrev frame : AudioFrame
frame = record { sequence = 7; timestamp_ms = 100; samples = replicate 320 (negsuc 300) }

-- A stand-in for `bytes.fromhex`.
abbrev digit_value : ℕ → ℕ
digit_value c = if ltb c b'a' then c - b'0' else c - 87

abbrev unhex : Text → Text
unhex (h ∷ l ∷ rest) = (digit_value (to_lower h) * 16 + digit_value (to_lower l)) ∷ unhex rest
unhex _ = []

digit_value-hex_digit : (n : ℕ) → n < 16 → digit_value (hex_digit n) ≡ n
digit_value-hex_digit n h = ground arith

unhex-encode :
    (digits bytes : Text) → IsByte bytes → map to_lower digits ≡ encode bytes → unhex digits ≡ bytes
unhex-encode [] [] v e = refl
unhex-encode [] (b ∷ bytes) v e = absurd (ground arith)
unhex-encode (h ∷ []) [] v e = absurd (ground arith)
unhex-encode (h ∷ []) (b ∷ bytes) v e = absurd (ground arith)
unhex-encode (h ∷ l ∷ rest) [] v e = absurd (ground arith)
unhex-encode (h ∷ l ∷ rest) (b ∷ bytes) v e =
    let high : to_lower h ≡ hex_digit (b / 16) = ground arith in
    let low : to_lower l ≡ hex_digit (b % 16) = ground arith in
    let more : map to_lower rest ≡ encode bytes = ground arith in
    let upper = ap digit_value high ∙ digit_value-hex_digit (b / 16) (omega (arith, v.0)) in
    let lower = ap digit_value low ∙ digit_value-hex_digit (b % 16) (omega arith) in
    let byte : digit_value (to_lower h) * 16 + digit_value (to_lower l) ≡ b =
      omega (arith, upper, lower) in
    ap (λ n. n ∷ unhex rest) byte ∙ ap (◌∷◌ b) (unhex-encode rest bytes v.1 more)

abbrev manager : PairingManager
manager = record initial { target_token = replicate 64 b'a' }

abbrev datagram : Text
datagram = htonl 7 ++ htonl 100 ++ replicate 8 1 ++ payload frame.samples

replicate-AllInt16 : (n : ℕ) → AllInt16 (replicate n (negsuc 300))
replicate-AllInt16 zero = tt
replicate-AllInt16 (suc n) = (omega arith, replicate-AllInt16 n)

frame-IsFrame : IsFrame frame
frame-IsFrame = record {
  sequence = omega arith;
  timestamp = omega arith;
  count = refl;
  samples = replicate-AllInt16 320;
}

manager_ready : (set_audio_ready true manager).audio.ready ≡ true
unfolding set_audio_ready decode_token decode_pairs nibble
manager_ready = refl

datagram_sent : packet sign (set_audio_ready true manager).audio.token frame ≡ some datagram
unfolding packet
datagram_sent = refl

packet-unpack_audio_example :
    (unpack_audio (λ digits. some (unhex digits)) digest manager.target_token datagram
      ≡ some (record { sequence = 7; timestamp_ms = 100; payload = payload frame.samples }))
    × (unpack_samples (payload frame.samples) ≡ frame.samples)
packet-unpack_audio_example =
    packet-unpack_audio (λ digits. some (unhex digits)) digest (λ key message. omega arith)
      (λ digits bytes v e. ap some (unhex-encode digits bytes v e)) sign
      (λ key message d made. ground arith) manager manager_ready frame frame-IsFrame datagram
      datagram_sent
