-- ===== src/Bridge/Delivery.antt =====
-- The datagrams of the audio transmitter (Audio/Sender) as the bridge reads them (Bridge/Protocol).
use cardputer_codex_deck.Base.{
  ℕ, zero, suc, ◌+◌, ◌*◌, ◌-◌, ◌/◌, ◌≤◌, ◌<◌, ◌≡◌, refl, ap, sym, ◌∙◌, true, false, Option, some,
  List, [], ◌∷◌, ◌++◌, Text, map, to_lower, text_eq_refl, ◌==◌, ltb, take, drop, length,
  length-append, length-take, u8, u32, ℤ, pos, negsuc, arith, inl, inr, Option-cases,
}
use cardputer_codex_deck.Audio.State.{AudioFrame, samples_per_frame}
use cardputer_codex_deck.Audio.Sender.{htonl, payload, packet, signed_part}
use cardputer_codex_deck.Pairing.State.{PairingManager}
use cardputer_codex_deck.Pairing.Token.{set_audio_ready}
use cardputer_codex_deck.Pairing.Decode.{
  encode, IsByte, set_audio_ready-ready, set_audio_ready-token,
}
use cardputer_codex_deck.Bridge.Protocol.{
  pack_word, unpack_word, unpack_int16, unpack_samples, token_bytes, audio_hmac, unpack_audio,
}

-- The samples are of 16 bits.
abbrev IsInt16 : ℤ → Type 0
IsInt16 (pos n) = n < 32768
IsInt16 (negsuc n) = n < 32768

abbrev pub AllInt16 : List ℤ → Type 0
AllInt16 [] = Unit {0}
AllInt16 (s ∷ samples) = IsInt16 s × AllInt16 samples

-- A frame as `captureLoop` makes it.
pub record IsFrame (frame : AudioFrame) : Type 0 where
  pub sequence : frame.sequence < 4294967296
  pub timestamp : frame.timestamp_ms < 4294967296
  pub count : length frame.samples ≡ samples_per_frame
  pub samples : AllInt16 frame.samples

pack_word-htonl : (n : ℕ) → n < 4294967296 → pack_word n ≡ htonl n
unfolding pack_word
pack_word-htonl n h =
    let e : u32 n ≡ n = omega arith in
    let top : n / 16777216 ≡ u8 (n / 16777216) = omega arith in
    rw e (ap (λ k. k ∷ u8 (n / 65536) ∷ u8 (n / 256) ∷ u8 n ∷ []) top)

unpack_word-htonl : (n : ℕ) → n < 4294967296 → unpack_word (htonl n) ≡ n
unfolding unpack_word
unpack_word-htonl n h = omega arith

unpack_int16-low :
    (low high n : ℕ) → low + high * 256 ≡ n → n < 32768 → unpack_int16 low high ≡ pos n
unpack_int16-low low high n e h =
    let small : ltb n 32768 ≡ true = ground arith in rw (e, small) refl

unpack_int16-high :
    (low high n : ℕ) → low + high * 256 ≡ 65535 - n → n < 32768 → unpack_int16 low high ≡ negsuc n
unpack_int16-high low high n e h =
    let large : ltb (65535 - n) 32768 ≡ false = ground arith in
    let back : 65535 - (65535 - n) ≡ n = omega arith in rw (e, large) (ap negsuc back)

unpack_samples-payload :
    (samples : List ℤ) → AllInt16 samples → unpack_samples (payload samples) ≡ samples
unfolding unpack_samples
unpack_samples-payload [] h = refl
unpack_samples-payload (pos n ∷ samples) h =
    ap (◌∷◌ (unpack_int16 (u8 n) (u8 (n / 256)))) (unpack_samples-payload samples h.1)
    ∙ ap (λ s. s ∷ samples) (unpack_int16-low (u8 n) (u8 (n / 256)) n (omega (arith, h.0)) h.0)
unpack_samples-payload (negsuc n ∷ samples) h =
    ap (◌∷◌ (unpack_int16 (255 - u8 n) (255 - u8 (n / 256)))) (unpack_samples-payload samples h.1)
    ∙ ap (λ s. s ∷ samples)
        (unpack_int16-high (255 - u8 n) (255 - u8 (n / 256)) n (omega (arith, h.0)) h.0)

length-payload : (samples : List ℤ) → length (payload samples) ≡ length samples * 2
length-payload [] = refl
length-payload (pos n ∷ samples) = omega (arith, length-payload samples)
length-payload (negsuc n ∷ samples) = omega (arith, length-payload samples)

-- A text of eight bytes in front of another.
take-front : (s t : Text) (n : ℕ) → length s ≡ n → take n (s ++ t) ≡ s
take-front [] t zero e = refl
take-front [] t (suc n) e = absurd (omega arith)
take-front (c ∷ s) t zero e = absurd (omega arith)
take-front (c ∷ s) t (suc n) e = ap (◌∷◌ c) (take-front s t n (omega arith))

drop-front : (s t : Text) (n : ℕ) → length s ≡ n → drop n (s ++ t) ≡ t
drop-front [] t zero e = refl
drop-front [] t (suc n) e = absurd (omega arith)
drop-front (c ∷ s) t zero e = absurd (omega arith)
drop-front (c ∷ s) t (suc n) e = drop-front s t n (omega arith)

-- The token that the device keeps as bytes is the one that the bridge keeps in hexadecimal.
token_bytes-token :
    (from_hex : Text → Option Text)
    → ((digits bytes : Text)
        → IsByte bytes
        → map to_lower digits ≡ encode bytes
        → from_hex digits ≡ some bytes)
    → (m : PairingManager) → (set_audio_ready true m).audio.ready ≡ true
    → token_bytes from_hex m.target_token ≡ some (set_audio_ready true m).audio.token
unfolding token_bytes
token_bytes-token from_hex reads m ready =
    let a = (set_audio_ready true m).audio in
    let (address, round, fits, long) = set_audio_ready-token m ready in
    let whole = set_audio_ready-ready m in
    let size : (length m.target_token == 64) ≡ true = ground (arith, whole) in
    rw size (reads m.target_token a.token fits (sym round))

module _ (from_hex : Text → Option Text) (hmac : Text → Text → Text)
    (long : (key message : Text) → 8 ≤ length (hmac key message)) where
  unpack_audio-open :
      (token d : Text) {sequence timestamp_ms : ℕ} {tag body : Text}
      → length d ≡ 656
      → unpack_word (take 4 d) ≡ sequence
      → unpack_word (take 4 (drop 4 d)) ≡ timestamp_ms
      → take 8 (drop 8 d) ≡ tag
      → drop 16 d ≡ body
      → audio_hmac from_hex hmac token sequence timestamp_ms body ≡ some tag
      → unpack_audio from_hex hmac token d
        ≡ some (record { sequence = sequence; timestamp_ms = timestamp_ms; payload = body })
  unfolding unpack_audio
  unpack_audio-open token d {sequence} {timestamp_ms} {tag} {body} size es et eg eb h =
      let sized : (length d == 656) ≡ true = ground arith in
      rw (sized, es, et, eb, h, eg, text_eq_refl tag) (rw (es, et, eb) refl)

  -- A datagram with the right tag is taken as the frame it holds.
  unpack_audio-tagged :
      (token key tag body : Text) (sequence timestamp_ms : ℕ)
      → sequence < 4294967296
      → timestamp_ms < 4294967296
      → length body ≡ 640
      → token_bytes from_hex token ≡ some key
      → tag ≡ take 8 (hmac key (htonl sequence ++ htonl timestamp_ms ++ body))
      → unpack_audio from_hex hmac token (htonl sequence ++ htonl timestamp_ms ++ tag ++ body)
        ≡ some (record { sequence = sequence; timestamp_ms = timestamp_ms; payload = body })
  unfolding audio_hmac
  unpack_audio-tagged token key tag body sequence timestamp_ms hs ht size decoded e =
      let digest : Text = hmac key (htonl sequence ++ htonl timestamp_ms ++ body) in
      let eight : length tag ≡ 8 = omega (
        arith,
        ap length e,
        length-take 8 digest,
        long key (htonl sequence ++ htonl timestamp_ms ++ body),
      ) in
      let d = htonl sequence ++ htonl timestamp_ms ++ tag ++ body in
      let all = length-append tag body in
      let full : (length body == 640) ≡ true = ground arith in
      let first : unpack_word (take 4 d) ≡ sequence = unpack_word-htonl sequence hs in
      let second : unpack_word (take 4 (drop 4 d)) ≡ timestamp_ms =
        unpack_word-htonl timestamp_ms ht in
      let third : drop 16 d ≡ body = drop-front tag body 8 eight in
      let fourth : take 8 (drop 8 d) ≡ tag = take-front tag body 8 eight in
      let tagged : audio_hmac from_hex hmac token sequence timestamp_ms body ≡ some tag =
        rw (full, decoded, pack_word-htonl sequence hs, pack_word-htonl timestamp_ms ht)
          (ap some (sym e)) in
      unpack_audio-open token d (omega (arith, all)) first second fourth third tagged

  -- Let `from_hex` read two hexadecimal digits of either case for each byte, and let the device
  -- take the HMAC that the bridge takes, of at least eight bytes. When the link has made the audio
  -- record ready, the bridge, which has the token in hexadecimal, accepts the datagram that the
  -- device makes, with the bytes that it decoded from that token, of a frame of 320 samples of 16
  -- bits, and reads the frame's sequence number, its timestamp and its samples from it.
  pub packet-unpack_audio :
      ((digits bytes : Text)
        → IsByte bytes
        → map to_lower digits ≡ encode bytes
        → from_hex digits ≡ some bytes)
      → (sign : Text → Text → Option Text)
      → ((key message digest : Text) → sign key message ≡ some digest → digest ≡ hmac key message)
      → (m : PairingManager) → (set_audio_ready true m).audio.ready ≡ true
      → (frame : AudioFrame) → IsFrame frame
      → (bytes : Text) → packet sign (set_audio_ready true m).audio.token frame ≡ some bytes
      → (unpack_audio from_hex hmac m.target_token bytes
          ≡ some (record {
            sequence = frame.sequence;
            timestamp_ms = frame.timestamp_ms;
            payload = payload frame.samples;
          }))
        × (unpack_samples (payload frame.samples) ≡ frame.samples)
  unfolding packet
  packet-unpack_audio reads sign same m ready frame v bytes sent =
      let key = (set_audio_ready true m).audio.token in
      (
        elim (Option-cases (sign key (signed_part frame))) [
          | inl failed ↦ absurd (ground arith)
          | inr (digest, made) ↦
              let body = payload frame.samples in
              let whole : htonl frame.sequence ++ htonl frame.timestamp_ms ++ take 8 digest ++ body
                  ≡ bytes =
                ground arith in
              let size : length body ≡ 640 = omega (arith, length-payload frame.samples, v.count) in
              let tag = ap (take 8) (same key (signed_part frame) digest made) in
              ap (unpack_audio from_hex hmac m.target_token) (sym whole)
              ∙ unpack_audio-tagged m.target_token key (take 8 digest) body frame.sequence
                  frame.timestamp_ms v.sequence v.timestamp size
                  (token_bytes-token from_hex reads m ready) tag
        ],
        unpack_samples-payload frame.samples v.samples,
      )
