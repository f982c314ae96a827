-- ===== src/Audio/Reading.antt =====
-- The loop that reads a frame from the microphone (Audio/Capture).
use cardputer_codex_deck.Base.{
  ℕ, zero, suc, ◌+◌, ◌≤◌, ◌≡◌, refl, Bool, true, false, Option, some, arith, inl, inr, leb,
  Option-cases, Bool-cases,
}
use cardputer_codex_deck.Audio.Capture.{stereo_bytes, read_stereo}

-- The loop of `i2s_channel_read` ends, whatever the driver returns: any fuel of at least the bytes
-- that are missing gives a result, and always the same.
pub read_stereo-ends :
    (read : ℕ → Option ℕ) (f g received : ℕ)
    → stereo_bytes ≤ received + f
    → stereo_bytes ≤ received + g
    → (b : Bool) × (read_stereo read f received ≡ some b) × (read_stereo read g received ≡ some b)
unfolding read_stereo
read_stereo-ends read zero zero received h k =
    let full : leb stereo_bytes received ≡ true = ground arith in (true, rw full refl, rw full refl)
read_stereo-ends read zero (suc g) received h k =
    let full : leb stereo_bytes received ≡ true = ground arith in (true, rw full refl, rw full refl)
read_stereo-ends read (suc f) zero received h k =
    let full : leb stereo_bytes received ≡ true = ground arith in (true, rw full refl, rw full refl)
read_stereo-ends read (suc f) (suc g) received h k = elim (Bool-cases (leb stereo_bytes received)) [
  | inl full ↦ (true, rw full refl, rw full refl)
  | inr short ↦ elim (Option-cases (read received)) [
    | inl failed ↦ (false, rw (short, failed) refl, rw (short, failed) refl)
    | inr (zero, nothing) ↦ (false, rw (short, nothing) refl, rw (short, nothing) refl)
    | inr (suc n, some_bytes) ↦
        let (b, first, second) =
          read_stereo-ends read f g (received + (n + 1)) (omega arith) (omega arith) in
        (b, rw (short, some_bytes) first, rw (short, some_bytes) second)
  ]
]
