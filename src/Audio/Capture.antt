-- ===== src/Audio/Capture.antt =====
-- firmware/m5stack-cardputer-adv/src/audio_tx.cpp, `captureLoop`: the steps of the capture
-- task, between which the other task and the main loop may run.
use cardputer_codex_deck.Base.{
  ℕ, zero, suc, ◌+◌, ◌/◌, Bool, true, false, ◌&&◌, not, Option, none, some, List, [], ◌∷◌, ◌++◌,
  ◌==◌, ltb, leb, if◌then◌else◌, length, take, min, max, u8, u16, u32, ℤ, pos, negsuc,
}
use cardputer_codex_deck.Audio.State.{
  samples_per_frame, ring_frames, read_failure_restart_count, invalid_frame_restart_count,
  AudioFrame, AudioTransmitter, Capture, CapturePhase, capture_head, reading, has_frame, enqueues,
  CaptureEnv, streaming_allowed,
}

-- `sizeof(stereo)`.
abbrev pub stereo_bytes : ℕ
stereo_bytes = 1280

-- The loop of `i2s_channel_read`, on fuel: whether the buffer was filled, and none where the fuel ran
-- out before the loop ended.
unfoldable pub read_stereo : (ℕ → Option ℕ) → ℕ → ℕ → Option Bool
read_stereo read zero received = if leb stereo_bytes received then some true else none
read_stereo read (suc fuel) received =
    if leb stereo_bytes received then some true else elim (read received) [
      | none ↦ some false
      | some n ↦ elim n [ zero ↦ some false | suc k ↦ read_stereo read fuel (received + (k + 1)) ]
    ]

-- `readOk`.
abbrev pub is_filled : Option Bool → Bool
is_filled none = false
is_filled (some ok) = ok

-- `frame.samples[i] = stereo[i * 2]`.
abbrev pub left_slot : List ℤ → List ℤ
left_slot [] = []
left_slot (l ∷ []) = l ∷ []
left_slot (l ∷ r ∷ rest) = l ∷ left_slot rest

abbrev pub absolute : ℤ → ℕ
absolute (pos n) = u16 n
absolute (negsuc n) = min (n + 1) 32767

unfoldable pub peak_of : List ℤ → ℕ
peak_of [] = 0
peak_of (s ∷ samples) = max (absolute s) (peak_of samples)

abbrev same_sample : ℤ → ℤ → Bool
same_sample (pos a) (pos b) = a == b
same_sample (negsuc a) (negsuc b) = a == b
same_sample _ _ = false

abbrev all_same : ℤ → List ℤ → Bool
all_same s [] = true
all_same s (t ∷ rest) = same_sample t s && all_same s rest

-- `constantFrame`.
unfoldable pub constant_frame : List ℤ → Bool
constant_frame [] = true
constant_frame (s ∷ rest) = all_same s rest

-- `micStop(); xQueueReset(queue_); ++micRestart_`.
abbrev pub restart_mic : AudioTransmitter → AudioTransmitter
restart_mic t = record t { rx_channel = false; queue = []; mic_restart = u32 (t.mic_restart + 1) }

-- `xQueueSend`, and where the ring is full the oldest frame is dropped for the new one.
unfoldable pub enqueue : AudioFrame → AudioTransmitter → AudioTransmitter
enqueue frame t =
    if ltb (length t.queue) ring_frames
    then record t { queue = t.queue ++ frame ∷ [] }
    else record t {
      queue = elim t.queue [ [] ↦ frame ∷ [] | old ∷ rest ↦ rest ++ frame ∷ [] ];
      dropped_frames = u32 (t.dropped_frames + 1);
      queue_drop = u32 (t.queue_drop + 1);
    }

-- The frame that was read, up to `++captured_`.
unfoldable pub take_frame : CaptureEnv → Capture → AudioTransmitter → Capture × AudioTransmitter
take_frame env c t =
    let frame : AudioFrame = record {
      sequence = c.sequence;
      timestamp_ms = env.now;
      samples = take samples_per_frame (left_slot env.stereo);
    } in
    (
      record c { phase = has_frame frame; read_failures = 0; sequence = u32 (c.sequence + 1) },
      record t { captured = u32 (t.captured + 1) },
    )

-- The read of a frame, with the microphone on.
unfoldable pub read_frame : CaptureEnv → Capture → AudioTransmitter → Capture × AudioTransmitter
read_frame env c t =
    let failures = u8 (c.read_failures + 1) in
    let f : AudioTransmitter = record t { record_fail = u32 (t.record_fail + 1) } in
    if is_filled (read_stereo env.i2s_read stereo_bytes 0)
    then take_frame env c t
    else if leb read_failure_restart_count failures
    then (record c { phase = capture_head; read_failures = 0 }, restart_mic f)
    else (record c { phase = capture_head; read_failures = failures }, f)

-- From the second look at the switches to `consecutiveInvalidFrames = 0`.
unfoldable pub check_frame :
    CaptureEnv → AudioFrame → Capture → AudioTransmitter → Capture × AudioTransmitter
check_frame env frame c t =
    let peak = peak_of frame.samples in
    let m : AudioTransmitter = record t { raw_peak = peak; level = u8 (min 255 (peak / 128)) } in
    let invalid = u16 (c.invalid_frames + 1) in
    if not (streaming_allowed env.shared t)
    then (record c { phase = capture_head }, t)
    else if constant_frame frame.samples
    then (if leb invalid_frame_restart_count invalid
        then (record c { phase = capture_head; invalid_frames = 0 }, restart_mic m)
        else (record c { phase = capture_head; invalid_frames = invalid }, m))
    else (record c { phase = enqueues frame; invalid_frames = 0 }, m)

-- The head of the loop, up to the read.
unfoldable pub start_capture : CaptureEnv → Capture → AudioTransmitter → Capture × AudioTransmitter
start_capture env c t =
    if not (streaming_allowed env.shared t)
    then (if t.rx_channel
        then (c, record t { rx_channel = false; level = 0; raw_peak = 0; queue = [] })
        else (c, t))
    else if t.capture_restart_requested
    then (c, restart_mic (record t { capture_restart_requested = false }))
    else if t.rx_channel
    then (record c { phase = reading }, t)
    else if env.mic_starts
    then (
      record c { phase = reading },
      record t { rx_channel = true; mic_begin_ok = u32 (t.mic_begin_ok + 1) },
    )
    else (c, record t { mic_begin_fail = u32 (t.mic_begin_fail + 1) })

unfoldable pub capture_at :
    CapturePhase → CaptureEnv → Capture → AudioTransmitter → Capture × AudioTransmitter
capture_at capture_head env c t = start_capture env c t
capture_at reading env c t = read_frame env c t
capture_at (has_frame frame) env c t = check_frame env frame c t
capture_at (enqueues frame) env c t = (record c { phase = capture_head }, enqueue frame t)

unfoldable pub capture_step : CaptureEnv → Capture → AudioTransmitter → Capture × AudioTransmitter
capture_step env c t = capture_at c.phase env c t
