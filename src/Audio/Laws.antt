-- ===== src/Audio/Laws.antt =====
-- The bounds of the audio path.
use cardputer_codex_deck.Base.{
  suc, ◌+◌, ◌≤◌, ◌<◌, ◌≡◌, ◌∙◌, ap, Bool, true, false, not, List, [], ◌∷◌, arith, inl, inr, leb,
  length, length-append, Option-cases, Bool-cases, List-cases, if_both, refl, Text, min, ◌/◌, u8,
  u16, u32,
}
use cardputer_codex_deck.Pairing.Token.{audio_status}
use cardputer_codex_deck.Audio.State.{
  ring_frames, read_failure_restart_count, invalid_frame_restart_count, send_failure_restart_count,
  AudioFrame, AudioTransmitter, Capture, CapturePhase, capture_head, reading, has_frame, enqueues,
  Sender, SenderPhase, sender_head, receiving, has_next, sending, CaptureEnv, SenderEnv,
  streaming_allowed, set_active, set_muted, request_pipeline_restart,
}
use cardputer_codex_deck.Audio.Capture.{
  stereo_bytes, read_stereo, is_filled, peak_of, constant_frame, enqueue, take_frame, read_frame,
  check_frame, start_capture, capture_at, capture_step,
}
use cardputer_codex_deck.Audio.Sender.{
  send_frame, watch_acks, count_send, open_endpoint, start_sender, receive_frame, check_endpoint,
  finish_send, sender_at, sender_step,
}
use cardputer_codex_deck.Audio.Events.{
  System, AudioEvent, captures, sends, sets_active, sets_muted, audio_step, audio_run,
}

-- The ring holds at most 8 frames, the restart counters stay below their limits, and the level
-- is a byte.
pub record IsValid (s : System) : Type 0 where
  pub ring : length s.shared.queue ≤ ring_frames
  pub level : s.shared.level ≤ 255
  pub reads : s.capture.read_failures < read_failure_restart_count
  pub frames : s.capture.invalid_frames < invalid_frame_restart_count
  pub sends : s.sender.send_failures < send_failure_restart_count

length-enqueue :
    (frame : AudioFrame) (t : AudioTransmitter)
    → length t.queue ≤ ring_frames
    → length (enqueue frame t).queue ≤ ring_frames
unfolding enqueue
length-enqueue frame t h = elim (List-cases t.queue) [
  | inl empty ↦ simp empty (omega arith)
  | inr (old, rest, some_frame) ↦
      let grown = length-append t.queue (frame ∷ []) in
      let turned = length-append rest (frame ∷ []) in ground (arith, grown, turned)
]

enqueue-level : (frame : AudioFrame) (t : AudioTransmitter) → (enqueue frame t).level ≡ t.level
unfolding enqueue
enqueue-level frame t = ground arith

-- What a capture step keeps.
record CaptureValid (c : Capture) (t : AudioTransmitter) : Type 0 where
  ring : length t.queue ≤ ring_frames
  level : t.level ≤ 255
  reads : c.read_failures < read_failure_restart_count
  frames : c.invalid_frames < invalid_frame_restart_count

abbrev Captured : Capture × AudioTransmitter → Type 0
Captured r = CaptureValid r.0 r.1

module _ (env : CaptureEnv) (c : Capture) (t : AudioTransmitter) (v : CaptureValid c t) where
  take_frame-Captured : Captured (take_frame env c t)
  unfolding take_frame
  take_frame-Captured = ground arith

  read_frame-Captured : Captured (read_frame env c t)
  unfolding read_frame
  read_frame-Captured =
      let f : AudioTransmitter = record t { record_fail = u32 (t.record_fail + 1) } in
      let failures = u8 (c.read_failures + 1) in
      if_both Captured (is_filled (read_stereo env.i2s_read stereo_bytes 0)) take_frame-Captured
        (elim (Bool-cases (leb read_failure_restart_count failures)) [
          | inl limit ↦ rw limit (ground arith)
          | inr below ↦ rw below (ground arith)
        ])

  check_frame-Captured : (frame : AudioFrame) → Captured (check_frame env frame c t)
  unfolding check_frame
  check_frame-Captured frame =
      let peak = peak_of frame.samples in
      let m : AudioTransmitter = record t { raw_peak = peak; level = u8 (min 255 (peak / 128)) } in
      let invalid = u16 (c.invalid_frames + 1) in
      let dropped : Captured (record c { phase = capture_head }, t) = ground arith in
      let kept : Captured (record c { phase = enqueues frame; invalid_frames = 0 }, m) =
        ground arith in
      if_both Captured (not (streaming_allowed env.shared t)) dropped (
        if_both Captured (constant_frame frame.samples)
          (elim (Bool-cases (leb invalid_frame_restart_count invalid)) [
            | inl limit ↦ rw limit (ground arith)
            | inr below ↦ rw below (ground arith)
          ])
          kept)

  start_capture-Captured : Captured (start_capture env c t)
  unfolding start_capture
  start_capture-Captured = ground arith

  capture_at-Captured : (p : CapturePhase) → Captured (capture_at p env c t)
  unfolding capture_at
  capture_at-Captured capture_head = start_capture-Captured
  capture_at-Captured reading = read_frame-Captured
  capture_at-Captured (has_frame frame) = check_frame-Captured frame
  capture_at-Captured (enqueues frame) = record {
    ring = length-enqueue frame t v.ring;
    level = rw (enqueue-level frame t) v.level;
    reads = v.reads;
    frames = v.frames;
  }

-- What a sender step keeps of the ring and of the level, and its counter.
record SenderValid (t : AudioTransmitter) (r : Sender × AudioTransmitter) : Type 0 where
  shorter : length r.1.queue ≤ length t.queue
  same_level : r.1.level ≡ t.level
  sends : r.0.send_failures < send_failure_restart_count

module _ (env : SenderEnv) (s : Sender) (t : AudioTransmitter)
    (h : s.send_failures < send_failure_restart_count) where
  watch_acks-SenderValid : SenderValid t (watch_acks env s t)
  unfolding watch_acks request_pipeline_restart audio_status
  watch_acks-SenderValid = ground arith

  count_send-SenderValid : (ok : Bool) → SenderValid t (count_send ok s t)
  unfolding count_send request_pipeline_restart
  count_send-SenderValid true = ground arith
  count_send-SenderValid false = ground arith

module _ (env : SenderEnv) (s : Sender) (t : AudioTransmitter)
    (h : s.send_failures < send_failure_restart_count) where
  start_sender-SenderValid : SenderValid t (start_sender env s t)
  unfolding start_sender
  start_sender-SenderValid = elim (Option-cases (open_endpoint env t)) [
    | inl off ↦ rw (off, start_sender) (ground arith)
    | inr (endpoint, on) ↦ rw (on, start_sender) (ground arith)
  ]

  receive_frame-SenderValid : SenderValid t (receive_frame s t)
  unfolding receive_frame
  receive_frame-SenderValid = elim (List-cases t.queue) [
    | inl empty ↦ rw (empty, receive_frame) (ground arith)
    | inr (frame, rest, e) ↦
        let longer : length t.queue ≡ suc (length rest) = ap length e in
        let d : AudioTransmitter = record t { queue = rest } in
        let got : SenderValid t (record s { phase = has_next frame }, d) = record {
          shorter = omega (arith, longer);
          same_level = refl;
          sends = h;
        } in
        simp (e, receive_frame) got
  ]

  check_endpoint-SenderValid :
      (frame : AudioFrame) → SenderValid t (check_endpoint env frame s t, t)
  unfolding check_endpoint
  check_endpoint-SenderValid frame = elim (Option-cases (open_endpoint env t)) [
    | inl off ↦ rw (off, check_endpoint) (ground arith)
    | inr (endpoint, on) ↦ rw (on, check_endpoint) (ground arith)
  ]

  finish_send-SenderValid :
      (frame : AudioFrame) (token : Text) → SenderValid t (finish_send env frame token s t)
  unfolding finish_send
  finish_send-SenderValid frame token =
      let ok = send_frame env frame token in
      let head : Sender = record s { phase = sender_head } in
      let r = count_send ok head t in
      let counted = count_send-SenderValid env head t h ok in
      let watched = watch_acks-SenderValid env r.0 r.1 counted.sends in
      record {
        shorter = omega (arith, watched.shorter, counted.shorter);
        same_level = watched.same_level ∙ counted.same_level;
        sends = watched.sends;
      }

  sender_at-SenderValid : (p : SenderPhase) → SenderValid t (sender_at p env s t)
  unfolding sender_at
  sender_at-SenderValid sender_head = start_sender-SenderValid
  sender_at-SenderValid receiving = receive_frame-SenderValid
  sender_at-SenderValid (has_next frame) = check_endpoint-SenderValid frame
  sender_at-SenderValid (sending frame token) = finish_send-SenderValid frame token

-- Every step and every call of the main loop keeps the bounds, in whatever order they come.
pub audio_step-IsValid : (s : System) (e : AudioEvent) → IsValid s → IsValid (audio_step s e)
unfolding audio_step set_active set_muted capture_step sender_step
audio_step-IsValid s (captures env) v =
    let start : CaptureValid s.capture s.shared = ground arith in
    let r = capture_at-Captured env s.capture s.shared start s.capture.phase in ground arith
audio_step-IsValid s (sends env) v =
    let r = sender_at-SenderValid env s.sender s.shared v.sends s.sender.phase in
    record {
      ring = omega (arith, r.shorter, v.ring);
      level = rw r.same_level v.level;
      reads = v.reads;
      frames = v.frames;
      sends = r.sends;
    }
audio_step-IsValid s (sets_active active) v = ground arith
audio_step-IsValid s (sets_muted muted) v = ground arith

-- In every history of steps of the two audio tasks and calls of the main loop, from any valid
-- state, the ring holds at most 8 frames, the level is a byte, and the failure counters stay below
-- their restart limits.
pub audio_run-IsValid : (es : List AudioEvent) (s : System) → IsValid s → IsValid (audio_run s es)
unfolding audio_run
audio_run-IsValid [] s v = v
audio_run-IsValid (e ∷ es) s v = audio_run-IsValid es (audio_step s e) (audio_step-IsValid s e v)
