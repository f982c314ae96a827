-- ===== src/Audio/Privacy/Capturing.antt =====
-- A step of the capture task on a muted device (Audio/Capture).
use cardputer_codex_deck.Base.{◌≡◌, refl, ◌⊎◌, true, false, arith, inl, inr}
use cardputer_codex_deck.Audio.State.{
  AudioTransmitter, AudioFrame, Capture, CapturePhase, capture_head, reading, has_frame, enqueues,
  CaptureEnv, streaming_allowed,
}
use cardputer_codex_deck.Audio.Capture.{
  enqueue, take_frame, read_frame, check_frame, start_capture, capture_at,
}
use cardputer_codex_deck.Audio.Privacy.Counts.{is_reading, is_enqueuing, Moves, NoneAdded}

-- A step of the capture task on a muted device, from a phase.
pub record CaptureHushed (p : CapturePhase) (t : AudioTransmitter) (r : Capture × AudioTransmitter)
    : Type 0 where
  pub muted : r.1.muted ≡ true
  pub captured : Moves (is_reading p) t.captured (is_reading r.0.phase) r.1.captured
  pub sent : r.1.sent ≡ t.sent
  pub checked : is_enqueuing r.0.phase ≡ false
  pub ring : (is_enqueuing p ≡ true) ⊎ NoneAdded t.queue r.1.queue

not_allowed :
    (env : CaptureEnv) (t : AudioTransmitter)
    → t.muted ≡ true
    → streaming_allowed env.shared t ≡ false
unfolding streaming_allowed
not_allowed env t h = ground arith

module _ (env : CaptureEnv) (c : Capture) (t : AudioTransmitter) (h : t.muted ≡ true) where
  start_capture-CaptureHushed :
      c.phase ≡ capture_head → CaptureHushed capture_head t (start_capture env c t)
  unfolding start_capture
  start_capture-CaptureHushed e = rw (not_allowed env t h) (ground arith)

  read_frame-CaptureHushed : CaptureHushed reading t (read_frame env c t)
  unfolding read_frame take_frame
  read_frame-CaptureHushed = ground arith

  enqueue-CaptureHushed :
      (frame : AudioFrame)
      → CaptureHushed (enqueues frame) t (record c { phase = capture_head }, enqueue frame t)
  unfolding enqueue
  enqueue-CaptureHushed frame = ground arith

  check_frame-CaptureHushed :
      (frame : AudioFrame) → CaptureHushed (has_frame frame) t (check_frame env frame c t)
  unfolding check_frame
  check_frame-CaptureHushed frame = rw (not_allowed env t h) (record {
    muted = h;
    captured = inl (refl, inl refl);
    sent = refl;
    checked = refl;
    ring = inr (inl refl);
  })

  pub capture_at-CaptureHushed :
      (p : CapturePhase) → c.phase ≡ p → CaptureHushed p t (capture_at p env c t)
  unfolding capture_at
  capture_at-CaptureHushed capture_head e = start_capture-CaptureHushed e
  capture_at-CaptureHushed reading e = read_frame-CaptureHushed
  capture_at-CaptureHushed (has_frame frame) e = check_frame-CaptureHushed frame
  capture_at-CaptureHushed (enqueues frame) e = enqueue-CaptureHushed frame
