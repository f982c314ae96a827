-- ===== src/Audio/Activity.antt =====
-- The audio tasks and the switch of the main loop (Audio/Capture, Audio/Sender).
use cardputer_codex_deck.Base.{
  ◌≡◌, refl, Bool, true, false, arith, inl, inr, Option-cases, List-cases, ◌∙◌,
}
use cardputer_codex_deck.Audio.State.{
  AudioTransmitter, AudioFrame, Capture, CapturePhase, capture_head, reading, has_frame, enqueues,
  Sender, SenderPhase, sender_head, receiving, has_next, sending, CaptureEnv, SenderEnv,
  request_pipeline_restart,
}
use cardputer_codex_deck.Audio.Capture.{
  enqueue, take_frame, read_frame, check_frame, start_capture, capture_at, capture_step,
}
use cardputer_codex_deck.Audio.Sender.{
  watch_acks, count_send, open_endpoint, start_sender, receive_frame, finish_send, sender_at,
  sender_step, send_frame,
}

enqueue-active : (frame : AudioFrame) (t : AudioTransmitter) → (enqueue frame t).active ≡ t.active
unfolding enqueue
enqueue-active frame t = ground arith

module _ (env : CaptureEnv) (c : Capture) (t : AudioTransmitter) where
  read_frame-active : (read_frame env c t).1.active ≡ t.active
  unfolding read_frame take_frame
  read_frame-active = ground arith

  check_frame-active : (frame : AudioFrame) → (check_frame env frame c t).1.active ≡ t.active
  unfolding check_frame
  check_frame-active frame = ground arith

  start_capture-active : (start_capture env c t).1.active ≡ t.active
  unfolding start_capture
  start_capture-active = ground arith

  capture_at-active : (p : CapturePhase) → (capture_at p env c t).1.active ≡ t.active
  unfolding capture_at
  capture_at-active capture_head = start_capture-active
  capture_at-active reading = read_frame-active
  capture_at-active (has_frame frame) = check_frame-active frame
  capture_at-active (enqueues frame) = enqueue-active frame t

  -- A step of the capture task leaves `active_` as it is.
  pub capture_step-active : (capture_step env c t).1.active ≡ t.active
  unfolding capture_step
  capture_step-active = capture_at-active c.phase

module _ (env : SenderEnv) where
  watch_acks-active : (s : Sender) (t : AudioTransmitter) → (watch_acks env s t).1.active ≡ t.active
  unfolding watch_acks request_pipeline_restart
  watch_acks-active s t = ground arith

  count_send-active :
      (b : Bool) (s : Sender) (t : AudioTransmitter) → (count_send b s t).1.active ≡ t.active
  unfolding count_send request_pipeline_restart
  count_send-active true s t = refl
  count_send-active false s t = ground arith

  start_sender-active :
      (s : Sender) (t : AudioTransmitter) → (start_sender env s t).1.active ≡ t.active
  unfolding start_sender
  start_sender-active s t = elim (Option-cases (open_endpoint env t)) [
    | inl off ↦ rw (off, start_sender) refl
    | inr (endpoint, on) ↦ rw (on, start_sender) (ground arith)
  ]

  receive_frame-active :
      (s : Sender) (t : AudioTransmitter) → (receive_frame s t).1.active ≡ t.active
  unfolding receive_frame
  receive_frame-active s t = elim (List-cases t.queue) [
    | inl empty ↦ rw (empty, receive_frame) refl
    | inr (frame, rest, queued) ↦ rw (queued, receive_frame) refl
  ]

  sender_at-active :
      (p : SenderPhase) (s : Sender) (t : AudioTransmitter)
      → (sender_at p env s t).1.active ≡ t.active
  unfolding sender_at finish_send
  sender_at-active sender_head s t = start_sender-active s t
  sender_at-active receiving s t = receive_frame-active s t
  sender_at-active (has_next frame) s t = refl
  sender_at-active (sending frame token) s t =
      let b = send_frame env frame token in
      let head : Sender = record s { phase = sender_head } in
      let (s', t') = count_send b head t in watch_acks-active s' t' ∙ count_send-active b head t

  -- A step of the sender task leaves `active_` as it is.
  pub sender_step-active :
      (s : Sender) (t : AudioTransmitter) → (sender_step env s t).1.active ≡ t.active
  unfolding sender_step
  sender_step-active s t = sender_at-active s.phase s t
