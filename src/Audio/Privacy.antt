-- ===== src/Audio/Privacy.antt =====
-- The audio path of a device that is muted at any point of the two tasks (Audio/Events).
pub mod Counts
pub mod Capturing
pub mod Sends
use cardputer_codex_deck.Base.{
  ℕ, ◌+◌, ◌≡◌, ap, ◌⊎◌, Bool, true, false, [], Text, List-cases, u32, none,
}
use cardputer_codex_deck.Audio.State.{
  AudioTransmitter, AudioFrame, Capture, CapturePhase, capture_head, reading, has_frame, enqueues,
  Sender, SenderPhase, sender_head, receiving, has_next, sending, CaptureEnv, SenderEnv,
  streaming_allowed, request_pipeline_restart,
}
use cardputer_codex_deck.Audio.Capture.{
  enqueue, take_frame, read_frame, check_frame, start_capture, capture_at,
}
use cardputer_codex_deck.Audio.Sender.{
  watch_acks, count_send, open_endpoint, start_sender, receive_frame, check_endpoint, finish_send,
  sender_at, send_frame,
}
use cardputer_codex_deck.Audio.Events.{System}
use cardputer_codex_deck.Audio.Privacy.Counts.{
  is_reading, is_enqueuing, is_sending, AtMostLast, Moves, NoneAdded,
}
use cardputer_codex_deck.Audio.Privacy.Capturing.{CaptureHushed}
use cardputer_codex_deck.Audio.Privacy.Sends.{SenderHushed}

-- What a step of a muted device keeps, and how its counts move.
record Hushed (s u : System) : Type 0 where
  muted : u.shared.muted ≡ true
  captured :
      Moves
        (is_reading s.capture.phase)
        s.shared.captured
        (is_reading u.capture.phase)
        u.shared.captured
  sent : Moves (is_sending s.sender.phase) s.shared.sent (is_sending u.sender.phase) u.shared.sent
  checked : is_enqueuing s.capture.phase ≡ false → is_enqueuing u.capture.phase ≡ false
  ring : is_enqueuing s.capture.phase ≡ false → s.shared.queue ≡ [] → u.shared.queue ≡ []

-- What is left to happen once a device is muted.
pub record LastOnes (s u : System) : Type 0 where
  pub captured : AtMostLast (is_reading s.capture.phase) s.shared.captured u.shared.captured
  pub sent : AtMostLast (is_sending s.sender.phase) s.shared.sent u.shared.sent
  pub ring : (is_enqueuing s.capture.phase ≡ true) ⊎ (u.shared.queue ≡ [])
