-- ===== src/Audio/State.antt =====
-- firmware/m5stack-cardputer-adv/src/audio_tx.h: the state of `AudioTransmitter`, which its two
-- tasks share, the local variables of the tasks, and what one step of each finds around it.
use cardputer_codex_deck.Base.{
  ℕ, Bool, true, false, not, if◌then◌else◌, Option, none, some, List, [], Text, ℤ,
}
use cardputer_codex_deck.Pairing.State.{AudioShared}
use cardputer_codex_deck.Pairing.Token.{audio_endpoint}

-- app_config.h.
abbrev pub samples_per_frame : ℕ
samples_per_frame = 320

abbrev pub ring_frames : ℕ
ring_frames = 8

abbrev pub read_failure_restart_count : ℕ
read_failure_restart_count = 3

abbrev pub invalid_frame_restart_count : ℕ
invalid_frame_restart_count = 50

abbrev pub send_failure_restart_count : ℕ
send_failure_restart_count = 3

abbrev pub ack_stall_ms : ℕ
ack_stall_ms = 6000

abbrev pub ack_fresh_ms : ℕ
ack_fresh_ms = 8000

abbrev pub ack_min_sent_frames : ℕ
ack_min_sent_frames = 100

pub record AudioFrame : Type 0 where
  pub sequence : ℕ
  pub timestamp_ms : ℕ
  pub samples : List ℤ

-- `queue` is the ring, oldest frame first; the null pointer of a failed `begin` starts no task.
pub record AudioTransmitter : Type 0 where
  pub queue : List AudioFrame
  pub rx_channel : Bool
  pub active : Bool
  pub muted : Bool
  pub capture_restart_requested : Bool
  pub level : ℕ
  pub raw_peak : ℕ
  pub dropped_frames : ℕ
  pub mic_begin_ok : ℕ
  pub mic_begin_fail : ℕ
  pub captured : ℕ
  pub record_fail : ℕ
  pub mic_restart : ℕ
  pub sent : ℕ
  pub send_fail : ℕ
  pub udp_restart : ℕ
  pub watchdog_restart : ℕ
  pub queue_drop : ℕ

-- Where `captureLoop` is between two steps: at its head, in the loop of `i2s_channel_read`, with a
-- frame before the second `streamingAllowed`, and with one that goes to the ring.
pub data CapturePhase : Type 0 where
  capture_head : CapturePhase
  reading : CapturePhase
  has_frame : AudioFrame → CapturePhase
  enqueues : AudioFrame → CapturePhase

-- The local variables of `captureLoop`.
pub record Capture : Type 0 where
  pub phase : CapturePhase
  pub sequence : ℕ
  pub read_failures : ℕ
  pub invalid_frames : ℕ

-- Where `senderLoop` is between two steps: at its head, in `xQueueReceive`, with a frame before the
-- second look at the switches, and in `sendFrame` with the token.
pub data SenderPhase : Type 0 where
  sender_head : SenderPhase
  receiving : SenderPhase
  has_next : AudioFrame → SenderPhase
  sending : AudioFrame → Text → SenderPhase

-- The local variables of `senderLoop`.
pub record Sender : Type 0 where
  pub phase : SenderPhase
  pub udp_ready : Bool
  pub send_failures : ℕ
  pub ack_initialized : Bool
  pub last_ack_received : ℕ
  pub last_ack_progress_ms : ℕ
  pub sent_at_ack_progress : ℕ

-- One step of the capture task: what `audioMux_` guards, whether `micStart` succeeds, what
-- `i2s_channel_read` returns when so many bytes are there (none for an error), and the samples of
-- both slots.
pub record CaptureEnv : Type 0 where
  pub shared : AudioShared
  pub mic_starts : Bool
  pub i2s_read : ℕ → Option ℕ
  pub stereo : List ℤ
  pub now : ℕ

-- One step of the sender task. `hmac` is the SHA-256 HMAC of mbedtls with a key, none where a step
-- of it fails.
pub record SenderEnv : Type 0 where
  pub shared : AudioShared
  pub udp_begins : Bool
  pub hmac : Text → Text → Option Text
  pub begin_packet : Bool
  pub end_packet : Bool
  pub now : ℕ

-- The members' initial values in audio_tx.h, and those of the variables of the two loops.
abbrev pub initial : AudioTransmitter
initial = record {
  queue = [];
  rx_channel = false;
  active = false;
  muted = false;
  capture_restart_requested = false;
  level = 0;
  raw_peak = 0;
  dropped_frames = 0;
  mic_begin_ok = 0;
  mic_begin_fail = 0;
  captured = 0;
  record_fail = 0;
  mic_restart = 0;
  sent = 0;
  send_fail = 0;
  udp_restart = 0;
  watchdog_restart = 0;
  queue_drop = 0;
}

abbrev pub initial_capture : Capture
initial_capture = record {
  phase = capture_head;
  sequence = 0;
  read_failures = 0;
  invalid_frames = 0;
}

abbrev pub initial_sender : Sender
initial_sender = record {
  phase = sender_head;
  udp_ready = false;
  send_failures = 0;
  ack_initialized = false;
  last_ack_received = 0;
  last_ack_progress_ms = 0;
  sent_at_ack_progress = 0;
}

-- `begin`, whose queue and tasks are there.
unfoldable pub begin : Bool → AudioTransmitter → AudioTransmitter
begin muted t = record t { muted = muted }

unfoldable pub streaming_allowed : AudioShared → AudioTransmitter → Bool
streaming_allowed shared t =
    if not t.active
    then false
    else if t.muted
    then false
    else elim (audio_endpoint shared) [ none ↦ false | some e ↦ true ]

unfoldable pub set_active : Bool → AudioTransmitter → AudioTransmitter
set_active active t =
    if active
    then record t { active = true }
    else record t { active = false; queue = []; capture_restart_requested = false }

unfoldable pub set_muted : Bool → AudioTransmitter → AudioTransmitter
set_muted muted t =
    if muted
    then record t { muted = true; queue = []; capture_restart_requested = false }
    else record t { muted = false }

unfoldable pub request_pipeline_restart : AudioTransmitter → AudioTransmitter
request_pipeline_restart t = record t { capture_restart_requested = true; queue = [] }
