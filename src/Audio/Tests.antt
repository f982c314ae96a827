-- ===== src/Audio/Tests.antt =====
-- The audio path at concrete inputs.
use cardputer_codex_deck.Base.{
  ◌≡◌, Bool, true, false, some, List, [], ◌∷◌, arith, replicate, pos, negsuc,
}
use cardputer_codex_deck.Pairing.State.{AudioShared}
use cardputer_codex_deck.Audio.State.{
  AudioTransmitter, CaptureEnv, SenderEnv, reading, sending, initial_capture, initial_sender,
}
use cardputer_codex_deck.Audio.Capture.{read_stereo}
use cardputer_codex_deck.Audio.Events.{System, AudioEvent, captures, sends, audio_run}
use cardputer_codex_deck.Audio.Laws.{IsValid, audio_run-IsValid}
use cardputer_codex_deck.Audio.Reading.{read_stereo-ends}

abbrev shared : AudioShared
shared = record {
  ready = true;
  ip = 16820416;
  token = replicate 32 7;
  status_seen = false;
  output_ready = false;
  received = 0;
  status_ms = 0;
}

abbrev tone : CaptureEnv
tone = record {
  shared = shared;
  mic_starts = true;
  i2s_read = λ received. some 1280;
  stereo = pos 5 ∷ pos 5 ∷ negsuc 7 ∷ negsuc 7 ∷ [];
  now = 100;
}

abbrev network : SenderEnv
network = record {
  shared = shared;
  udp_begins = true;
  hmac = λ key message. some (replicate 32 1);
  begin_packet = true;
  end_packet = true;
  now = 120;
}

abbrev idle : AudioTransmitter
idle = record {
  queue = [];
  rx_channel = false;
  active = true;
  muted = false;
  capture_restart_requested = false;
  level = 0;
  raw_peak = 0;
  dropped_frames = 0;
  mic_begin_ok = 0;
  mic_begin_fail = 0;
  captured = 0;
  record_fail = 0;
  mic_restart = 0;
  sent = 0;
  send_fail = 0;
  udp_restart = 0;
  watchdog_restart = 0;
  queue_drop = 0;
}

abbrev fresh : System
fresh = record { capture = initial_capture; sender = initial_sender; shared = idle }

abbrev streaming : List AudioEvent
streaming =
    captures tone
    ∷ captures tone
    ∷ captures tone
    ∷ captures tone
    ∷ sends network
    ∷ sends network
    ∷ sends network
    ∷ sends network
    ∷ captures tone
    ∷ []

fresh-IsValid : IsValid fresh
fresh-IsValid = record {
  ring = omega arith;
  level = omega arith;
  reads = omega arith;
  frames = omega arith;
  sends = omega arith;
}

audio_run-IsValid_example : IsValid (audio_run fresh streaming)
audio_run-IsValid_example = audio_run-IsValid streaming fresh fresh-IsValid

-- Muted while one frame is read and another one is sent.
abbrev silent : System
silent = record {
  capture = record initial_capture { phase = reading };
  sender = record initial_sender {
    phase = sending (record { sequence = 6; timestamp_ms = 90; samples = [] }) (replicate 32 7);
    udp_ready = true;
  };
  shared = record idle { rx_channel = true; muted = true; captured = 4; sent = 3 };
}

read_stereo-ends_example :
    (b : Bool) × (read_stereo (λ received. some 400) 1280 0 ≡ some b)
    × (read_stereo (λ received. some 400) 2000 0 ≡ some b)
read_stereo-ends_example =
    read_stereo-ends (λ received. some 400) 1280 2000 0 (omega arith) (omega arith)
