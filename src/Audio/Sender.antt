-- ===== src/Audio/Sender.antt =====
-- firmware/m5stack-cardputer-adv/src/audio_tx.cpp, `senderLoop` and `sendFrame`: the steps of the
-- sender task, between which the other task and the main loop may run, and the packet that it sends.
use cardputer_codex_deck.Base.{
  ℕ, ◌+◌, ◌-◌, ◌/◌, Bool, true, false, ◌&&◌, ◌||◌, not, Option, none, some, List, [], ◌∷◌, ◌++◌,
  Text, ◌==◌, ltb, leb, if◌then◌else◌, take, u8, u32, sub32, ℤ, pos, negsuc,
}
use cardputer_codex_deck.Pairing.Token.{audio_endpoint, audio_status}
use cardputer_codex_deck.Audio.State.{
  send_failure_restart_count, ack_stall_ms, ack_fresh_ms, ack_min_sent_frames, AudioFrame,
  AudioTransmitter, Sender, SenderPhase, sender_head, receiving, has_next, sending, SenderEnv,
  request_pipeline_restart,
}

-- `htonl`: the most significant byte first.
abbrev pub htonl : ℕ → Text
htonl n = u8 (n / 16777216) ∷ u8 (n / 65536) ∷ u8 (n / 256) ∷ u8 n ∷ []

-- An `int16_t` in memory, the least significant byte first.
abbrev pub int16_bytes : ℤ → Text
int16_bytes (pos n) = u8 n ∷ u8 (n / 256) ∷ []
int16_bytes (negsuc n) = (255 - u8 n) ∷ (255 - u8 (n / 256)) ∷ []

abbrev pub payload : List ℤ → Text
payload [] = []
payload (s ∷ samples) = int16_bytes s ++ payload samples

-- What the HMAC is taken of: the first eight bytes of the header and the samples.
abbrev pub signed_part : AudioFrame → Text
signed_part frame = htonl frame.sequence ++ htonl frame.timestamp_ms ++ payload frame.samples

-- The datagram, with the first eight bytes of the digest.
unfoldable pub packet : (Text → Text → Option Text) → Text → AudioFrame → Option Text
packet hmac token frame = elim (hmac token (signed_part frame)) [
  | none ↦ none
  | some digest ↦
      some
        (htonl frame.sequence ++ htonl frame.timestamp_ms ++ take 8 digest ++ payload frame.samples)
]

unfoldable pub send_frame : SenderEnv → AudioFrame → Text → Bool
send_frame env frame token = elim (packet env.hmac token frame) [
  | none ↦ false
  | some bytes ↦ env.begin_packet && env.end_packet
]

-- The watchdog on the Mac's acknowledgements.
unfoldable pub watch_acks : SenderEnv → Sender → AudioTransmitter → Sender × AudioTransmitter
watch_acks env s t =
    let (seen, received, updated_ms, output_ready) = audio_status env.shared in
    if not seen || ltb ack_fresh_ms (sub32 env.now updated_ms)
    then (s, t)
    else if not s.ack_initialized || not (received == s.last_ack_received)
    then (
      record s {
        ack_initialized = true;
        last_ack_received = received;
        last_ack_progress_ms = env.now;
        sent_at_ack_progress = t.sent;
      },
      t,
    )
    else if output_ready
        && leb ack_stall_ms (sub32 env.now s.last_ack_progress_ms)
        && leb ack_min_sent_frames (sub32 t.sent s.sent_at_ack_progress)
    then (
      record s { udp_ready = false; last_ack_progress_ms = env.now; sent_at_ack_progress = t.sent },
      request_pipeline_restart (record t {
        udp_restart = u32 (t.udp_restart + 1);
        watchdog_restart = u32 (t.watchdog_restart + 1);
      }),
    )
    else (s, t)

-- What follows a frame from the ring that is sent.
unfoldable pub count_send : Bool → Sender → AudioTransmitter → Sender × AudioTransmitter
count_send true s t = (record s { send_failures = 0 }, record t { sent = u32 (t.sent + 1) })
count_send false s t =
    let failures = u8 (s.send_failures + 1) in
    let f : AudioTransmitter = record t {
      dropped_frames = u32 (t.dropped_frames + 1);
      send_fail = u32 (t.send_fail + 1);
    } in
    if leb send_failure_restart_count failures
    then (
      record s { udp_ready = false; send_failures = 0 },
      request_pipeline_restart (record f { udp_restart = u32 (f.udp_restart + 1) }),
    )
    else (record s { send_failures = failures }, f)

-- The guard of the loop's head and of the second look: the endpoint, when frames may be sent.
unfoldable pub open_endpoint : SenderEnv → AudioTransmitter → Option (ℕ × Text)
open_endpoint env t = if t.active && not t.muted then audio_endpoint env.shared else none

-- The head of the loop, with the socket.
unfoldable pub start_sender : SenderEnv → Sender → AudioTransmitter → Sender × AudioTransmitter
start_sender env s t = elim (open_endpoint env t) [
  | none ↦ (record s { udp_ready = false; ack_initialized = false }, t)
  | some endpoint ↦
      if s.udp_ready
      then (record s { phase = receiving }, t)
      else if env.udp_begins
      then (record s { phase = receiving; udp_ready = true; send_failures = 0 }, t)
      else (s, record t { send_fail = u32 (t.send_fail + 1) })
]

-- `xQueueReceive`.
unfoldable pub receive_frame : Sender → AudioTransmitter → Sender × AudioTransmitter
receive_frame s t = elim t.queue [
  | [] ↦ (record s { phase = sender_head }, t)
  | frame ∷ rest ↦ (record s { phase = has_next frame }, record t { queue = rest })
]

-- The second look at the switches.
unfoldable pub check_endpoint : SenderEnv → AudioFrame → Sender → AudioTransmitter → Sender
check_endpoint env frame s t = elim (open_endpoint env t) [
  | none ↦ record s { phase = sender_head }
  | some endpoint ↦ record s { phase = sending frame endpoint.1 }
]

-- `sendFrame`, and what follows it.
unfoldable pub finish_send :
    SenderEnv → AudioFrame → Text → Sender → AudioTransmitter → Sender × AudioTransmitter
finish_send env frame token s t =
    let (s', t') = count_send (send_frame env frame token) (record s { phase = sender_head }) t in
    watch_acks env s' t'

unfoldable pub sender_at :
    SenderPhase → SenderEnv → Sender → AudioTransmitter → Sender × AudioTransmitter
sender_at sender_head env s t = start_sender env s t
sender_at receiving env s t = receive_frame s t
sender_at (has_next frame) env s t = (check_endpoint env frame s t, t)
sender_at (sending frame token) env s t = finish_send env frame token s t

unfoldable pub sender_step : SenderEnv → Sender → AudioTransmitter → Sender × AudioTransmitter
sender_step env s t = sender_at s.phase env s t
