-- ===== src/Audio/Events.antt =====
-- The two audio tasks and the main loop as they take turns: a history is a list of their steps and of
-- calls of `setActive` and `setMuted`.
use cardputer_codex_deck.Base.{Bool, true, false, List, [], ◌∷◌}
use cardputer_codex_deck.Audio.State.{
  AudioTransmitter, Capture, Sender, CaptureEnv, SenderEnv, set_active, set_muted,
}
use cardputer_codex_deck.Audio.Capture.{capture_step}
use cardputer_codex_deck.Audio.Sender.{sender_step}

pub record System : Type 0 where
  pub capture : Capture
  pub sender : Sender
  pub shared : AudioTransmitter

pub data AudioEvent : Type 0 where
  captures : CaptureEnv → AudioEvent
  sends : SenderEnv → AudioEvent
  sets_active : Bool → AudioEvent
  sets_muted : Bool → AudioEvent

unfoldable pub audio_step : System → AudioEvent → System
audio_step s (captures env) =
    let (c, t) = capture_step env s.capture s.shared in record s { capture = c; shared = t }
audio_step s (sends env) =
    let (l, t) = sender_step env s.sender s.shared in record s { sender = l; shared = t }
audio_step s (sets_active active) = record s { shared = set_active active s.shared }
audio_step s (sets_muted muted) = record s { shared = set_muted muted s.shared }

unfoldable pub audio_run : System → List AudioEvent → System
audio_run s [] = s
audio_run s (e ∷ es) = audio_run (audio_step s e) es

-- Nobody takes the mute back.
abbrev pub stays_muted : List AudioEvent → Bool
stays_muted [] = true
stays_muted (sets_muted false ∷ es) = false
stays_muted (_ ∷ es) = stays_muted es
