-- ===== src/Device/Invariant.antt =====
-- The invariant of the whole device; the children are about the console, the parts and the main loop.
pub mod Console
pub mod Parts
pub mod Loop
use cardputer_codex_deck.Base.{ℕ, ◌≤◌, ◌<◌, ◌≡◌, Option, some, List, length}
use cardputer_codex_deck.Models.{PairedMac}
use cardputer_codex_deck.Keys.Bounds as Keys
use cardputer_codex_deck.Audio.State.{
  Capture, Sender, read_failure_restart_count, invalid_frame_restart_count,
  send_failure_restart_count,
}
use cardputer_codex_deck.Ui.Invariant as Ui
use cardputer_codex_deck.Device.State.{Device}

-- The counters of the audio tasks.
pub record Counters (c : Capture) (l : Sender) : Type 0 where
  pub reads : c.read_failures < read_failure_restart_count
  pub frames : c.invalid_frames < invalid_frame_restart_count
  pub sends : l.send_failures < send_failure_restart_count

pub record IsValid (loaded : List PairedMac) (v : Device) : Type 0 where
  pub deck_valid : Ui.IsValid loaded v.deck
  pub keys_valid : Keys.IsValid v.keys
  pub buffer_bound : length v.buffer ≤ 200
  pub counters : Counters v.capture v.sender

-- No entry past an array's used ones was used, and the invariant holds.
abbrev pub Runs : List PairedMac → Option Device → Type 0
Runs loaded o = (w : Device) × (o ≡ some w) × IsValid loaded w
