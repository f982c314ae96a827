-- ===== src/Ui/Invariant.antt =====
-- The invariant of the controller and the managers it drives; the children are about its operations.
pub mod Screen
pub mod Pages
pub mod Lists
pub mod Forms
pub mod Asking
pub mod Routing
pub mod Controller
use cardputer_codex_deck.Base.{
  arith, ℕ, ◌+◌, ◌≤◌, ◌<◌, ◌≡◌, refl, Bool, true, false, Option, none, some, List, [], ◌∷◌, length,
}
use cardputer_codex_deck.Models.{PairedMac, max_agent_sessions}
use cardputer_codex_deck.Pairing.Invariant as Pairing
use cardputer_codex_deck.Wifi.Invariant as Wifi
use cardputer_codex_deck.Audio.State.{ring_frames}
use cardputer_codex_deck.Ui.State.{is_remote, is_pair_code, DeviceUi, Deck}

-- A level in percent, or none.
abbrev pub Percent : Option ℕ → Type 0
Percent none = Unit {0}
Percent (some n) = n ≤ 100

-- What a keypress never changes: whether the mode is Remote, and whether the controller owns the
-- keyboard.
pub record Face : Type 0 where
  pub remote : Bool
  pub owns : Bool

abbrev pub at_mode : Bool → Face → Face
at_mode remote face = record face { remote = remote }

abbrev pub owning : Bool → Face → Face
owning owns face = record face { owns = owns }

abbrev pub face_of : DeviceUi → Face
face_of u = record { remote = is_remote u.mode; owns = u.consumes_keyboard }

-- The controller's own part, with `active` of the microphone.
pub record UiValid (face : Face) (active : Bool) (u : DeviceUi) : Type 0 where
  pub mode_is : is_remote u.mode ≡ face.remote
  pub owns_is : u.consumes_keyboard ≡ face.owns
  pub microphone : active ≡ face.remote
  pub main_bound : u.main_selection ≤ 4
  pub home_bound : u.home_setting_selection ≤ 3
  pub home_agrees : 0 < u.main_selection → u.home_setting_selection + 1 ≡ u.main_selection
  pub agent_bound : u.agent_selection < max_agent_sessions
  pub entry_bound : length u.text_entry ≤ 63
  pub code_bound : is_pair_code u.page ≡ true → length u.text_entry ≤ 6
  pub dark : u.screen_off ≡ true → u.screen_dimmed ≡ false
  pub level : Percent u.battery_level

-- Everything is valid, in a given mode.
pub record InMode (loaded : List PairedMac) (face : Face) (d : Deck) : Type 0 where
  pub wifi_valid : Wifi.IsValid d.wifi
  pub pairing_valid : Pairing.IsValid loaded d.pairing
  pub ui_valid : UiValid face d.audio.active d.ui
  pub ring_bound : length d.audio.queue ≤ ring_frames
  pub level_bound : d.audio.level ≤ 255

-- The call used no entry past an array's used ones, and left everything valid, in a mode.
abbrev pub KeepsIn : List PairedMac → Face → Option Deck → Type 0
KeepsIn loaded face o = (e : Deck) × (o ≡ some e) × InMode loaded face e

abbrev pub IsValid : List PairedMac → Deck → Type 0
IsValid loaded d = InMode loaded (face_of d.ui) d

abbrev pub Keeps : List PairedMac → Option Deck → Type 0
Keeps loaded o = (e : Deck) × (o ≡ some e) × IsValid loaded e

pub InMode-IsValid :
    {loaded : List PairedMac} {face : Face} {d : Deck} → InMode loaded face d → IsValid loaded d
InMode-IsValid v = ground arith

pub KeepsIn-Keeps :
    {loaded : List PairedMac} {face : Face} {o : Option Deck}
    → KeepsIn loaded face o
    → Keeps loaded o
KeepsIn-Keeps (e, result, v) = (e, result, InMode-IsValid v)
