-- ===== src/Pairing/Events.antt =====
-- What can happen to the pairing manager: a pass of the main loop, the end of the connect worker,
-- the peer, the user's commands through the UI and the console, and the UI's edits of the shared
-- settings. A history is a list of events.
use cardputer_codex_deck.Base.{ℕ, Bool, false, none, some, List, [], ◌∷◌, ◌++◌, Text, if◌then◌else◌}
use cardputer_codex_deck.Models.{DeviceSettings}
use cardputer_codex_deck.Pairing.State.{PairingManager, Env, Client}
use cardputer_codex_deck.Pairing.Send.{submit_pair_code, send_key, send_agent_ack}
use cardputer_codex_deck.Pairing.Link.{connect_task_entry, disconnect}
use cardputer_codex_deck.Pairing.Discovery.{request_discovery}
use cardputer_codex_deck.Pairing.Snapshot.{Json}
use cardputer_codex_deck.Pairing.Manager.{
  tick, connect_to_discovered, connect_to_paired, delete_pairing,
}

pub data Event : Type 0 where
  ticks : Env → Event
  worker_ends : Bool → Event
  arrives : Text → Event
  peer_closes : Event
  asks_discovery : Env → Event
  connects_discovered connects_paired : ℕ → Event
  disconnects : Bool → Event
  deletes : Bool → ℕ → Event
  submits_code : Env → Text → Event
  sends_key : Env → Text → Text → Bool → Bool → Bool → Bool → Event
  acks : Env → Text → Event
  edits_settings : DeviceSettings → Event

-- Bytes reach an open socket only.
abbrev pub receive : Text → Client → Client
receive bytes c = if c.connected then record c { rx = c.rx ++ bytes } else c

abbrev pub edit_settings : DeviceSettings → PairingManager → PairingManager
edit_settings s m = elim m.settings [ none ↦ m | some _ ↦ record m { settings = some s } ]

module _ (json : Json) where
  unfoldable pub step : PairingManager → Event → PairingManager
  step m (ticks env) = tick json env m
  step m (worker_ends connects) = connect_task_entry connects m
  step m (arrives bytes) = record m { client = receive bytes m.client }
  step m peer_closes = let c = m.client in record m { client = record c { connected = false } }
  step m (asks_discovery env) = request_discovery env m
  step m (connects_discovered i) = (connect_to_discovered i m).0
  step m (connects_paired i) = (connect_to_paired i m).0
  step m (disconnects manual) = disconnect manual m
  step m (deletes saved i) = (delete_pairing saved i m).0
  step m (submits_code env code) = (submit_pair_code env code m).0
  step m (sends_key env key action cmd shift option control) =
      (send_key env key action cmd shift option control m).0
  step m (acks env id) = (send_agent_ack env id m).0
  step m (edits_settings s) = edit_settings s m

  unfoldable pub run : PairingManager → List Event → PairingManager
  run m [] = m
  run m (e ∷ es) = run (step m e) es
