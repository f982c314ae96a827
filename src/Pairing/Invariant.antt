-- ===== src/Pairing/Invariant.antt =====
-- The invariant of `PairingManager`; the children are about the operations under it.
pub mod Link
pub mod Ids
pub mod Discovery
pub mod Receive
pub mod Manager
use cardputer_codex_deck.Base.{
  ℕ, ◌≤◌, ◌<◌, ◌≡◌, Bool, true, false, Option, none, some, List, [], ◌∷◌, Text, length,
}
use cardputer_codex_deck.Models.{
  PairedMac, max_paired_macs, max_discovered_macs, max_agent_sessions, reconnect_min_ms,
  reconnect_max_ms, heartbeat_miss_limit,
}
use cardputer_codex_deck.Pairing.State.{
  PairingManager, ConnectResult, ConnectTaskContext, StoreCall, save_paired_macs, save_settings,
  paired_index_by_id,
}

-- No two entries have one id.
abbrev pub Distinct : List PairedMac → Type 0
Distinct [] = Unit {0}
Distinct (mac ∷ list) = (paired_index_by_id list mac.id ≡ none) × Distinct list

-- An attempt is a running worker or a posted result, of the current generation; without an attempt
-- there is neither. The socket is closed while the worker runs, and open afterwards only if the
-- result says so.
abbrev pub Worker : Bool → Option ConnectTaskContext → Option ConnectResult → ℕ → Bool → Type 0
Worker false none none generation open_socket = Unit {0}
Worker true (some context) none generation open_socket =
    (context.generation ≡ generation) × (open_socket ≡ false)
Worker true none (some result) generation open_socket =
    (result.generation ≡ generation) × (result.connected ≡ false → open_socket ≡ false)
Worker _ _ _ generation open_socket = ⊥

-- The list of the last `savePairedMacs`, newest call first, from what was loaded.
abbrev pub last_saved : List PairedMac → List StoreCall → List PairedMac
last_saved loaded [] = loaded
last_saved loaded (save_paired_macs macs ∷ calls) = macs
last_saved loaded (save_settings s ∷ calls) = last_saved loaded calls

pub record IsValid (loaded : List PairedMac) (m : PairingManager) : Type 0 where
  pub paired_bound : length m.paired ≤ max_paired_macs
  pub paired_distinct : Distinct m.paired
  pub paired_saved : m.paired ≡ last_saved loaded m.store
  pub discovered_bound : length m.discovered ≤ max_discovered_macs
  pub sessions_bound : length m.agents.sessions ≤ max_agent_sessions
  pub incoming_bound : length m.incoming ≤ 4096
  pub delay_min : reconnect_min_ms ≤ m.reconnect_delay_ms
  pub delay_max : m.reconnect_delay_ms ≤ reconnect_max_ms
  pub pongs_bound : m.missed_pongs ≤ heartbeat_miss_limit
  pub pongs_live :
      m.client.connected ≡ true
      → m.connect_in_flight ≡ false
      → m.missed_pongs < heartbeat_miss_limit
  pub worker :
      Worker m.connect_in_flight m.task m.connect_result m.connect_generation m.client.connected
  pub queue_made : m.connect_in_flight ≡ true → m.connect_result_queue ≡ true
