-- ===== src/Pairing/State.antt =====
-- firmware/m5stack-cardputer-adv/src/pairing.h: the state of `PairingManager`, and what its
-- surroundings answer during one call: the clock, the WiFi manager, mDNS, the TCP socket, the
-- heap, the task scheduler and the JSON serialiser.
use cardputer_codex_deck.Base.{
  ℕ, Bool, true, false, Option, none, List, [], Text, ltb, sub32, replicate, text_eq, find_index?,
}
use cardputer_codex_deck.Models.{
  PairedMac, DiscoveredMac, DeviceSettings, LinkState, AgentSession, AgentQuota, AgentQuotaMode,
  control_port, reconnect_min_ms,
}

-- A JSON document that the firmware builds: the members of an object, in order.
mutual
  pub data Value : Type 0 where
    null : Value
    str : Text → Value
    num : ℕ → Value
    arr : List Text → Value
    obj : Members → Value

  pub data Members : Type 0 where
    end : Members
    member : Text → Value → Members → Members

-- `StaticJsonDocument<capacity>`.
pub record Document : Type 0 where
  pub capacity : ℕ
  pub members : Members

-- The socket: `rx` is what has arrived and is unread, `sent` the documents written whole, newest
-- first, `writes` the number of calls of `write`.
pub record Client : Type 0 where
  pub connected : Bool
  pub rx : Text
  pub sent : List Document
  pub writes : ℕ

pub record ConnectResult : Type 0 where
  pub generation : ℕ
  pub connected : Bool

-- `ConnectTaskContext` of the worker that runs `connectTaskEntry`.
pub record ConnectTaskContext : Type 0 where
  pub ip : ℕ
  pub port : ℕ
  pub generation : ℕ

pub record Bridge : Type 0 where
  pub version : Text
  pub build : ℕ
  pub protocol_major : ℕ
  pub protocol_minor : ℕ

pub record Agents : Type 0 where
  pub sessions : List AgentSession
  pub focus_id : Text
  pub focus_seq : ℕ
  pub quota : AgentQuota
  pub seq : ℕ
  pub online : Bool

-- What `audioMux_` guards.
pub record AudioShared : Type 0 where
  pub ready : Bool
  pub ip : ℕ
  pub token : Text
  pub status_seen : Bool
  pub output_ready : Bool
  pub received : ℕ
  pub status_ms : ℕ

-- A call of the settings store.
pub data StoreCall : Type 0 where
  save_paired_macs : List PairedMac → StoreCall
  save_settings : DeviceSettings → StoreCall

-- `mdns_result_t`: TXT pairs with null pointers as `none`, and the address list with `some` for
-- an IPv4 address.
pub record MdnsResult : Type 0 where
  pub hostname : Option Text
  pub txt : List (Option Text × Option Text)
  pub addr : List (Option ℕ)
  pub port : ℕ

-- `paired_`, `discovered_` are the lists of their first `pairedCount_`, `discoveredCount_`
-- entries; `settings_` is `none` for the null pointer; `store` lists the calls of `store_`,
-- newest first; `task` is the running connect worker.
pub record PairingManager : Type 0 where
  pub settings : Option DeviceSettings
  pub store : List StoreCall
  pub paired : List PairedMac
  pub discovered : List DiscoveredMac
  pub client : Client
  pub device_id : Text
  pub incoming : Text
  pub target_id : Text
  pub target_name : Text
  pub target_token : Text
  pub target_ip : ℕ
  pub target_port : ℕ
  pub connected_name : Text
  pub bridge : Bridge
  pub compatibility_reason : Text
  pub required_firmware : Text
  pub agents : Agents
  pub state : LinkState
  pub mdns_started : Bool
  pub discovery_search : Bool
  pub discovery_requested : Bool
  pub discovery_for_reconnect : Bool
  pub rediscovery_required : Bool
  pub manual_disconnect : Bool
  pub connect_result_queue : Bool
  pub connect_result : Option ConnectResult
  pub task : Option ConnectTaskContext
  pub connect_in_flight : Bool
  pub cancel_connect : Bool
  pub connect_generation : ℕ
  pub missed_pongs : ℕ
  pub last_heartbeat_ms : ℕ
  pub next_connect_ms : ℕ
  pub reconnect_delay_ms : ℕ
  pub audio : AudioShared

-- What a call finds around it. `write n line` is what the n-th `write` of the socket returns.
pub record Env : Type 0 where
  pub now : ℕ
  pub wifi_connected : Bool
  pub mdns_begin : Bool
  pub query_started : Bool
  pub query_results : Option (List MdnsResult)
  pub context_allocated : Bool
  pub task_started : Bool
  pub overflowed : Document → Bool
  pub serialize : Members → Text
  pub write : ℕ → Text → ℕ

abbrev pub is_connected : LinkState → Bool
is_connected LinkState.connected = true
is_connected _ = false

-- `static_cast<int32_t>(millis() - deadline) >= 0`.
abbrev pub deadline_reached : ℕ → ℕ → Bool
deadline_reached now deadline = ltb (sub32 now deadline) 2147483648

unfoldable pub paired_index_by_id : List PairedMac → Text → Option ℕ
paired_index_by_id paired id = find_index? (λ (m : PairedMac). text_eq m.id id) paired

unfoldable pub discovered_index_by_id : List DiscoveredMac → Text → Option ℕ
discovered_index_by_id discovered id =
    find_index? (λ (m : DiscoveredMac). text_eq m.id id) discovered

-- `client_.stop()`.
abbrev pub stop : Client → Client
stop c = record c { connected = false; rx = [] }

-- The members' initial values in pairing.h, with the settings pointer null.
abbrev pub initial : PairingManager
initial = record {
  settings = none;
  store = [];
  paired = [];
  discovered = [];
  client = record { connected = false; rx = []; sent = []; writes = 0 };
  device_id = [];
  incoming = [];
  target_id = [];
  target_name = [];
  target_token = [];
  target_ip = 0;
  target_port = control_port;
  connected_name = [];
  bridge = record { version = []; build = 0; protocol_major = 0; protocol_minor = 0 };
  compatibility_reason = [];
  required_firmware = [];
  agents = record {
    sessions = [];
    focus_id = [];
    focus_seq = 0;
    quota = record {
      mode = AgentQuotaMode.unknown;
      weekly_remaining = none;
      five_hour_remaining = none;
    };
    seq = 0;
    online = false;
  };
  state = LinkState.offline;
  mdns_started = false;
  discovery_search = false;
  discovery_requested = false;
  discovery_for_reconnect = false;
  rediscovery_required = true;
  manual_disconnect = false;
  connect_result_queue = false;
  connect_result = none;
  task = none;
  connect_in_flight = false;
  cancel_connect = false;
  connect_generation = 0;
  missed_pongs = 0;
  last_heartbeat_ms = 0;
  next_connect_ms = 0;
  reconnect_delay_ms = reconnect_min_ms;
  audio = record {
    ready = false;
    ip = 0;
    token = replicate 32 0;
    status_seen = false;
    output_ready = false;
    received = 0;
    status_ms = 0;
  };
}
