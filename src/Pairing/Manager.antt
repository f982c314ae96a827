-- ===== src/Pairing/Manager.antt =====
-- firmware/m5stack-cardputer-adv/src/pairing.cpp: `begin`, `tick` and the commands of the user.
use cardputer_codex_deck.Base.{
  ℕ, ◌+◌, Bool, true, false, ◌&&◌, not, Option, none, some, List, [], ◌∷◌, ◌++◌, Text, text,
  text_eq, is_empty, ◌==◌, ltb, leb, if◌then◌else◌, length, get_elem?, remove_at, to_lower, filter,
  map, u8, sub32,
}
use cardputer_codex_deck.Models.{
  PairedMac, DeviceSettings, LinkState, heartbeat_ms, heartbeat_miss_limit, reconnect_min_ms,
}
use cardputer_codex_deck.Pairing.State.{
  PairingManager, Env, save_paired_macs, is_connected, deadline_reached, discovered_index_by_id,
}
use cardputer_codex_deck.Pairing.Token.{set_audio_ready}
use cardputer_codex_deck.Pairing.Send.{send_document, ping_document}
use cardputer_codex_deck.Pairing.Link.{
  cancel_connection_attempt, connection_lost, disconnect, token_of, attempt_connection,
  poll_connection_attempt,
}
use cardputer_codex_deck.Pairing.Discovery.{is_none, start_discovery, aim, poll_discovery}
use cardputer_codex_deck.Pairing.Snapshot.{Json}
use cardputer_codex_deck.Pairing.Receive.{read_incoming}

-- `mac.replace(":", ""); mac.toLowerCase()`.
unfoldable pub device_id_of : Text → Text
device_id_of mac = map to_lower (filter (λ c. not (c == b':')) mac)

-- `begin`: what the store holds, the WiFi MAC address and whether the queue could be created.
unfoldable pub begin :
    Option DeviceSettings → List PairedMac → Text → Bool → PairingManager → PairingManager
begin settings stored mac queue m =
    let b : PairingManager = record m {
      settings = settings;
      paired = stored;
      device_id = device_id_of mac;
      connect_result_queue = queue;
    } in
    elim settings [
      | none ↦ b
      | some s ↦ if is_empty s.last_mac_id then b else record b { target_id = s.last_mac_id }
    ]

-- The branch of `tick` without WiFi.
unfoldable pub wifi_down : PairingManager → PairingManager
wifi_down m =
    let c = cancel_connection_attempt m in
    let d =
      set_audio_ready false
        (record c { state = LinkState.offline; agents = record c.agents { online = false } }) in
    let e = record d {
      discovered = [];
      discovery_requested = false;
      rediscovery_required = true;
    } in
    if e.mdns_started && not e.discovery_search
    then record e { mdns_started = false; next_connect_ms = 0 }
    else e

unfoldable pub start_mdns : Env → PairingManager → PairingManager
start_mdns env m =
    if m.mdns_started
    then m
    else if env.mdns_begin
    then record m {
      mdns_started = true;
      discovery_requested = true;
      rediscovery_required = true;
      next_connect_ms = 0;
    }
    else m

-- `!sendDocument(ping) || ++missedPongs_ >= kHeartbeatMissLimit`, and what follows.
unfoldable pub heartbeat : Env → PairingManager → PairingManager
heartbeat env m =
    if ltb (sub32 env.now m.last_heartbeat_ms) heartbeat_ms
    then m
    else let (s, ok) = send_document env ping_document m in
      let missed = u8 (s.missed_pongs + 1) in
      if not ok
      then connection_lost env s
      else if leb heartbeat_miss_limit missed
      then connection_lost env (record s { missed_pongs = missed })
      else record s { missed_pongs = missed; last_heartbeat_ms = env.now }

abbrev pub is_live : LinkState → Bool
is_live LinkState.connected = true
is_live LinkState.authenticating = true
is_live LinkState.awaiting_pair_code = true
is_live _ = false

unfoldable pub auto_reconnect : PairingManager → Bool
auto_reconnect m = not m.manual_disconnect && not (is_empty m.target_id)

-- The last block of `tick`: aim at the known Mac, or look for it.
unfoldable pub reconnect : Env → Bool → PairingManager → PairingManager
reconnect env auto m =
    if auto && not m.discovery_search && deadline_reached env.now m.next_connect_ms
    then elim (discovered_index_by_id m.discovered m.target_id) [
      | none ↦ start_discovery env true m
      | some i ↦
          if not m.rediscovery_required
          then attempt_connection env (aim i m)
          else start_discovery env true m
    ]
    else m

-- `tick` once mDNS is up and a requested discovery is started.
unfoldable pub serve_link : Json → Env → Bool → PairingManager → PairingManager
serve_link json env auto m =
    if m.connect_in_flight
    then m
    else if m.client.connected
    then heartbeat env (read_incoming json env m)
    else reconnect env auto (if is_live m.state then connection_lost env m else m)

unfoldable pub serve_wifi : Json → Env → PairingManager → PairingManager
serve_wifi json env m =
    let s = start_mdns env m in
    let auto = auto_reconnect s in
    serve_link json env auto (
      if s.discovery_requested && not s.connect_in_flight
      then start_discovery env (auto && deadline_reached env.now s.next_connect_ms) s
      else s)

unfoldable pub tick : Json → Env → PairingManager → PairingManager
tick json env m =
    let p = poll_connection_attempt env (poll_discovery env m) in
    if not env.wifi_connected then wifi_down p else serve_wifi json env p

unfoldable pub connect_to_discovered : ℕ → PairingManager → PairingManager × Bool
connect_to_discovered index m = elim (get_elem? m.discovered index) [
  | none ↦ (m, false)
  | some mac ↦
      let d = disconnect false m in
      (
        record d {
          manual_disconnect = false;
          target_id = mac.id;
          target_name = mac.name;
          target_ip = mac.ip;
          target_port = mac.port;
          target_token = token_of d mac.id;
          next_connect_ms = 0;
          reconnect_delay_ms = reconnect_min_ms;
          rediscovery_required = false;
          compatibility_reason = [];
          required_firmware = [];
        },
        true,
      )
]

unfoldable pub connect_to_paired : ℕ → PairingManager → PairingManager × Bool
connect_to_paired index m = elim (get_elem? m.paired index) [
  | none ↦ (m, false)
  | some mac ↦ elim (discovered_index_by_id m.discovered mac.id) [
    | none ↦ (m, false)
    | some i ↦ connect_to_discovered i m
  ]
]

unfoldable pub paired_current : PairingManager → ℕ → Bool
paired_current m index = elim (get_elem? m.paired index) [
  | none ↦ false
  | some mac ↦ is_connected m.state && text_eq mac.id m.target_id
]

unfoldable pub paired_online : PairingManager → ℕ → Bool
paired_online m index = elim (get_elem? m.paired index) [
  | none ↦ false
  | some mac ↦ not (is_none (discovered_index_by_id m.discovered mac.id))
]

-- `deletePairing`; its result is that of `savePairedMacs` (`saved`).
unfoldable pub delete_pairing : Bool → ℕ → PairingManager → PairingManager × Bool
delete_pairing saved index m =
    if leb (length m.paired) index
    then (m, false)
    else let d = if paired_current m index then disconnect true m else m in
      let paired = remove_at d.paired index in
      (record d { paired = paired; store = save_paired_macs paired ∷ d.store }, saved)

abbrev pub agent_online : PairingManager → Bool
agent_online m = m.agents.online && is_connected m.state

unfoldable pub status_text : PairingManager → Text
status_text m = elim m.state [
  | LinkState.offline ↦ text "Mac offline"
  | LinkState.discovering ↦ text "Finding Mac..."
  | LinkState.connecting ↦ text "Connecting..."
  | LinkState.awaiting_pair_code ↦ text "Enter pair code"
  | LinkState.authenticating ↦ text "Authenticating..."
  | LinkState.connected ↦ text "Connected " ++ m.connected_name
  | LinkState.incompatible ↦ text "Update required"
]
