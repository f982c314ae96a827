-- ===== src/Pairing/Link.antt =====
-- firmware/m5stack-cardputer-adv/src/pairing.cpp: the life of the connection, from an attempt by
-- a worker task to its loss, and the back-off between attempts.
use cardputer_codex_deck.Base.{
  ◌+◌, ◌*◌, Bool, true, false, ◌||◌, not, none, some, [], ◌∷◌, Text, is_empty, ◌==◌, if◌then◌else◌,
  get_elem?, min, u32,
}
use cardputer_codex_deck.Models.{DeviceSettings, LinkState, reconnect_max_ms}
use cardputer_codex_deck.Pairing.State.{
  PairingManager, Env, ConnectResult, save_settings, paired_index_by_id, stop,
}
use cardputer_codex_deck.Pairing.Token.{set_audio_ready}
use cardputer_codex_deck.Pairing.Send.{send_document, hello_document}

unfoldable pub schedule_reconnect : Env → PairingManager → PairingManager
schedule_reconnect env m = record m {
  next_connect_ms = u32 (env.now + m.reconnect_delay_ms);
  reconnect_delay_ms = min (u32 (m.reconnect_delay_ms * 2)) reconnect_max_ms;
  rediscovery_required = true;
}

unfoldable pub cancel_connection_attempt : PairingManager → PairingManager
cancel_connection_attempt m =
    if m.connect_in_flight
    then record m { cancel_connect = true }
    else if m.client.connected
    then record m { client = stop m.client }
    else m

unfoldable pub connection_lost : Env → PairingManager → PairingManager
connection_lost env m =
    let c = cancel_connection_attempt m in
    schedule_reconnect env (
      set_audio_ready false (record c {
        connected_name = [];
        state = LinkState.offline;
        agents = record c.agents { online = false };
      }))

-- `if (settings_) { settings_->lastMacId = id; persistSettings(); }`.
unfoldable pub persist_last_mac : Text → PairingManager → PairingManager
persist_last_mac id m = elim m.settings [
  | none ↦ m
  | some s ↦
      let s' : DeviceSettings = record s { last_mac_id = id } in
      record m { settings = some s'; store = save_settings s' ∷ m.store }
]

unfoldable pub disconnect : Bool → PairingManager → PairingManager
disconnect manual m =
    let c = cancel_connection_attempt m in
    let d = set_audio_ready false (record c {
      incoming = [];
      connected_name = [];
      state = LinkState.offline;
      agents = record c.agents { online = false };
    }) in
    let e = record d {
      manual_disconnect = manual;
      missed_pongs = 0;
      compatibility_reason = [];
      required_firmware = [];
    } in
    if manual then persist_last_mac [] (record e { target_id = []; target_token = [] }) else e

-- The token that is kept for a Mac, or none.
unfoldable pub token_of : PairingManager → Text → Text
token_of m id = elim (paired_index_by_id m.paired id) [
  | none ↦ []
  | some i ↦ elim (get_elem? m.paired i) [ none ↦ [] | some mac ↦ mac.token ]
]

unfoldable pub send_hello : Env → PairingManager → PairingManager
send_hello env m =
    let token = token_of m m.target_id in
    let (m', ok) =
      send_document env (hello_document m.device_id token) (record m { target_token = token }) in
    if not ok then connection_lost env m' else record m' {
      state = if is_empty token then LinkState.awaiting_pair_code else LinkState.authenticating;
    }

-- The worker is created, or the attempt is given up.
unfoldable pub start_worker : Env → PairingManager → PairingManager
start_worker env m =
    let generation = u32 (m.connect_generation + 1) in
    if not env.context_allocated
    then record (schedule_reconnect env m) { state = LinkState.offline }
    else if not env.task_started
    then record (schedule_reconnect env (record m {
      connect_generation = generation;
      cancel_connect = false;
      connect_in_flight = false;
    })) { state = LinkState.offline }
    else record m {
      connect_generation = generation;
      cancel_connect = false;
      connect_in_flight = true;
      task = some (record { ip = m.target_ip; port = m.target_port; generation = generation });
    }

unfoldable pub attempt_connection : Env → PairingManager → PairingManager
attempt_connection env m =
    if m.connect_in_flight
    then m
    else if m.target_ip == 0 || not m.connect_result_queue
    then schedule_reconnect env m
    else start_worker env (record m { state = LinkState.connecting; client = stop m.client })

-- `connectTaskEntry`: the worker connects the socket or fails, posts its result and ends.
unfoldable pub connect_task_entry : Bool → PairingManager → PairingManager
connect_task_entry connects m = elim m.task [
  | none ↦ m
  | some context ↦
      let c = m.client in
      record m {
        client = record c { connected = connects; rx = [] };
        connect_result = some (record { generation = context.generation; connected = connects });
        task = none;
      }
]

-- The result of an attempt, after it left the queue.
unfoldable pub connection_result : Env → ConnectResult → PairingManager → PairingManager
connection_result env result m =
    let cancelled =
      m.cancel_connect
      || not (result.generation == m.connect_generation)
      || not env.wifi_connected in
    let d : PairingManager = record m {
      connect_result = none;
      connect_in_flight = false;
      cancel_connect = false;
    } in
    if cancelled
    then record d {
      client = if result.connected then stop d.client else d.client;
      state = LinkState.offline;
    }
    else if not result.connected
    then record (schedule_reconnect env d) { state = LinkState.offline }
    else send_hello env (record d { incoming = []; missed_pongs = 0; last_heartbeat_ms = env.now })

unfoldable pub poll_connection_attempt : Env → PairingManager → PairingManager
poll_connection_attempt env m =
    if not m.connect_in_flight || not m.connect_result_queue
    then m
    else elim m.connect_result [ none ↦ m | some result ↦ connection_result env result m ]
