-- ===== src/Pairing/Silence.antt =====
-- A peer that does not answer, and a socket that closes while a search begins.
use cardputer_codex_deck.Base.{
  ◌+◌, ◌≤◌, ◌<◌, ◌≡◌, refl, ◌∙◌, ap, ◌⊎◌, inl, inr, Bool, true, false, ◌&&◌, List, [], ◌∷◌, arith,
  ltb, leb, length, u8, sub32, Bool-cases,
}
use cardputer_codex_deck.Models.{LinkState, heartbeat_ms, heartbeat_miss_limit}
use cardputer_codex_deck.Pairing.State.{PairingManager, Env, deadline_reached}
use cardputer_codex_deck.Pairing.Token.{set_audio_ready}
use cardputer_codex_deck.Pairing.Send.{send_document, ping_document}
use cardputer_codex_deck.Pairing.Link.{
  schedule_reconnect, cancel_connection_attempt, connection_lost, poll_connection_attempt,
}
use cardputer_codex_deck.Pairing.Discovery.{start_discovery, poll_discovery}
use cardputer_codex_deck.Pairing.Snapshot.{Json}
use cardputer_codex_deck.Pairing.Manager.{
  heartbeat, is_live, auto_reconnect, reconnect, start_mdns, serve_link, serve_wifi, tick,
}

-- Heartbeats in a row, without a message between them.
pub silent : List Env → PairingManager → PairingManager
silent [] m = m
silent (env ∷ envs) m = silent envs (heartbeat env m)

-- Each finds its interval over.
abbrev pub AllDue : List Env → PairingManager → Type 0
AllDue [] m = Unit {0}
AllDue (env ∷ envs) m =
    (heartbeat_ms ≤ sub32 env.now m.last_heartbeat_ms) × AllDue envs (heartbeat env m)

-- No link is left: the state is offline and the socket closed.
pub record Gone (m : PairingManager) : Type 0 where
  pub state : m.state ≡ LinkState.offline
  pub closed : m.client.connected ≡ false
  pub audio : m.audio.ready ≡ false
  pub agents : m.agents.online ≡ false

connection_lost-Gone :
    (env : Env) (m : PairingManager) → m.connect_in_flight ≡ false → Gone (connection_lost env m)
unfolding connection_lost cancel_connection_attempt schedule_reconnect set_audio_ready
connection_lost-Gone env m h = ground arith

connection_lost-flight :
    (env : Env) (m : PairingManager)
    → (connection_lost env m).connect_in_flight ≡ m.connect_in_flight
unfolding connection_lost cancel_connection_attempt schedule_reconnect set_audio_ready
connection_lost-flight env m = ground arith

record Beat (m n : PairingManager) : Type 0 where
  grounded : n.connect_in_flight ≡ false
  counted :
      Gone n
      ⊎ (m.client.connected ≡ true
          × (n.missed_pongs ≡ m.missed_pongs + 1)
          × (n.missed_pongs < heartbeat_miss_limit))

send_document_keeps :
    (env : Env) (m : PairingManager)
    → let r = send_document env ping_document m in
      (r.0.connect_in_flight ≡ m.connect_in_flight)
      × (r.0.missed_pongs ≡ m.missed_pongs)
      × (r.1 ≡ true → m.client.connected ≡ true)
unfolding send_document
send_document_keeps env m = ground arith

heartbeat-Beat :
    (env : Env) (m : PairingManager)
    → heartbeat_ms ≤ sub32 env.now m.last_heartbeat_ms
    → m.connect_in_flight ≡ false
    → m.missed_pongs < heartbeat_miss_limit ⊎ (m.client.connected ≡ false)
    → Beat m (heartbeat env m)
unfolding heartbeat
heartbeat-Beat env m due grounded room =
    let (s, ok) = send_document env ping_document m in
    let (flight, pongs, open_socket) = send_document_keeps env m in
    let late : ltb (sub32 env.now m.last_heartbeat_ms) heartbeat_ms ≡ false = ground arith in
    let missed = u8 (s.missed_pongs + 1) in
    let counted : PairingManager = record s { missed_pongs = missed } in
    let still : s.connect_in_flight ≡ false = flight ∙ grounded in
    let lost : Beat m (connection_lost env s) = record {
      grounded = connection_lost-flight env s ∙ still;
      counted = inl (connection_lost-Gone env s still);
    } in
    let limit : Beat m (connection_lost env counted) = record {
      grounded = connection_lost-flight env counted ∙ still;
      counted = inl (connection_lost-Gone env counted still);
    } in
    rw late (elim (Bool-cases ok) [
      | inr failed ↦ rw failed lost
      | inl sent ↦ rw sent (elim (Bool-cases (leb heartbeat_miss_limit missed)) [
        | inl over ↦ rw over limit
        | inr below ↦ rw below (record {
          grounded = still;
          counted = inr (open_socket sent, ground arith, ground arith);
        })
      ])
    ])

silent-stays :
    (envs : List Env) (m : PairingManager)
    → AllDue envs m
    → m.connect_in_flight ≡ false
    → Gone m
    → Gone (silent envs m)
unfolding silent
silent-stays [] m due grounded gone = gone
silent-stays (env ∷ envs) m due grounded gone =
    let beat = heartbeat-Beat env m due.0 grounded (inr gone.closed) in
    elim beat.counted [
      | inl still ↦ silent-stays envs (heartbeat env m) due.1 beat.grounded still
      | inr (open_socket, count, low) ↦ absurd (ground (arith, gone.closed))
    ]

-- A peer that answers none of the heartbeats is given up: with no attempt in flight, after the
-- third due heartbeat in a row without an answer, counted from the answers already missed, and
-- whatever the socket says of the writes, the link is gone.
pub silent-Gone :
    (envs : List Env) (m : PairingManager)
    → AllDue envs m
    → m.connect_in_flight ≡ false
    → m.missed_pongs < heartbeat_miss_limit
    → heartbeat_miss_limit ≤ m.missed_pongs + length envs
    → Gone (silent envs m)
unfolding silent
silent-Gone [] m due grounded room enough = absurd (omega arith)
silent-Gone (env ∷ envs) m due grounded room enough =
    let beat = heartbeat-Beat env m due.0 grounded (inl room) in
    elim beat.counted [
      | inl gone ↦ silent-stays envs (heartbeat env m) due.1 beat.grounded gone
      | inr (open_socket, count, low) ↦
          silent-Gone envs (heartbeat env m) due.1 beat.grounded low (omega arith)
    ]

module _ (env : Env) (m : PairingManager) where
  poll_discovery-idle : m.discovery_search ≡ false → poll_discovery env m ≡ m
  unfolding poll_discovery
  poll_discovery-idle idle = simp idle refl

  poll_connection_attempt-grounded : m.connect_in_flight ≡ false → poll_connection_attempt env m ≡ m
  unfolding poll_connection_attempt
  poll_connection_attempt-grounded grounded = simp grounded refl

  start_mdns-started : m.mdns_started ≡ true → start_mdns env m ≡ m
  unfolding start_mdns
  start_mdns-started started = simp started refl

  -- A search that runs beside a closed socket.
  record Searching (n : PairingManager) : Type 0 where
    state : n.state ≡ LinkState.discovering
    audio : n.audio ≡ m.audio
    deadline : n.next_connect_ms ≡ m.next_connect_ms
    grounded : n.connect_in_flight ≡ false
    closed : n.client.connected ≡ false
    searches : n.discovery_search ≡ true

  start_discovery-Searching :
      (for_reconnect : Bool)
      → m.client.connected ≡ false
      → m.connect_in_flight ≡ false
      → m.discovery_search ≡ false
      → m.mdns_started ≡ true
      → env.wifi_connected ≡ true
      → env.query_started ≡ true
      → Searching (start_discovery env for_reconnect m)
  unfolding start_discovery
  start_discovery-Searching for_reconnect closed grounded idle mdns wifi query = ground arith

serve_link-Searching :
    (json : Json) (env : Env) (auto : Bool) (m n : PairingManager)
    → Searching env m n
    → serve_link json env auto n ≡ n
unfolding serve_link reconnect
serve_link-Searching json env true m n s =
    simp (s.grounded, s.closed, s.searches, ap is_live s.state) refl
serve_link-Searching json env false m n s = simp (s.grounded, s.closed, ap is_live s.state) refl

-- A connected link whose socket is closed, with no attempt in flight and no search running, on a
-- tick with WiFi and mDNS up that starts a requested search, goes to `Discovering` without
-- `connectionLost`, so the audio tasks keep the endpoint and the token of the dead link, and no
-- reconnect is scheduled.
pub tick-stale_audio :
    (json : Json) (env : Env) (m : PairingManager)
    → m.state ≡ LinkState.connected
    → m.client.connected ≡ false
    → m.connect_in_flight ≡ false
    → m.discovery_search ≡ false
    → m.discovery_requested ≡ true
    → m.mdns_started ≡ true
    → env.wifi_connected ≡ true
    → env.query_started ≡ true
    → let n = tick json env m in
      (n.state ≡ LinkState.discovering)
      × (n.audio ≡ m.audio)
      × (n.next_connect_ms ≡ m.next_connect_ms)
unfolding tick serve_wifi
tick-stale_audio json env m connected closed grounded idle asked mdns wifi query =
    let auto = auto_reconnect m in
    let f = auto && deadline_reached env.now m.next_connect_ms in
    let s = start_discovery-Searching env m f closed grounded idle mdns wifi query in
    let n = start_discovery env f m in
    let polled : poll_connection_attempt env (poll_discovery env m) ≡ m =
      ap (poll_connection_attempt env) (poll_discovery-idle env m idle)
      ∙ poll_connection_attempt-grounded env m grounded in
    let served : serve_link json env auto n ≡ n = serve_link-Searching json env auto m n s in
    let whole : tick json env m ≡ n =
      simp (polled, wifi, start_mdns-started env m mdns, asked, grounded) served in
    rw whole (s.state, s.audio, s.deadline)
