-- ===== src/Pairing/Invariant/Manager.antt =====
-- The invariant across a tick, the user's commands, and every history.
use cardputer_codex_deck.Base.{
  ℕ, ◌≤◌, ◌≡◌, Bool, true, false, ◌&&◌, not, Option, none, some, List, [], ◌∷◌, arith, inl, inr,
  ◌∙◌, ◌<◌, ◌+◌, Option-cases, Bool-cases, if_both, sub32, if◌then◌else◌, length,
  length-remove_at-le, Text, u8, ltb, leb, get_elem?,
}
use cardputer_codex_deck.Models.{
  PairedMac, LinkState, DeviceSettings, max_paired_macs, heartbeat_ms, heartbeat_miss_limit,
}
use cardputer_codex_deck.Pairing.State.{
  PairingManager, Env, Document, initial, deadline_reached, discovered_index_by_id,
}
use cardputer_codex_deck.Pairing.Token.{set_audio_ready}
use cardputer_codex_deck.Pairing.Send.{
  send_document, ping_document, pair_document, key_document, submit_pair_code, send_key,
  send_agent_ack,
}
use cardputer_codex_deck.Pairing.Link.{
  schedule_reconnect, cancel_connection_attempt, connection_lost, disconnect, attempt_connection,
}
use cardputer_codex_deck.Pairing.Discovery.{start_discovery, aim}
use cardputer_codex_deck.Pairing.Snapshot.{Json}
use cardputer_codex_deck.Pairing.Manager.{
  begin, wifi_down, start_mdns, heartbeat, is_live, reconnect, serve_link, serve_wifi, tick,
  connect_to_discovered, connect_to_paired, paired_current, delete_pairing,
}
use cardputer_codex_deck.Pairing.Events.{
  Event, ticks, worker_ends, arrives, peer_closes, asks_discovery, connects_discovered,
  connects_paired, disconnects, deletes, submits_code, sends_key, acks, edits_settings, step, run,
}
use cardputer_codex_deck.Pairing.Frame.{read_incoming-MessageFrame}
use cardputer_codex_deck.Pairing.Invariant.{IsValid, Distinct}
use cardputer_codex_deck.Pairing.Invariant.Ids.{Distinct-remove_at}
use cardputer_codex_deck.Pairing.Invariant.Link.{
  cancel_connection_attempt-IsValid, send_document-IsValid, connection_lost-IsValid,
  disconnect-IsValid, attempt_connection-IsValid, connect_task_entry-IsValid,
  poll_connection_attempt-IsValid,
}
use cardputer_codex_deck.Pairing.Invariant.Discovery.{
  aim-IsValid, start_discovery-IsValid, request_discovery-IsValid, poll_discovery-IsValid,
}
use cardputer_codex_deck.Pairing.Invariant.Receive.{read_incoming-IsValid}

-- The state after `begin` with at most four stored Macs of distinct ids.
pub begin-IsValid :
    (settings : Option DeviceSettings) (stored : List PairedMac) (mac : Text) (queue : Bool)
    → length stored ≤ max_paired_macs
    → Distinct stored
    → IsValid stored (begin settings stored mac queue initial)
unfolding begin
begin-IsValid settings stored mac queue h d = ground arith

module _ {loaded : List PairedMac} {m : PairingManager} (v : IsValid loaded m) where
  wifi_down-IsValid : IsValid loaded (wifi_down m)
  unfolding wifi_down set_audio_ready
  wifi_down-IsValid = let c = cancel_connection_attempt-IsValid v in ground arith

  start_mdns-IsValid : (env : Env) → IsValid loaded (start_mdns env m)
  unfolding start_mdns
  start_mdns-IsValid env = ground arith

  send_document_frame :
      (env : Env) (document : Document)
      → let r = send_document env document m in
        (r.0.missed_pongs ≡ m.missed_pongs)
        × (r.0.connect_in_flight ≡ m.connect_in_flight)
        × (r.1 ≡ true → m.client.connected ≡ true)
  unfolding send_document
  send_document_frame env document = ground arith

  -- The link is given up with any count of missed answers up to the limit.
  lost_at_limit :
      (env : Env) (missed : ℕ)
      → missed ≤ heartbeat_miss_limit
      → m.connect_in_flight ≡ false
      → IsValid loaded (connection_lost env (record m { missed_pongs = missed }))
  unfolding connection_lost cancel_connection_attempt schedule_reconnect set_audio_ready
  lost_at_limit env missed h grounded = ground arith

module _ {loaded : List PairedMac} {m : PairingManager} (v : IsValid loaded m) where
  heartbeat-IsValid : (env : Env) → m.connect_in_flight ≡ false → IsValid loaded (heartbeat env m)
  unfolding heartbeat
  heartbeat-IsValid env grounded =
      let s = send_document env ping_document m in
      let t = s.0 in
      let missed = u8 (t.missed_pongs + 1) in
      let vs : IsValid loaded t = send_document-IsValid v env ping_document in
      let (pongs, flight, open_socket) = send_document_frame v env ping_document in
      let still : t.connect_in_flight ≡ false = flight ∙ grounded in
      let few : s.1 ≡ true → m.missed_pongs < heartbeat_miss_limit =
        λ ok. v.pongs_live (open_socket ok) grounded in
      elim (Bool-cases (ltb (sub32 env.now m.last_heartbeat_ms) heartbeat_ms)) [
        | inl early ↦ rw early v
        | inr due ↦ elim (Bool-cases s.1) [
          | inr failed ↦ rw (due, failed) (connection_lost-IsValid vs env)
          | inl ok ↦
              let low : m.missed_pongs < heartbeat_miss_limit = few ok in
              let bound : missed ≤ heartbeat_miss_limit = omega arith in
              elim (Bool-cases (leb heartbeat_miss_limit missed)) [
                | inl limit ↦ rw (due, ok, limit) (lost_at_limit vs env missed bound still)
                | inr below ↦ rw (due, ok, below) (ground arith)
              ]
        ]
      ]

  reconnect-IsValid : (env : Env) (auto : Bool) → IsValid loaded (reconnect env auto m)
  unfolding reconnect
  reconnect-IsValid env auto =
      if_both (IsValid loaded)
        (auto && not m.discovery_search && deadline_reached env.now m.next_connect_ms)
        {x = elim (discovered_index_by_id m.discovered m.target_id) [
          | none ↦ start_discovery env true m
          | some i ↦
              if not m.rediscovery_required
              then attempt_connection env (aim i m)
              else start_discovery env true m
        ]}
        (elim (Option-cases (discovered_index_by_id m.discovered m.target_id)) [
          | inl absent ↦ rw absent (start_discovery-IsValid v env true)
          | inr (i, found) ↦ rw found (
              if_both (IsValid loaded) _ (attempt_connection-IsValid (aim-IsValid v i) env)
                (start_discovery-IsValid v env true))
        ])
        v

  pub connect_to_discovered-IsValid : (i : ℕ) → IsValid loaded (connect_to_discovered i m).0
  unfolding connect_to_discovered
  connect_to_discovered-IsValid i = let d = disconnect-IsValid v false in ground arith

  pub delete_pairing-IsValid : (saved : Bool) (i : ℕ) → IsValid loaded (delete_pairing saved i m).0
  unfolding delete_pairing
  delete_pairing-IsValid saved i =
      let d : PairingManager = if paired_current m i then disconnect true m else m in
      let vd : IsValid loaded d = if_both (IsValid loaded) _ (disconnect-IsValid v true) v in
      ground
        (arith, length-remove_at-le d.paired i, Distinct-remove_at d.paired i vd.paired_distinct)

  pub submit_pair_code-IsValid :
      (env : Env) (code : Text) → IsValid loaded (submit_pair_code env code m).0
  unfolding submit_pair_code
  submit_pair_code-IsValid env code =
      let a : PairingManager = record m { state = LinkState.authenticating } in
      let va : IsValid loaded a = ground arith in
      if_both (λ (r : PairingManager × Bool). IsValid loaded r.0) _ v
        (send_document-IsValid va env (pair_document code))

  pub send_key-IsValid :
      (env : Env) (key action : Text) (cmd shift option control : Bool)
      → IsValid loaded (send_key env key action cmd shift option control m).0
  unfolding send_key
  send_key-IsValid env key action cmd shift option control =
      if_both (λ (r : PairingManager × Bool). IsValid loaded r.0) _ v
        (send_document-IsValid v env (key_document key action cmd shift option control))

  pub send_agent_ack-IsValid : (env : Env) (id : Text) → IsValid loaded (send_agent_ack env id m).0
  unfolding send_agent_ack
  send_agent_ack-IsValid env id =
      if_both (λ (r : PairingManager × Bool). IsValid loaded r.0) _ v
        (send_document-IsValid v env _)

  pub connect_to_paired-IsValid : (i : ℕ) → IsValid loaded (connect_to_paired i m).0
  unfolding connect_to_paired
  connect_to_paired-IsValid i = elim (Option-cases (get_elem? m.paired i)) [
    | inl absent ↦ rw (absent, connect_to_paired) v
    | inr (mac, at) ↦ elim (Option-cases (discovered_index_by_id m.discovered mac.id)) [
      | inl unseen ↦ rw (at, unseen, connect_to_paired) v
      | inr (j, seen) ↦ rw (at, seen, connect_to_paired) (connect_to_discovered-IsValid j)
    ]
  ]

serve_link-IsValid :
    (json : Json) (env : Env) (auto : Bool) {loaded : List PairedMac} {m : PairingManager}
    → IsValid loaded m
    → IsValid loaded (serve_link json env auto m)
unfolding serve_link
serve_link-IsValid json env auto {loaded} {m} v = elim (Bool-cases m.connect_in_flight) [
  | inl flying ↦ simp flying v
  | inr grounded ↦ simp grounded (
      if_both (IsValid loaded) m.client.connected
        (heartbeat-IsValid (read_incoming-IsValid json env v) env
          ((read_incoming-MessageFrame json env m).flight ∙ grounded))
        (reconnect-IsValid
          (if_both (IsValid loaded) (is_live m.state) (connection_lost-IsValid v env) v) env auto))
]

serve_wifi-IsValid :
    (json : Json) (env : Env) {loaded : List PairedMac} {m : PairingManager}
    → IsValid loaded m
    → IsValid loaded (serve_wifi json env m)
unfolding serve_wifi
serve_wifi-IsValid json env v =
    let s = start_mdns-IsValid v env in
    serve_link-IsValid json env _ (if_both (IsValid _) _ (start_discovery-IsValid s env _) s)

pub tick-IsValid :
    (json : Json) (env : Env) {loaded : List PairedMac} {m : PairingManager}
    → IsValid loaded m
    → IsValid loaded (tick json env m)
unfolding tick
tick-IsValid json env v =
    let p = poll_connection_attempt-IsValid (poll_discovery-IsValid v env) env in
    if_both (IsValid _) _ (wifi_down-IsValid p) (serve_wifi-IsValid json env p)

-- Every event keeps the invariant.
pub step-IsValid :
    (json : Json) {loaded : List PairedMac} {m : PairingManager} (e : Event)
    → IsValid loaded m
    → IsValid loaded (step json m e)
unfolding step
step-IsValid json (ticks env) v = tick-IsValid json env v
step-IsValid json (worker_ends connects) v = connect_task_entry-IsValid v connects
step-IsValid json (arrives bytes) v = ground arith
step-IsValid json peer_closes v = ground arith
step-IsValid json (asks_discovery env) v = request_discovery-IsValid v env
step-IsValid json (connects_discovered i) v = connect_to_discovered-IsValid v i
step-IsValid json (connects_paired i) v = connect_to_paired-IsValid v i
step-IsValid json (disconnects manual) v = disconnect-IsValid v manual
step-IsValid json (deletes saved i) v = delete_pairing-IsValid v saved i
step-IsValid json (submits_code env code) v = submit_pair_code-IsValid v env code
step-IsValid json (sends_key env key action cmd shift option control) v =
    send_key-IsValid v env key action cmd shift option control
step-IsValid json (acks env id) v = send_agent_ack-IsValid v env id
step-IsValid json (edits_settings s) v = ground arith

run-IsValid :
    (json : Json) {loaded : List PairedMac} (es : List Event) (m : PairingManager)
    → IsValid loaded m
    → IsValid loaded (run json m es)
unfolding run
run-IsValid json [] m v = v
run-IsValid json (e ∷ es) m v = run-IsValid json es (step json m e) (step-IsValid json e v)

-- After `begin` with at most four stored Macs of distinct ids, every history of ticks, worker
-- results, arriving bytes, closes and user commands keeps the invariant: the paired, discovered and
-- session lists within their arrays, distinct ids, the paired list equal to the last saved one, the
-- line buffer within 4096 bytes, the back-off between 1 s and 20 s, the missed answers within their
-- limit, and a connection attempt in flight exactly with its worker or its result, of the current
-- generation.
pub run-begin-IsValid :
    (json : Json) (settings : Option DeviceSettings) (stored : List PairedMac) (mac : Text)
    (queue : Bool) (es : List Event)
    → length stored ≤ max_paired_macs
    → Distinct stored
    → IsValid stored (run json (begin settings stored mac queue initial) es)
run-begin-IsValid json settings stored mac queue es h d =
    run-IsValid json es _ (begin-IsValid settings stored mac queue h d)
