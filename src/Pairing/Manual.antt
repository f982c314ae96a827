-- ===== src/Pairing/Manual.antt =====
-- The link after a disconnect by the user.
use cardputer_codex_deck.Base.{
  ℕ, ◌≡◌, Bool, true, false, ◌&&◌, ◌||◌, not, some, List, [], ◌∷◌, arith, inl, inr, Text,
  Option-cases, Bool-cases, if_both, is_empty,
}
use cardputer_codex_deck.Models.{PairedMac, LinkState}
use cardputer_codex_deck.Pairing.State.{PairingManager, Env, Document, MdnsResult, ConnectResult}
use cardputer_codex_deck.Pairing.Token.{set_audio_ready}
use cardputer_codex_deck.Pairing.Send.{
  send_document, submit_pair_code, send_key, send_agent_ack, pair_document, key_document,
}
use cardputer_codex_deck.Pairing.Link.{
  schedule_reconnect, cancel_connection_attempt, connection_lost, persist_last_mac, disconnect,
  connect_task_entry, connection_result, poll_connection_attempt,
}
use cardputer_codex_deck.Pairing.Discovery.{
  start_discovery, finish_discovery, poll_discovery, request_discovery,
}
use cardputer_codex_deck.Pairing.Snapshot.{Json}
use cardputer_codex_deck.Pairing.Manager.{
  wifi_down, start_mdns, is_live, auto_reconnect, reconnect, serve_link, serve_wifi, tick,
  delete_pairing,
}
use cardputer_codex_deck.Pairing.Events.{
  Event, ticks, worker_ends, arrives, peer_closes, asks_discovery, connects_discovered,
  connects_paired, disconnects, deletes, submits_code, sends_key, acks, edits_settings, step, run,
}
use cardputer_codex_deck.Pairing.Invariant.{IsValid, Worker}

-- The user disconnected: an attempt that is still in flight is cancelled, and without one the
-- socket is closed.
pub record ManualDown (m : PairingManager) : Type 0 where
  pub manual : m.manual_disconnect ≡ true
  pub cancelled : m.connect_in_flight ≡ true → m.cancel_connect ≡ true
  pub closed : m.connect_in_flight ≡ false → m.client.connected ≡ false
  pub worker :
      Worker m.connect_in_flight m.task m.connect_result m.connect_generation m.client.connected

-- All but the user's choice of a Mac, which ends the manual disconnect.
abbrev pub leaves_down : Event → Bool
leaves_down (connects_discovered i) = false
leaves_down (connects_paired i) = false
leaves_down (disconnects false) = false
leaves_down _ = true

abbrev pub all_leave_down : List Event → Bool
all_leave_down [] = true
all_leave_down (e ∷ es) = leaves_down e && all_leave_down es

-- `disconnect(true)` sets it up, from any valid state.
pub disconnect-ManualDown :
    {loaded : List PairedMac} (m : PairingManager)
    → IsValid loaded m
    → ManualDown (disconnect true m)
unfolding disconnect cancel_connection_attempt set_audio_ready persist_last_mac
disconnect-ManualDown m v = ground arith

module _ {m : PairingManager} (d : ManualDown m) where
  send_document-ManualDown :
      (env : Env) (document : Document) → ManualDown (send_document env document m).0
  unfolding send_document
  send_document-ManualDown env document = ground arith

  disconnect_again : ManualDown (disconnect true m)
  unfolding disconnect cancel_connection_attempt set_audio_ready persist_last_mac
  disconnect_again = ground arith

  wifi_down-ManualDown : ManualDown (wifi_down m)
  unfolding wifi_down cancel_connection_attempt set_audio_ready
  wifi_down-ManualDown = ground arith

  start_mdns-ManualDown : (env : Env) → ManualDown (start_mdns env m)
  unfolding start_mdns
  start_mdns-ManualDown env = ground arith

  start_discovery-ManualDown :
      (env : Env) (for_reconnect : Bool) → ManualDown (start_discovery env for_reconnect m)
  unfolding start_discovery schedule_reconnect
  start_discovery-ManualDown env for_reconnect = ground arith

  connection_lost-ManualDown : (env : Env) → ManualDown (connection_lost env m)
  unfolding connection_lost cancel_connection_attempt schedule_reconnect set_audio_ready
  connection_lost-ManualDown env = ground arith

  connect_task_entry-ManualDown : (connects : Bool) → ManualDown (connect_task_entry connects m)
  unfolding connect_task_entry
  connect_task_entry-ManualDown connects = ground arith

  request_discovery-ManualDown : (env : Env) → ManualDown (request_discovery env m)
  unfolding request_discovery
  request_discovery-ManualDown env = ground arith

  delete_pairing-ManualDown : (saved : Bool) (i : ℕ) → ManualDown (delete_pairing saved i m).0
  unfolding delete_pairing
  delete_pairing-ManualDown saved i = let e = disconnect_again in ground arith

  finish_discovery-ManualDown :
      (env : Env) (for_reconnect : Bool) (results : List MdnsResult)
      → ManualDown (finish_discovery env for_reconnect results m)
  unfolding finish_discovery
  finish_discovery-ManualDown env for_reconnect results =
      simp d.manual (elim (Bool-cases env.wifi_connected) [
        | inl up ↦ rw up (ground arith)
        | inr down ↦ rw down (ground arith)
      ])

  connection_result-ManualDown :
      (env : Env) (result : ConnectResult)
      → m.connect_in_flight ≡ true
      → m.connect_result ≡ some result
      → ManualDown (connection_result env result m)
  unfolding connection_result
  connection_result-ManualDown env result flying posted = ground arith

module _ {m : PairingManager} (d : ManualDown m) where
  poll_discovery-ManualDown : (env : Env) → ManualDown (poll_discovery env m)
  unfolding poll_discovery
  poll_discovery-ManualDown env =
      let e : PairingManager = record m {
        discovery_search = false;
        discovery_for_reconnect = false;
      } in
      let de : ManualDown e = ground arith in
      if_both ManualDown (not m.discovery_search) d (elim (Option-cases env.query_results) [
        | inl pending ↦ rw pending d
        | inr (results, finished) ↦
            rw finished (finish_discovery-ManualDown de env m.discovery_for_reconnect results)
      ])

  poll_connection_attempt-ManualDown : (env : Env) → ManualDown (poll_connection_attempt env m)
  unfolding poll_connection_attempt
  poll_connection_attempt-ManualDown env = elim (Bool-cases m.connect_in_flight) [
    | inr grounded ↦ simp grounded d
    | inl flying ↦
        if_both ManualDown (not m.connect_in_flight || not m.connect_result_queue) d
          (elim (Option-cases m.connect_result) [
            | inl pending ↦ rw pending d
            | inr (result, posted) ↦
                rw posted (connection_result-ManualDown d env result flying posted)
          ])
  ]

  submit_pair_code-ManualDown :
      (env : Env) (code : Text) → ManualDown (submit_pair_code env code m).0
  unfolding submit_pair_code
  submit_pair_code-ManualDown env code =
      let a : PairingManager = record m { state = LinkState.authenticating } in
      let da : ManualDown a = ground arith in
      if_both (λ (r : PairingManager × Bool). ManualDown r.0) _ d
        (send_document-ManualDown da env (pair_document code))

  send_key-ManualDown :
      (env : Env) (key action : Text) (cmd shift option control : Bool)
      → ManualDown (send_key env key action cmd shift option control m).0
  unfolding send_key
  send_key-ManualDown env key action cmd shift option control =
      if_both (λ (r : PairingManager × Bool). ManualDown r.0) _ d
        (send_document-ManualDown d env (key_document key action cmd shift option control))

  send_agent_ack-ManualDown : (env : Env) (id : Text) → ManualDown (send_agent_ack env id m).0
  unfolding send_agent_ack
  send_agent_ack-ManualDown env id =
      if_both (λ (r : PairingManager × Bool). ManualDown r.0) _ d (send_document-ManualDown d env _)

  serve_link-ManualDown : (json : Json) (env : Env) → ManualDown (serve_link json env false m)
  unfolding serve_link reconnect
  serve_link-ManualDown json env = elim (Bool-cases m.connect_in_flight) [
    | inl flying ↦ simp flying d
    | inr grounded ↦
        simp (grounded, d.closed grounded)
          (if_both ManualDown (is_live m.state) (connection_lost-ManualDown d env) d)
  ]

module _ (json : Json) (env : Env) where
  serve_wifi-ManualDown : {m : PairingManager} → ManualDown m → ManualDown (serve_wifi json env m)
  unfolding serve_wifi auto_reconnect
  serve_wifi-ManualDown {m} d =
      let s = start_mdns env m in
      let ds : ManualDown s = start_mdns-ManualDown d env in
      let off : (not s.manual_disconnect && not (is_empty s.target_id)) ≡ false =
        ground (arith, ds.manual) in
      rw off (
        serve_link-ManualDown (if_both ManualDown _ (start_discovery-ManualDown ds env _) ds) json
          env)

  tick-ManualDown : {m : PairingManager} → ManualDown m → ManualDown (tick json env m)
  unfolding tick
  tick-ManualDown d =
      let p = poll_connection_attempt-ManualDown (poll_discovery-ManualDown d env) env in
      if_both ManualDown _ (wifi_down-ManualDown p) (serve_wifi-ManualDown p)

step-ManualDown :
    (json : Json) {m : PairingManager} (e : Event)
    → leaves_down e ≡ true
    → ManualDown m
    → ManualDown (step json m e)
unfolding step
step-ManualDown json (ticks env) h d = tick-ManualDown json env d
step-ManualDown json (worker_ends connects) h d = connect_task_entry-ManualDown d connects
step-ManualDown json (arrives bytes) h d = ground arith
step-ManualDown json peer_closes h d = ground arith
step-ManualDown json (asks_discovery env) h d = request_discovery-ManualDown d env
step-ManualDown json (connects_discovered i) h d = absurd (ground arith)
step-ManualDown json (connects_paired i) h d = absurd (ground arith)
step-ManualDown json (disconnects false) h d = absurd (ground arith)
step-ManualDown json (disconnects true) h d = disconnect_again d
step-ManualDown json (deletes saved i) h d = delete_pairing-ManualDown d saved i
step-ManualDown json (submits_code env code) h d = submit_pair_code-ManualDown d env code
step-ManualDown json (sends_key env key action cmd shift option control) h d =
    send_key-ManualDown d env key action cmd shift option control
step-ManualDown json (acks env id) h d = send_agent_ack-ManualDown d env id
step-ManualDown json (edits_settings s) h d = ground arith

run-ManualDown :
    (json : Json) (es : List Event) {m : PairingManager}
    → all_leave_down es ≡ true
    → ManualDown m
    → ManualDown (run json m es)
unfolding run
run-ManualDown json [] h d = d
run-ManualDown json (e ∷ es) {m} h d =
    run-ManualDown json es (ground arith) (step-ManualDown json e (ground arith) d)

-- Once the user has disconnected, from any valid state, the link stays down in every history in
-- which the user chooses no Mac: an attempt that was in flight is cancelled, no other one is
-- started, and the socket is closed once none is in flight.
pub run-disconnect-ManualDown :
    (json : Json) {loaded : List PairedMac} (m : PairingManager) (es : List Event)
    → IsValid loaded m
    → all_leave_down es ≡ true
    → ManualDown (run json (disconnect true m) es)
run-disconnect-ManualDown json m es v h = run-ManualDown json es h (disconnect-ManualDown m v)
