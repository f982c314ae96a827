-- ===== src/Pairing/Invariant/Link.antt =====
-- The invariant across the life of the connection (Pairing/Link).
use cardputer_codex_deck.Base.{
  ◌≡◌, Bool, true, some, List, Text, arith, inl, inr, ◌||◌, not, ◌==◌, Option-cases, Bool-cases,
}
use cardputer_codex_deck.Models.{PairedMac}
use cardputer_codex_deck.Pairing.State.{PairingManager, Env, Document, ConnectResult}
use cardputer_codex_deck.Pairing.Token.{set_audio_ready}
use cardputer_codex_deck.Pairing.Send.{send_document, hello_document}
use cardputer_codex_deck.Pairing.Link.{
  token_of, schedule_reconnect, cancel_connection_attempt, connection_lost, persist_last_mac,
  disconnect, send_hello, start_worker, attempt_connection, connect_task_entry, connection_result,
  poll_connection_attempt,
}
use cardputer_codex_deck.Pairing.Invariant.{IsValid}

module _ {loaded : List PairedMac} {m : PairingManager} (v : IsValid loaded m) where
  pub set_audio_ready-IsValid : (ready : Bool) → IsValid loaded (set_audio_ready ready m)
  unfolding set_audio_ready
  set_audio_ready-IsValid ready = ground arith

  pub schedule_reconnect-IsValid : (env : Env) → IsValid loaded (schedule_reconnect env m)
  unfolding schedule_reconnect
  schedule_reconnect-IsValid env = ground arith

  pub cancel_connection_attempt-IsValid : IsValid loaded (cancel_connection_attempt m)
  unfolding cancel_connection_attempt
  cancel_connection_attempt-IsValid = ground arith

  pub send_document-IsValid :
      (env : Env) (document : Document) → IsValid loaded (send_document env document m).0
  unfolding send_document
  send_document-IsValid env document = ground arith

  pub persist_last_mac-IsValid : (id : Text) → IsValid loaded (persist_last_mac id m)
  unfolding persist_last_mac
  persist_last_mac-IsValid id = ground arith

module _ {loaded : List PairedMac} {m : PairingManager} (v : IsValid loaded m) where
  pub connection_lost-IsValid : (env : Env) → IsValid loaded (connection_lost env m)
  unfolding connection_lost cancel_connection_attempt schedule_reconnect set_audio_ready
  connection_lost-IsValid env = ground arith

  pub disconnect-IsValid : (manual : Bool) → IsValid loaded (disconnect manual m)
  unfolding disconnect cancel_connection_attempt set_audio_ready persist_last_mac
  disconnect-IsValid manual = ground arith

  pub attempt_connection-IsValid : (env : Env) → IsValid loaded (attempt_connection env m)
  unfolding attempt_connection start_worker schedule_reconnect
  attempt_connection-IsValid env = ground arith

  pub connect_task_entry-IsValid :
      (connects : Bool) → IsValid loaded (connect_task_entry connects m)
  unfolding connect_task_entry
  connect_task_entry-IsValid connects = ground arith

pub send_hello-IsValid :
    {loaded : List PairedMac} {m : PairingManager}
    → IsValid loaded m
    → (env : Env) → IsValid loaded (send_hello env m)
unfolding send_hello
send_hello-IsValid {loaded} {m} v env =
    let token = token_of m m.target_id in
    let t : PairingManager = record m { target_token = token } in
    let v' : IsValid loaded t = ground arith in
    let doc = hello_document m.device_id token in
    let s = send_document-IsValid v' env doc in
    elim (Bool-cases (send_document env doc t).1) [
      | inl sent ↦ rw sent (ground arith)
      | inr failed ↦ rw failed (connection_lost-IsValid s env)
    ]

-- The result of an attempt that is over, as `pollConnectionAttempt` takes it.
pub connection_result-IsValid :
    {loaded : List PairedMac} {m : PairingManager}
    → IsValid loaded m
    → (env : Env) (result : ConnectResult) → m.connect_in_flight ≡ true
    → m.connect_result ≡ some result
    → IsValid loaded (connection_result env result m)
unfolding connection_result schedule_reconnect
connection_result-IsValid {loaded} {m} v env result flying posted =
    elim (Bool-cases (
      m.cancel_connect
      || not (result.generation == m.connect_generation)
      || not env.wifi_connected)) [
        | inl cancelled ↦ rw cancelled (ground arith)
        | inr wanted ↦ elim (Bool-cases result.connected) [
          | inl up ↦ rw (wanted, up) (send_hello-IsValid (ground arith) env)
          | inr refused ↦ rw (wanted, refused) (ground arith)
        ]
      ]

pub poll_connection_attempt-IsValid :
    {loaded : List PairedMac} {m : PairingManager}
    → IsValid loaded m
    → (env : Env) → IsValid loaded (poll_connection_attempt env m)
unfolding poll_connection_attempt
poll_connection_attempt-IsValid {loaded} {m} v env = elim (Option-cases m.connect_result) [
  | inl pending ↦ ground arith
  | inr (result, posted) ↦ elim (Bool-cases m.connect_in_flight) [
    | inl flying ↦ ground (arith, connection_result-IsValid v env result flying posted)
    | inr still ↦ ground arith
  ]
]
