-- ===== src/Pairing/Frame.antt =====
-- How the lines of the bridge act on the connection attempt and on the unread bytes.
use cardputer_codex_deck.Base.{
  ℕ, zero, suc, ◌≡◌, ap, true, [], ◌∷◌, ◌++◌, arith, inl, inr, ◌==◌, ltb, Option-cases, List-cases,
  if_both, is_empty, if◌then◌else◌, length, ◌≤◌, get_elem?, Text, text,
}
use cardputer_codex_deck.Models.{LinkState, reconnect_min_ms}
use cardputer_codex_deck.Pairing.State.{
  PairingManager, Env, Document, save_paired_macs, paired_index_by_id,
}
use cardputer_codex_deck.Pairing.Token.{set_audio_ready}
use cardputer_codex_deck.Pairing.Send.{
  send_document, request_agent_list, hello_document, agent_list_request, pong_document,
}
use cardputer_codex_deck.Pairing.Link.{
  token_of, schedule_reconnect, cancel_connection_attempt, connection_lost, persist_last_mac,
  send_hello,
}
use cardputer_codex_deck.Pairing.Snapshot.{
  Json, or_else, parse_bridge_metadata, parse_agent_snapshot,
}
use cardputer_codex_deck.Pairing.Receive.{
  put_paired, link_up, forget_token, on_pong, on_upgrade_required, on_pair_required, on_paired,
  on_hello_ok, on_auth_error, dispatch, handle_line, read_byte, read_loop, read_incoming,
}

-- The attempt in flight, its worker, its result and the generation are as they were, and no unread
-- byte was added.
pub record MessageFrame (m m' : PairingManager) : Type 0 where
  pub flight : m'.connect_in_flight ≡ m.connect_in_flight
  pub task : m'.task ≡ m.task
  pub result : m'.connect_result ≡ m.connect_result
  pub generation : m'.connect_generation ≡ m.connect_generation
  pub unread : length m'.client.rx ≤ length m.client.rx

pub MessageFrame-refl : (m : PairingManager) → MessageFrame m m
MessageFrame-refl m = ground arith

pub MessageFrame-trans :
    {m n o : PairingManager} → MessageFrame m n → MessageFrame n o → MessageFrame m o
MessageFrame-trans s t = ground arith

module _ (m : PairingManager) where
  pub send_document-MessageFrame :
      (env : Env) (document : Document) → MessageFrame m (send_document env document m).0
  unfolding send_document
  send_document-MessageFrame env document = ground arith

module _ (m : PairingManager) where
  pub connection_lost-MessageFrame : (env : Env) → MessageFrame m (connection_lost env m)
  unfolding connection_lost cancel_connection_attempt schedule_reconnect set_audio_ready
  connection_lost-MessageFrame env = ground arith

  persist_last_mac-MessageFrame : (id : Text) → MessageFrame m (persist_last_mac id m)
  unfolding persist_last_mac
  persist_last_mac-MessageFrame id = ground arith

  forget_token-MessageFrame : MessageFrame m (forget_token m)
  unfolding forget_token
  forget_token-MessageFrame = elim (Option-cases (paired_index_by_id m.paired m.target_id)) [
    | inl absent ↦ rw (absent, forget_token) (MessageFrame-refl m)
    | inr (i, found) ↦ elim (Option-cases (get_elem? m.paired i)) [
      | inl outside ↦ rw (found, outside, forget_token) (MessageFrame-refl m)
      | inr (mac, at) ↦ rw (found, at, forget_token) (ground arith)
    ]
  ]

module _ (m : PairingManager) where
  send_hello-MessageFrame : (env : Env) → MessageFrame m (send_hello env m)
  unfolding send_hello
  send_hello-MessageFrame env =
      let token = token_of m m.target_id in
      let t : PairingManager = record m { target_token = token } in
      let doc = hello_document m.device_id token in
      let s : MessageFrame t (send_document env doc t).0 = send_document-MessageFrame t env doc in
      ground (arith, connection_lost-MessageFrame (send_document env doc t).0 env)

  link_up-MessageFrame : (env : Env) (name : Text) → MessageFrame m (link_up env name m)
  unfolding link_up request_agent_list set_audio_ready
  link_up-MessageFrame env name =
      let c =
        set_audio_ready true (record m { connected_name = name; state = LinkState.connected }) in
      let d : PairingManager = record c { reconnect_delay_ms = reconnect_min_ms } in
      let s = send_document-MessageFrame d env agent_list_request in
      let r = (send_document env agent_list_request d).0 in
      ground (arith, persist_last_mac-MessageFrame r r.target_id)

module _ (json : Json) (m : PairingManager) where
  on_paired-MessageFrame :
      (env : Env) (document : json.Variant) → MessageFrame m (on_paired json env document m)
  unfolding on_paired
  on_paired-MessageFrame env document =
      let token = json.as_text (json.get document (text "token")) in
      let name = or_else (json.text? (json.get document (text "mac_name"))) m.target_name in
      let d : PairingManager = record m { bridge = parse_bridge_metadata json document } in
      let t : PairingManager = record d { target_token = token } in
      let paired =
        put_paired (paired_index_by_id m.paired m.target_id)
          (record { id = m.target_id; name = name; token = token }) m.paired in
      let k : PairingManager = record t {
        paired = paired;
        store = save_paired_macs paired ∷ m.store;
      } in
      let short : MessageFrame m (connection_lost env d) =
        ground (arith, connection_lost-MessageFrame d env) in
      let full : MessageFrame m (connection_lost env t) =
        ground (arith, connection_lost-MessageFrame t env) in
      let up : MessageFrame m (link_up env name k) =
        ground (arith, link_up-MessageFrame k env name) in
      if_both (MessageFrame m) (ltb (length token) 64) short (if_both (MessageFrame m) _ full up)

  dispatch-MessageFrame :
      (env : Env) (type : Text) (document : json.Variant)
      → MessageFrame m (dispatch json env type document m)
  unfolding dispatch on_pong on_upgrade_required set_audio_ready on_pair_required on_hello_ok
      on_auth_error
  dispatch-MessageFrame env type document =
      let P = MessageFrame m in
      let pong : P (on_pong json env document m) = ground arith in
      let upgrade : P (on_upgrade_required json document m) = ground arith in
      let required : P (on_pair_required json document m) = ground arith in
      let refused : P (record m { state = LinkState.awaiting_pair_code }) = ground arith in
      let known : PairingManager = record m { bridge = parse_bridge_metadata json document } in
      let name = or_else (json.text? (json.get document (text "mac_name"))) m.target_name in
      let ok : P (link_up env name known) = ground (arith, link_up-MessageFrame known env name) in
      let f = forget_token m in
      let g : PairingManager = record f {
        target_token = [];
        state = LinkState.awaiting_pair_code;
      } in
      let auth : P (send_hello env g) =
        ground (arith, forget_token-MessageFrame m, send_hello-MessageFrame g env) in
      let agents : P (record m { agents = parse_agent_snapshot json document m.agents }) =
        ground arith in
      if_both P _ pong (
        if_both P _ (send_document-MessageFrame m env pong_document) (
          if_both P _ upgrade (
            if_both P _ required (
              if_both P _ refused (
                if_both P _ (on_paired-MessageFrame env document) (
                  if_both P _ ok (if_both P _ auth (if_both P _ agents (MessageFrame-refl m)))))))))

  pub handle_line-MessageFrame :
      (env : Env) (line : Text) → MessageFrame m (handle_line json env line m)
  unfolding handle_line
  handle_line-MessageFrame env line = elim (Option-cases (json.parse line)) [
    | inl garbage ↦ rw (garbage, handle_line) (MessageFrame-refl m)
    | inr (document, parsed) ↦
        rw (parsed, handle_line)
          (if_both (MessageFrame m) _ (MessageFrame-refl m) (dispatch-MessageFrame env _ document))
  ]

  pub read_byte-MessageFrame : (env : Env) (c : ℕ) → MessageFrame m (read_byte json env c m)
  unfolding read_byte
  read_byte-MessageFrame env c =
      let acted : PairingManager =
        if is_empty m.incoming then m else handle_line json env m.incoming m in
      let handled : MessageFrame m acted =
        if_both (MessageFrame m) (is_empty m.incoming) (MessageFrame-refl m)
          (handle_line-MessageFrame env m.incoming) in
      let ended : MessageFrame m (record acted { incoming = [] }) = ground arith in
      let grown : Text = if ltb (length m.incoming) 4096 then m.incoming ++ c ∷ [] else [] in
      let kept : MessageFrame m (record m { incoming = grown }) = ground arith in
      if_both (MessageFrame m) (c == b'\n') ended
        (if_both (MessageFrame m) (c == b'\r') (MessageFrame-refl m) kept)

read_loop-MessageFrame :
    (json : Json) (fuel : ℕ) (env : Env) (m : PairingManager)
    → MessageFrame m (read_loop json fuel env m)
unfolding read_loop
read_loop-MessageFrame json zero env m = MessageFrame-refl m
read_loop-MessageFrame json (suc fuel) env m = elim (List-cases m.client.rx) [
  | inl empty ↦ simp (empty, read_loop) (MessageFrame-refl m)
  | inr (c, rest, e) ↦
      let s = m.client in
      let t : PairingManager = record m { client = record s { rx = rest } } in
      let first : MessageFrame m (read_byte json env c t) =
        ground (arith, read_byte-MessageFrame json t env c) in
      simp (e, read_loop)
        (MessageFrame-trans first (read_loop-MessageFrame json fuel env (read_byte json env c t)))
]

-- Nothing that the bridge sends starts, ends or renumbers a connection attempt, or adds unread
-- bytes.
pub read_incoming-MessageFrame :
    (json : Json) (env : Env) (m : PairingManager) → MessageFrame m (read_incoming json env m)
unfolding read_incoming
read_incoming-MessageFrame json env m = read_loop-MessageFrame json (length m.client.rx) env m

read_loop-empty :
    (json : Json) (fuel : ℕ) (env : Env) (m : PairingManager)
    → length m.client.rx ≤ fuel
    → length (read_loop json fuel env m).client.rx ≡ 0
unfolding read_loop
read_loop-empty json zero env m h = omega arith
read_loop-empty json (suc fuel) env m h = elim (List-cases m.client.rx) [
  | inl empty ↦ rw (empty, read_loop) (ap length empty)
  | inr (c, rest, e) ↦
      let s = m.client in
      let t : PairingManager = record m { client = record s { rx = rest } } in
      let fewer = (read_byte-MessageFrame json t env c).unread in
      let enough : length rest ≤ fuel = ground arith in
      simp (e, read_loop) (read_loop-empty json fuel env (read_byte json env c t) (omega arith))
]

-- `readIncoming` ends with no byte unread, whatever the lines do to the link, after at most one
-- round for each byte that was there.
pub read_incoming-empty :
    (json : Json) (env : Env) (m : PairingManager) → length (read_incoming json env m).client.rx ≡ 0
unfolding read_incoming
read_incoming-empty json env m = read_loop-empty json (length m.client.rx) env m (omega arith)
