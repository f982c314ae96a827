-- ===== src/Pairing/Receive.antt =====
-- firmware/m5stack-cardputer-adv/src/pairing.cpp: `readIncoming` splits the socket's bytes into
-- lines, and `handleLine` acts on one message.
use cardputer_codex_deck.Base.{
  ℕ, zero, suc, Bool, true, false, ◌&&◌, ◌||◌, not, Option, none, some, List, [], ◌∷◌, ◌++◌, Text,
  text, text_eq, is_empty, ◌==◌, ltb, leb, if◌then◌else◌, length, get_elem?, set,
}
use cardputer_codex_deck.Models.{PairedMac, LinkState, max_paired_macs, reconnect_min_ms}
use cardputer_codex_deck.Pairing.State.{
  PairingManager, Env, save_paired_macs, is_connected, paired_index_by_id, stop,
}
use cardputer_codex_deck.Pairing.Token.{set_audio_ready}
use cardputer_codex_deck.Pairing.Send.{send_document, pong_document, request_agent_list}
use cardputer_codex_deck.Pairing.Link.{connection_lost, persist_last_mac, send_hello}
use cardputer_codex_deck.Pairing.Snapshot.{
  Json, or_else, parse_bridge_metadata, parse_agent_snapshot,
}

abbrev pub is_any : Text → List Text → Bool
is_any t [] = false
is_any t (u ∷ us) = text_eq t u || is_any t us

-- `paired_[index] = ...` at an index below the count, or at the count, which grows by one.
unfoldable pub put_paired : Option ℕ → PairedMac → List PairedMac → List PairedMac
put_paired none mac paired = paired ++ mac ∷ []
put_paired (some i) mac paired = set paired i mac

-- The two blocks that end `paired` and `hello_ok`.
unfoldable pub link_up : Env → Text → PairingManager → PairingManager
link_up env name m =
    let c =
      set_audio_ready true (record m { connected_name = name; state = LinkState.connected }) in
    let r = request_agent_list env (record c { reconnect_delay_ms = reconnect_min_ms }) in
    persist_last_mac r.target_id r

-- The token is cleared in the entry of `targetId_`, and the list is saved.
unfoldable pub forget_token : PairingManager → PairingManager
forget_token m = elim (paired_index_by_id m.paired m.target_id) [
  | none ↦ m
  | some i ↦ elim (get_elem? m.paired i) [
    | none ↦ m
    | some mac ↦
        let paired = set m.paired i (record mac { token = [] }) in
        record m { paired = paired; store = save_paired_macs paired ∷ m.store }
  ]
]

unfoldable pub on_auth_error : Env → PairingManager → PairingManager
on_auth_error env m =
    send_hello env
      (record (forget_token m) { target_token = []; state = LinkState.awaiting_pair_code })

module _ (json : Json) where
  open json use {Variant, parse, get, as_text, text?, uint?, bool?}

  unfoldable pub on_pong : Env → Variant → PairingManager → PairingManager
  on_pong env document m = elim (uint? (get document (text "audio_received"))) [
    | none ↦ record m { missed_pongs = 0 }
    | some received ↦
        let a = m.audio in
        record m {
          missed_pongs = 0;
          audio = record a {
            status_seen = true;
            output_ready = or_else (bool? (get document (text "audio_output_ready"))) false;
            received = received;
            status_ms = env.now;
          };
        }
  ]

  unfoldable pub on_upgrade_required : Variant → PairingManager → PairingManager
  on_upgrade_required document m =
      let c = m.client in
      let d = set_audio_ready false (record m {
        compatibility_reason =
            or_else (text? (get document (text "reason"))) (text "version_mismatch");
        required_firmware =
            or_else (text? (get (get document (text "required")) (text "min_firmware"))) [];
        bridge = parse_bridge_metadata json document;
        client = stop c;
        incoming = [];
        connected_name = m.target_name;
        state = LinkState.incompatible;
        agents = record m.agents { online = false };
      }) in
      record d { manual_disconnect = true; missed_pongs = 0 }

  unfoldable pub on_pair_required : Variant → PairingManager → PairingManager
  on_pair_required document m =
      let name = or_else (text? (get document (text "mac_name"))) m.target_name in
      record m {
        bridge = parse_bridge_metadata json document;
        target_name = name;
        connected_name = name;
        state = LinkState.awaiting_pair_code;
      }

  unfoldable pub on_paired : Env → Variant → PairingManager → PairingManager
  on_paired env document m =
      let token = as_text (get document (text "token")) in
      let d : PairingManager = record m { bridge = parse_bridge_metadata json document } in
      let t : PairingManager = record d { target_token = token } in
      let index = paired_index_by_id m.paired m.target_id in
      let name = or_else (text? (get document (text "mac_name"))) m.target_name in
      let paired =
        put_paired index (record { id = m.target_id; name = name; token = token }) m.paired in
      let full : Bool = elim index [
        | none ↦ leb max_paired_macs (length m.paired)
        | some _ ↦ false
      ] in
      if ltb (length token) 64
      then connection_lost env d
      else if full
      then connection_lost env t
      else link_up env name
          (record t { paired = paired; store = save_paired_macs paired ∷ m.store })

  unfoldable pub on_hello_ok : Env → Variant → PairingManager → PairingManager
  on_hello_ok env document m =
      link_up env (or_else (text? (get document (text "mac_name"))) m.target_name)
        (record m { bridge = parse_bridge_metadata json document })

  -- Connected, the four routine messages count only with the link's token.
  unfoldable pub is_unauthenticated : PairingManager → Text → Variant → Bool
  is_unauthenticated m type document =
      is_connected m.state
      && is_any type (text "ping" ∷ text "pong" ∷ text "agent_status" ∷ text "agent_list" ∷ [])
      && not (text_eq (as_text (get document (text "token"))) m.target_token)

  -- The ladder of `handleLine` on the type.
  unfoldable pub dispatch : Env → Text → Variant → PairingManager → PairingManager
  dispatch env type document m =
      if text_eq type (text "pong")
      then on_pong env document m
      else if text_eq type (text "ping")
      then (send_document env pong_document m).0
      else if text_eq type (text "upgrade_required")
      then on_upgrade_required document m
      else if text_eq type (text "pair_required")
      then on_pair_required document m
      else if text_eq type (text "pair_error")
      then record m { state = LinkState.awaiting_pair_code }
      else if text_eq type (text "paired")
      then on_paired env document m
      else if text_eq type (text "hello_ok")
      then on_hello_ok env document m
      else if text_eq type (text "auth_error")
      then on_auth_error env m
      else if is_any type (text "agent_status" ∷ text "agent_list" ∷ [])
      then record m { agents = parse_agent_snapshot json document m.agents }
      else m

  unfoldable pub handle_line : Env → Text → PairingManager → PairingManager
  handle_line env line m = elim (parse line) [
    | none ↦ m
    | some document ↦
        let type = as_text (get document (text "t")) in
        if is_unauthenticated m type document then m else dispatch env type document m
  ]

  -- One byte of the loop of `readIncoming`, taken off the socket.
  unfoldable pub read_byte : Env → ℕ → PairingManager → PairingManager
  read_byte env c m =
      if c == b'\n'
      then record (if is_empty m.incoming then m else handle_line env m.incoming m) {
        incoming = [];
      }
      else if c == b'\r'
      then m
      else record m { incoming = if ltb (length m.incoming) 4096 then m.incoming ++ c ∷ [] else [] }

  -- The loop, with fuel for each unread byte.
  unfoldable pub read_loop : ℕ → Env → PairingManager → PairingManager
  read_loop zero env m = m
  read_loop (suc fuel) env m = elim m.client.rx [
    | [] ↦ m
    | c ∷ rest ↦
        let s = m.client in
        read_loop fuel env (read_byte env c (record m { client = record s { rx = rest } }))
  ]

  unfoldable pub read_incoming : Env → PairingManager → PairingManager
  read_incoming env m = read_loop (length m.client.rx) env m
