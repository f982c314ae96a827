-- ===== src/Pairing/Invariant/Receive.antt =====
-- The invariant across what the bridge sends (Pairing/Receive).
use cardputer_codex_deck.Base.{
  ℕ, zero, suc, ◌+◌, ◌≤◌, refl, true, List, [], ◌∷◌, ◌++◌, arith, inl, inr, Option-cases,
  List-cases, sym, sym, Bool-cases, length, length-append, if_both, is_empty, if◌then◌else◌, Text,
  text, length-set, leb, ltb, ◌==◌,
}
use cardputer_codex_deck.Models.{
  PairedMac, LinkState, max_paired_macs, max_agent_sessions, reconnect_min_ms,
}
use cardputer_codex_deck.Pairing.State.{PairingManager, Env, paired_index_by_id}
use cardputer_codex_deck.Pairing.Token.{set_audio_ready}
use cardputer_codex_deck.Pairing.Send.{agent_list_request, pong_document, request_agent_list}
use cardputer_codex_deck.Pairing.Snapshot.{
  Json, or_else, parse_bridge_metadata, parse_agents, parse_agent_snapshot,
}
use cardputer_codex_deck.Pairing.Receive.{
  put_paired, link_up, forget_token, on_pong, on_upgrade_required, on_pair_required, on_paired,
  on_hello_ok, on_auth_error, dispatch, handle_line, read_byte, read_loop, read_incoming,
}
use cardputer_codex_deck.Pairing.Invariant.{IsValid}
use cardputer_codex_deck.Pairing.Invariant.Ids.{
  get_elem?-paired_index_by_id, Distinct-set, Distinct-append,
}
use cardputer_codex_deck.Pairing.Invariant.Link.{
  set_audio_ready-IsValid, send_document-IsValid, persist_last_mac-IsValid, connection_lost-IsValid,
  send_hello-IsValid,
}

module _ {loaded : List PairedMac} {m : PairingManager} (v : IsValid loaded m) where
  link_up-IsValid : (env : Env) (name : Text) → IsValid loaded (link_up env name m)
  unfolding link_up request_agent_list
  link_up-IsValid env name =
      let n : PairingManager = record m { connected_name = name; state = LinkState.connected } in
      let vn : IsValid loaded n = ground arith in
      let c = set_audio_ready true n in
      let vc = set_audio_ready-IsValid vn true in
      let vr : IsValid loaded (record c { reconnect_delay_ms = reconnect_min_ms }) = ground arith in
      persist_last_mac-IsValid (send_document-IsValid vr env agent_list_request) _

  forget_token-IsValid : IsValid loaded (forget_token m)
  unfolding forget_token
  forget_token-IsValid = elim (Option-cases (paired_index_by_id m.paired m.target_id)) [
    | inl absent ↦ rw (absent, forget_token) v
    | inr (i, found) ↦
        let (mac, at, same) = get_elem?-paired_index_by_id m.paired m.target_id found in
        let cleared : PairedMac = record mac { token = [] } in
        rw (found, at, forget_token)
          (ground (
            arith,
            length-set m.paired i cleared,
            Distinct-set m.paired i mac cleared at refl v.paired_distinct,
          ))
  ]

module _ (json : Json) {loaded : List PairedMac} {m : PairingManager} (v : IsValid loaded m) where
  on_pong-IsValid :
      (env : Env) (document : json.Variant) → IsValid loaded (on_pong json env document m)
  unfolding on_pong
  on_pong-IsValid env document = ground arith

  on_upgrade_required-IsValid :
      (document : json.Variant) → IsValid loaded (on_upgrade_required json document m)
  unfolding on_upgrade_required set_audio_ready
  on_upgrade_required-IsValid document = ground arith

  on_pair_required-IsValid :
      (document : json.Variant) → IsValid loaded (on_pair_required json document m)
  unfolding on_pair_required
  on_pair_required-IsValid document = ground arith

  on_hello_ok-IsValid :
      (env : Env) (document : json.Variant) → IsValid loaded (on_hello_ok json env document m)
  unfolding on_hello_ok
  on_hello_ok-IsValid env document = link_up-IsValid (ground arith) env _

  on_auth_error-IsValid : (env : Env) → IsValid loaded (on_auth_error env m)
  unfolding on_auth_error
  on_auth_error-IsValid env =
      let f = forget_token-IsValid v in send_hello-IsValid (ground arith) env

  -- The entry of a new token: given anew under its id, or appended while there is room.
  on_paired-IsValid :
      (env : Env) (document : json.Variant) → IsValid loaded (on_paired json env document m)
  unfolding on_paired put_paired
  on_paired-IsValid env document =
      let token = json.as_text (json.get document (text "token")) in
      let name = or_else (json.text? (json.get document (text "mac_name"))) m.target_name in
      let mac : PairedMac = record { id = m.target_id; name = name; token = token } in
      let b = parse_bridge_metadata json document in
      let d : PairingManager = record m { bridge = b } in
      let t : PairingManager = record d { target_token = token } in
      let vd : IsValid loaded d = ground arith in
      let vt : IsValid loaded t = ground arith in
      if_both (IsValid loaded) (ltb (length token) 64) (connection_lost-IsValid vd env)
        (elim (Option-cases (paired_index_by_id m.paired m.target_id)) [
          | inl absent ↦ rw absent (elim (Bool-cases (leb max_paired_macs (length m.paired))) [
            | inl full ↦ simp full (connection_lost-IsValid vt env)
            | inr room ↦
                let paired = m.paired ++ mac ∷ [] in
                simp room (
                  link_up-IsValid
                    (ground (
                      arith,
                      length-append m.paired (mac ∷ []),
                      Distinct-append m.paired mac absent v.paired_distinct,
                    ))
                    env name)
          ])
          | inr (i, found) ↦
              let (old, at, same) = get_elem?-paired_index_by_id m.paired m.target_id found in
              rw found (
                link_up-IsValid
                  (ground (
                    arith,
                    length-set m.paired i mac,
                    Distinct-set m.paired i old mac at (sym same) v.paired_distinct,
                  ))
                  env name)
        ])

  parse_agents-bound :
      (count : ℕ) (items : List json.Variant)
      → count ≤ max_agent_sessions
      → count + length (parse_agents json count items) ≤ max_agent_sessions
  unfolding parse_agents
  parse_agents-bound count [] h = omega arith
  parse_agents-bound count (item ∷ rest) h = ground (arith, parse_agents-bound (count + 1) rest)

  on_agents-IsValid :
      (document : json.Variant)
      → IsValid loaded (record m { agents = parse_agent_snapshot json document m.agents })
  unfolding parse_agent_snapshot
  on_agents-IsValid document =
      ground (arith, parse_agents-bound 0 (json.items (json.get document (text "items"))))

  dispatch-IsValid :
      (env : Env) (type : Text) (document : json.Variant)
      → IsValid loaded (dispatch json env type document m)
  unfolding dispatch
  dispatch-IsValid env type document =
      let refused : IsValid loaded (record m { state = LinkState.awaiting_pair_code }) =
        ground arith in
      if_both (IsValid loaded) _ (on_pong-IsValid env document) (
        if_both (IsValid loaded) _ (send_document-IsValid v env pong_document) (
          if_both (IsValid loaded) _ (on_upgrade_required-IsValid document) (
            if_both (IsValid loaded) _ (on_pair_required-IsValid document) (
              if_both (IsValid loaded) _ refused (
                if_both (IsValid loaded) _ (on_paired-IsValid env document) (
                  if_both (IsValid loaded) _ (on_hello_ok-IsValid env document) (
                    if_both (IsValid loaded) _ (on_auth_error-IsValid env)
                      (if_both (IsValid loaded) _ (on_agents-IsValid document) v))))))))

  handle_line-IsValid : (env : Env) (line : Text) → IsValid loaded (handle_line json env line m)
  unfolding handle_line
  handle_line-IsValid env line = elim (Option-cases (json.parse line)) [
    | inl garbage ↦ rw (garbage, handle_line) v
    | inr (document, parsed) ↦
        rw (parsed, handle_line) (if_both (IsValid loaded) _ v (dispatch-IsValid env _ document))
  ]

  read_byte-IsValid : (env : Env) (c : ℕ) → IsValid loaded (read_byte json env c m)
  unfolding read_byte
  read_byte-IsValid env c =
      let acted : PairingManager =
        if is_empty m.incoming then m else handle_line json env m.incoming m in
      let handled : IsValid loaded acted =
        if_both (IsValid loaded) (is_empty m.incoming) v (handle_line-IsValid env m.incoming) in
      let ended : IsValid loaded (record acted { incoming = [] }) = ground arith in
      let grown : Text = if ltb (length m.incoming) 4096 then m.incoming ++ c ∷ [] else [] in
      let kept : IsValid loaded (record m { incoming = grown }) =
        ground (arith, length-append m.incoming (c ∷ [])) in
      if_both (IsValid loaded) (c == b'\n') ended (if_both (IsValid loaded) (c == b'\r') v kept)

read_loop-IsValid :
    (json : Json) (fuel : ℕ) (env : Env) {loaded : List PairedMac} (m : PairingManager)
    → IsValid loaded m
    → IsValid loaded (read_loop json fuel env m)
unfolding read_loop
read_loop-IsValid json zero env m v = v
read_loop-IsValid json (suc fuel) env {loaded} m v = elim (List-cases m.client.rx) [
  | inl empty ↦ simp (empty, read_loop) v
  | inr (c, rest, e) ↦
      let s = m.client in
      let t : PairingManager = record m { client = record s { rx = rest } } in
      let vt : IsValid loaded t = ground arith in
      simp (e, read_loop)
        (read_loop-IsValid json fuel env (read_byte json env c t) (read_byte-IsValid json vt env c))
]

pub read_incoming-IsValid :
    (json : Json) (env : Env) {loaded : List PairedMac} {m : PairingManager}
    → IsValid loaded m
    → IsValid loaded (read_incoming json env m)
unfolding read_incoming
read_incoming-IsValid json env {loaded} {m} v = read_loop-IsValid json (length m.client.rx) env m v
