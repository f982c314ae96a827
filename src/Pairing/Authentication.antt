-- ===== src/Pairing/Authentication.antt =====
-- Who can replace the agent snapshot of an authenticated link: `handleLine`.
use cardputer_codex_deck.Base.{
  ◌≡◌, refl, ◌⊎◌, inl, inr, true, false, some, List, [], ◌∷◌, arith, Text, text, text_eq→eq, ltb,
  length, get_elem?, Option-cases, Bool-cases, if_both, if◌then◌else◌,
}
use cardputer_codex_deck.Models.{LinkState, reconnect_min_ms}
use cardputer_codex_deck.Pairing.State.{
  PairingManager, Env, Document, Agents, save_paired_macs, paired_index_by_id,
}
use cardputer_codex_deck.Pairing.Token.{set_audio_ready}
use cardputer_codex_deck.Pairing.Send.{
  send_document, request_agent_list, hello_document, agent_list_request, pong_document,
}
use cardputer_codex_deck.Pairing.Link.{
  token_of, schedule_reconnect, connection_lost, persist_last_mac, send_hello,
}
use cardputer_codex_deck.Pairing.Snapshot.{
  Json, or_else, parse_bridge_metadata, parse_agent_snapshot,
}
use cardputer_codex_deck.Pairing.Receive.{
  is_any, put_paired, link_up, forget_token, on_pong, on_upgrade_required, on_pair_required,
  on_paired, on_hello_ok, on_auth_error, is_unauthenticated, dispatch, handle_line,
}

-- The agents are as they were, or are marked offline.
abbrev pub AgentsKept : Agents → PairingManager → Type 0
AgentsKept a n = (n.agents ≡ a) ⊎ (n.agents.online ≡ false)

module _ (a : Agents) (m : PairingManager) where
  send_document-AgentsKept :
      (env : Env) (document : Document)
      → AgentsKept a m
      → AgentsKept a (send_document env document m).0
  unfolding send_document
  send_document-AgentsKept env document k = ground arith

  connection_lost-AgentsKept : (env : Env) → AgentsKept a (connection_lost env m)
  unfolding connection_lost schedule_reconnect set_audio_ready
  connection_lost-AgentsKept env = inr refl

  persist_last_mac-AgentsKept : (id : Text) → AgentsKept a m → AgentsKept a (persist_last_mac id m)
  unfolding persist_last_mac
  persist_last_mac-AgentsKept id k = ground arith

  forget_token-AgentsKept : AgentsKept a m → AgentsKept a (forget_token m)
  unfolding forget_token
  forget_token-AgentsKept k = elim (Option-cases (paired_index_by_id m.paired m.target_id)) [
    | inl absent ↦ rw (absent, forget_token) k
    | inr (i, found) ↦ elim (Option-cases (get_elem? m.paired i)) [
      | inl outside ↦ rw (found, outside, forget_token) k
      | inr (mac, at) ↦ rw (found, at, forget_token) k
    ]
  ]

module _ (a : Agents) (m : PairingManager) (k : AgentsKept a m) where
  send_hello-AgentsKept : (env : Env) → AgentsKept a (send_hello env m)
  unfolding send_hello
  send_hello-AgentsKept env =
      let token = token_of m m.target_id in
      let t : PairingManager = record m { target_token = token } in
      let doc = hello_document m.device_id token in
      let s : AgentsKept a (send_document env doc t).0 = send_document-AgentsKept a t env doc k in
      let lost = connection_lost-AgentsKept a (send_document env doc t).0 env in
      if_both (AgentsKept a) _ lost s

  link_up-AgentsKept : (env : Env) (name : Text) → AgentsKept a (link_up env name m)
  unfolding link_up request_agent_list set_audio_ready
  link_up-AgentsKept env name =
      let c =
        set_audio_ready true (record m { connected_name = name; state = LinkState.connected }) in
      let d : PairingManager = record c { reconnect_delay_ms = reconnect_min_ms } in
      let r = (send_document env agent_list_request d).0 in
      persist_last_mac-AgentsKept a r r.target_id
        (send_document-AgentsKept a d env agent_list_request k)

-- What a line may do to the agents of a connected link.
abbrev pub FromLink : (json : Json) → PairingManager → Text → PairingManager → Type 0
FromLink json m line n =
    AgentsKept m.agents n
    ⊎ ((document : json.Variant) × (json.parse line ≡ some document)
        × (json.as_text (json.get document (text "token")) ≡ m.target_token)
        × (n.agents ≡ parse_agent_snapshot json document m.agents))

abbrev reports : List Text
reports = text "agent_status" ∷ text "agent_list" ∷ []

module _ (json : Json) (m : PairingManager) where
  on_paired-AgentsKept :
      (env : Env) (document : json.Variant) → AgentsKept m.agents (on_paired json env document m)
  unfolding on_paired
  on_paired-AgentsKept env document =
      let token = json.as_text (json.get document (text "token")) in
      let name = or_else (json.text? (json.get document (text "mac_name"))) m.target_name in
      let d : PairingManager = record m { bridge = parse_bridge_metadata json document } in
      let t : PairingManager = record d { target_token = token } in
      let paired =
        put_paired (paired_index_by_id m.paired m.target_id)
          (record { id = m.target_id; name = name; token = token }) m.paired in
      let k : PairingManager = record t {
        paired = paired;
        store = save_paired_macs paired ∷ m.store;
      } in
      let P = AgentsKept m.agents in
      let short : P (connection_lost env d) = connection_lost-AgentsKept m.agents d env in
      let full : P (connection_lost env t) = connection_lost-AgentsKept m.agents t env in
      let up : P (link_up env name k) = link_up-AgentsKept m.agents k (inl refl) env name in
      if_both P (ltb (length token) 64) short (if_both P _ full up)

  -- What one branch of the ladder does to the agents.
  record Branch (type : Text) (document : json.Variant) (n : PairingManager) : Type 0 where
    cases :
        AgentsKept m.agents n
        ⊎ ((is_any type reports ≡ true) × (n.agents ≡ parse_agent_snapshot json document m.agents))

  dispatch-Branch :
      (env : Env) (type : Text) (document : json.Variant)
      → Branch type document (dispatch json env type document m)
  unfolding dispatch on_pong on_upgrade_required set_audio_ready on_pair_required on_hello_ok
      on_auth_error
  dispatch-Branch env type document =
      let P = Branch type document in
      let kept : (n : PairingManager) → AgentsKept m.agents n → P n =
        λ n h. record { cases = inl h } in
      let pong : P (on_pong json env document m) = kept _ (ground arith) in
      let ping : P (send_document env pong_document m).0 =
        kept _ (send_document-AgentsKept m.agents m env pong_document (inl refl)) in
      let upgrade : P (on_upgrade_required json document m) = kept _ (inr refl) in
      let required : P (on_pair_required json document m) = kept _ (inl refl) in
      let refused : P (record m { state = LinkState.awaiting_pair_code }) = kept _ (inl refl) in
      let known : PairingManager = record m { bridge = parse_bridge_metadata json document } in
      let name = or_else (json.text? (json.get document (text "mac_name"))) m.target_name in
      let ok : P (link_up env name known) =
        kept _ (link_up-AgentsKept m.agents known (inl refl) env name) in
      let forgot : PairingManager = record (forget_token m) {
        target_token = [];
        state = LinkState.awaiting_pair_code;
      } in
      let auth : P (send_hello env forgot) = kept _ (
        send_hello-AgentsKept m.agents forgot (forget_token-AgentsKept m.agents m (inl refl))
          env) in
      let paired : P (on_paired json env document m) = kept _ (on_paired-AgentsKept env document) in
      let snapshot : PairingManager = record m {
        agents = parse_agent_snapshot json document m.agents;
      } in
      let last : P (if is_any type reports then snapshot else m) =
        elim (Bool-cases (is_any type reports)) [
          | inl report ↦ rw report (record { cases = inr (report, refl) })
          | inr other ↦ rw other (kept m (inl refl))
        ] in
      if_both P _ pong (
        if_both P _ ping (
          if_both P _ upgrade (
            if_both P _ required
              (if_both P _ refused (if_both P _ paired (if_both P _ ok (if_both P _ auth last)))))))

-- While the link is connected, a line either leaves the agents as they are, or marks them offline,
-- or is a document with the link's own token, whose snapshot is merged into them.
pub handle_line-FromLink :
    (json : Json) (env : Env) (line : Text) (m : PairingManager)
    → m.state ≡ LinkState.connected
    → FromLink json m line (handle_line json env line m)
unfolding handle_line is_unauthenticated
handle_line-FromLink json env line m connected = elim (Option-cases (json.parse line)) [
  | inl garbage ↦ rw (garbage, handle_line) (inl (inl refl))
  | inr (document, parsed) ↦
      let type = json.as_text (json.get document (text "t")) in
      let token = json.as_text (json.get document (text "token")) in
      let n = dispatch json env type document m in
      rw (parsed, handle_line)
        (elim (Bool-cases (is_unauthenticated json m type document)) [
          | inl stranger ↦ rw stranger (inl (inl refl))
          | inr known ↦ rw known (elim (dispatch-Branch json m env type document).cases [
            | inl kept ↦ inl kept
            | inr (report, merged) ↦
                let same : token ≡ m.target_token =
                  text_eq→eq token m.target_token (ground arith) in
                inr (document, refl, same, merged)
          ])
        ])
]
