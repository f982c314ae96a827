-- ===== src/Pairing/Session.antt =====
-- How a session begins and how a silent one ends.
use cardputer_codex_deck.Base.{
  ℕ, ◌≤◌, ◌<◌, ◌≡◌, refl, ◌∙◌, ap, inl, inr, Bool, true, false, ◌&&◌, ◌||◌, not, Option, none, some,
  ◌∷◌, arith, Text, text, ◌==◌, ltb, leb, length, Bool-cases, get_elem?,
}
use cardputer_codex_deck.Models.{
  DeviceSettings, PairedMac, LinkState, max_paired_macs, reconnect_min_ms,
}
use cardputer_codex_deck.Pairing.State.{PairingManager, Env, paired_index_by_id, save_paired_macs}
use cardputer_codex_deck.Pairing.Token.{set_audio_ready}
use cardputer_codex_deck.Pairing.Send.{send_document, request_agent_list}
use cardputer_codex_deck.Pairing.Link.{
  schedule_reconnect, cancel_connection_attempt, connection_lost, persist_last_mac, token_of,
}
use cardputer_codex_deck.Pairing.Discovery.{is_none}
use cardputer_codex_deck.Pairing.Snapshot.{Json, or_else, parse_bridge_metadata}
use cardputer_codex_deck.Pairing.Receive.{put_paired, link_up, on_paired, on_hello_ok}
use cardputer_codex_deck.Pairing.Invariant.Ids.{put_paired-found}
use cardputer_codex_deck.Pairing.Decode.{all_hex, set_audio_ready-ready}

-- The settings hold the Mac's id, where there are settings.
abbrev pub Remembers : Text → Option DeviceSettings → Type 0
Remembers id none = Unit {0}
Remembers id (some s) = s.last_mac_id ≡ id

-- The link is up: the back-off starts over, the audio is ready if the token can be decoded, and the
-- Mac is the one to come back to.
pub record Up (id token : Text) (n : PairingManager) : Type 0 where
  pub state : n.state ≡ LinkState.connected
  pub delay : n.reconnect_delay_ms ≡ reconnect_min_ms
  pub audio : n.audio.ready ≡ (length token == 64 && all_hex token)
  pub target : n.target_id ≡ id
  pub token_used : n.target_token ≡ token
  pub remembered : Remembers id n.settings

link_up-Up :
    (env : Env) (name : Text) (m : PairingManager)
    → Up m.target_id m.target_token (link_up env name m)
unfolding link_up request_agent_list send_document persist_last_mac set_audio_ready
link_up-Up env name m = let ready = set_audio_ready-ready m in ground (arith, ready)

link_up-paired :
    (env : Env) (name : Text) (m : PairingManager) → (link_up env name m).paired ≡ m.paired
unfolding link_up request_agent_list send_document persist_last_mac set_audio_ready
link_up-paired env name m = ground arith

-- `hello_ok` brings the link up with the token that the hello carried: the back-off starts over,
-- the audio is ready if the token is 64 hexadecimal digits, and the Mac is remembered in the
-- settings.
pub on_hello_ok-Up :
    (json : Json) (env : Env) (document : json.Variant) (m : PairingManager)
    → Up m.target_id m.target_token (on_hello_ok json env document m)
unfolding on_hello_ok
on_hello_ok-Up json env document m = link_up-Up env _ _

-- The pairing is refused: the link is down and the list of paired Macs is as it was.
pub record Refused (m n : PairingManager) : Type 0 where
  pub state : n.state ≡ LinkState.offline
  pub silent : n.audio.ready ≡ false
  pub paired : n.paired ≡ m.paired
  pub store : n.store ≡ m.store

connection_lost-Refused : (env : Env) (m : PairingManager) → Refused m (connection_lost env m)
unfolding connection_lost cancel_connection_attempt schedule_reconnect set_audio_ready
connection_lost-Refused env m = ground arith

token_of-found :
    (m : PairingManager) (id : Text) (i : ℕ) (mac : PairedMac)
    → paired_index_by_id m.paired id ≡ some i
    → get_elem? m.paired i ≡ some mac
    → token_of m id ≡ mac.token
unfolding token_of
token_of-found m id i mac found at = ground arith

-- There is room for the Mac: it is known, or fewer than 4 are.
abbrev pub has_room : PairingManager → Bool
has_room m =
    not (is_none (paired_index_by_id m.paired m.target_id)) || ltb (length m.paired) max_paired_macs

has_room_not :
    (index : Option ℕ) (n : ℕ)
    → (not (is_none index) || ltb n max_paired_macs)
      ≡ not (elim index [ none ↦ leb max_paired_macs n | some _ ↦ false ])
has_room_not none n = ground arith
has_room_not (some i) n = refl

-- `paired` brings the link up, and keeps the token under the Mac's id for the next hello, exactly
-- when the token has 64 characters or more and there is room for the Mac; otherwise the link goes
-- down and the paired Macs stay as they were.
pub on_paired-Up :
    (json : Json) (env : Env) (document : json.Variant) (m : PairingManager)
    → let token = json.as_text (json.get document (text "token")) in
      let n = on_paired json env document m in
      (64 ≤ length token
        → has_room m ≡ true
        → Up m.target_id token n × (token_of n m.target_id ≡ token))
      × (length token < 64 → Refused m n)
      × (has_room m ≡ false → Refused m n)
unfolding on_paired
on_paired-Up json env document m =
    let token = json.as_text (json.get document (text "token")) in
    let name = or_else (json.text? (json.get document (text "mac_name"))) m.target_name in
    let mac : PairedMac = record { id = m.target_id; name = name; token = token } in
    let index = paired_index_by_id m.paired m.target_id in
    let paired = put_paired index mac m.paired in
    let d : PairingManager = record m { bridge = parse_bridge_metadata json document } in
    let t : PairingManager = record d { target_token = token } in
    let k : PairingManager = record t {
      paired = paired;
      store = save_paired_macs paired ∷ m.store;
    } in
    let short : Refused m (connection_lost env d) = ground (arith, connection_lost-Refused env d) in
    let full : Refused m (connection_lost env t) = ground (arith, connection_lost-Refused env t) in
    let (i, found, at) = put_paired-found m.paired mac in
    let up = link_up-Up env name k in
    let same = link_up-paired env name k in
    let n = link_up env name k in
    let kept : token_of n m.target_id ≡ token =
      token_of-found n m.target_id i mac (ap (λ l. paired_index_by_id l m.target_id) same ∙ found)
        (ap (λ l. get_elem? l i) same ∙ at) in
    let crowded : Bool = elim index [
      | none ↦ leb max_paired_macs (length m.paired)
      | some _ ↦ false
    ] in
    let room : has_room m ≡ not crowded = has_room_not index (length m.paired) in
    elim (Bool-cases (ltb (length token) 64)) [
      | inl little ↦ rw little ((λ h. absurd (ground arith)), (λ h. short), λ h. short)
      | inr long ↦ elim (Bool-cases crowded) [
        | inl none_left ↦
            rw (long, none_left) ((λ h k. absurd (ground arith)), (λ h. full), λ h. full)
        | inr free ↦
            rw (long, free)
              ((λ h k. (up, kept)), (λ h. absurd (ground arith)), λ h. absurd (ground arith))
      ]
    ]
