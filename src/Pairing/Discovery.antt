-- ===== src/Pairing/Discovery.antt =====
-- firmware/m5stack-cardputer-adv/src/pairing.cpp: mDNS discovery, polled without waiting.
use cardputer_codex_deck.Base.{
  ℕ, Bool, true, false, ◌&&◌, ◌||◌, not, Option, none, some, List, [], ◌∷◌, ◌++◌, Text, text,
  text_eq, is_empty, ◌==◌, leb, if◌then◌else◌, length, get_elem?,
}
use cardputer_codex_deck.Models.{
  PairedMac, DiscoveredMac, LinkState, control_port, max_discovered_macs,
}
use cardputer_codex_deck.Pairing.State.{
  PairingManager, Env, MdnsResult, paired_index_by_id, discovered_index_by_id,
}
use cardputer_codex_deck.Pairing.Link.{schedule_reconnect, attempt_connection}

abbrev pub is_none {ℓ} : {A : Type ℓ} → Option A → Bool
is_none none = true
is_none (some _) = false

abbrev or_empty : Option Text → Text
or_empty none = []
or_empty (some t) = t

-- `resultTxt`: the value of the first TXT pair with the key.
unfoldable pub result_txt : List (Option Text × Option Text) → Text → Text
result_txt [] key = []
result_txt ((none, v) ∷ rest) key = result_txt rest key
result_txt ((some k, v) ∷ rest) key = if text_eq k key then or_empty v else result_txt rest key

-- `resultIpv4`: the first IPv4 address, 0 for `IPAddress()`.
unfoldable pub result_ipv4 : List (Option ℕ) → ℕ
result_ipv4 [] = 0
result_ipv4 (none ∷ rest) = result_ipv4 rest
result_ipv4 (some ip ∷ rest) = ip

-- `if (field.isEmpty() && result->hostname) field = result->hostname`.
abbrev or_hostname : Text → Option Text → Text
or_hostname t none = t
or_hostname t (some h) = if is_empty t then h else t

-- The entry of one answer; `none` where the loop says `continue`.
unfoldable pub discovered_mac : List PairedMac → MdnsResult → Option DiscoveredMac
discovered_mac paired r =
    let id = or_hostname (result_txt r.txt (text "id")) r.hostname in
    let ip = result_ipv4 r.addr in
    if ip == 0
    then none
    else some (record {
      id = id;
      name = or_hostname (result_txt r.txt (text "name")) r.hostname;
      ip = ip;
      port = if r.port == 0 then control_port else r.port;
      paired = not (is_none (paired_index_by_id paired id));
    })

unfoldable pub collect_discovery_results :
    List PairedMac → List MdnsResult → List DiscoveredMac → List DiscoveredMac
collect_discovery_results paired [] discovered = discovered
collect_discovery_results paired (r ∷ results) discovered =
    let next : List DiscoveredMac = elim (discovered_mac paired r) [
      | none ↦ collect_discovery_results paired results discovered
      | some mac ↦ collect_discovery_results paired results (discovered ++ mac ∷ [])
    ] in
    if leb max_discovered_macs (length discovered) then discovered else next

unfoldable pub start_discovery : Env → Bool → PairingManager → PairingManager
start_discovery env for_reconnect m =
    if not env.wifi_connected || not m.mdns_started || m.connect_in_flight
    then m
    else if m.discovery_search
    then (if for_reconnect then record m { discovery_for_reconnect = true } else m)
    else let d : PairingManager = record m {
      discovery_requested = false;
      discovery_for_reconnect = for_reconnect;
      state = if m.client.connected then m.state else LinkState.discovering;
      discovery_search = env.query_started;
    } in
      if env.query_started
      then d
      else let f : PairingManager = record d {
        discovery_for_reconnect = false;
        state = if m.client.connected then d.state else LinkState.offline;
      } in
        if for_reconnect then schedule_reconnect env f else f

-- `targetIp_`, `targetPort_` and `targetName_` of a discovered Mac.
unfoldable pub aim : ℕ → PairingManager → PairingManager
aim i m = elim (get_elem? m.discovered i) [
  | none ↦ m
  | some mac ↦ record m { target_ip = mac.ip; target_port = mac.port; target_name = mac.name }
]

-- The search is over: its answers are taken in.
unfoldable pub finish_discovery : Env → Bool → List MdnsResult → PairingManager → PairingManager
finish_discovery env for_reconnect results m =
    if not env.wifi_connected
    then record m { discovered = []; rediscovery_required = true }
    else let discovered = collect_discovery_results m.paired results [] in
      let found =
        if is_empty m.target_id then none else discovered_index_by_id discovered m.target_id in
      let d : PairingManager = record m {
        discovered = discovered;
        state = if m.client.connected then m.state else LinkState.offline;
        rediscovery_required = not (is_empty m.target_id) && is_none found;
      } in
      if not for_reconnect || m.manual_disconnect || is_empty m.target_id then d else elim found [
        | none ↦ schedule_reconnect env d
        | some i ↦ attempt_connection env (aim i d)
      ]

unfoldable pub poll_discovery : Env → PairingManager → PairingManager
poll_discovery env m = if not m.discovery_search then m else elim env.query_results [
  | none ↦ m
  | some results ↦
      finish_discovery env m.discovery_for_reconnect results
        (record m { discovery_search = false; discovery_for_reconnect = false })
]

unfoldable pub request_discovery : Env → PairingManager → PairingManager
request_discovery env m = if env.wifi_connected then record m { discovery_requested = true } else m
