-- ===== src/Pairing/Invariant/Discovery.antt =====
-- The invariant across discovery (Pairing/Discovery).
use cardputer_codex_deck.Base.{
  ℕ, ◌≤◌, Bool, false, ◌||◌, ◌&&◌, not, Option, none, some, List, [], ◌∷◌, ◌++◌, arith, inl, inr,
  Option-cases, Bool-cases, length, length-append, is_empty, if◌then◌else◌,
}
use cardputer_codex_deck.Models.{PairedMac, DiscoveredMac, LinkState, max_discovered_macs}
use cardputer_codex_deck.Pairing.State.{PairingManager, Env, MdnsResult, discovered_index_by_id}
use cardputer_codex_deck.Pairing.Link.{schedule_reconnect, attempt_connection}
use cardputer_codex_deck.Pairing.Discovery.{
  is_none, discovered_mac, collect_discovery_results, start_discovery, aim, finish_discovery,
  poll_discovery, request_discovery,
}
use cardputer_codex_deck.Pairing.Invariant.{IsValid}
use cardputer_codex_deck.Pairing.Invariant.Link.{
  schedule_reconnect-IsValid, attempt_connection-IsValid,
}

length-collect :
    (paired : List PairedMac) (results : List MdnsResult) (discovered : List DiscoveredMac)
    → length discovered ≤ max_discovered_macs
    → length (collect_discovery_results paired results discovered) ≤ max_discovered_macs
unfolding collect_discovery_results
length-collect paired [] discovered h = h
length-collect paired (r ∷ results) discovered h = elim (Option-cases (discovered_mac paired r)) [
  | inl skipped ↦ rw skipped (ground (arith, length-collect paired results discovered))
  | inr (mac, found) ↦ rw found (
      ground (
        arith,
        length-append discovered (mac ∷ []),
        length-collect paired results (discovered ++ mac ∷ []),
      ))
]

module _ {loaded : List PairedMac} {m : PairingManager} (v : IsValid loaded m) where
  pub aim-IsValid : (i : ℕ) → IsValid loaded (aim i m)
  unfolding aim
  aim-IsValid i = ground arith

  pub start_discovery-IsValid :
      (env : Env) (for_reconnect : Bool) → IsValid loaded (start_discovery env for_reconnect m)
  unfolding start_discovery schedule_reconnect
  start_discovery-IsValid env for_reconnect = ground arith

  pub request_discovery-IsValid : (env : Env) → IsValid loaded (request_discovery env m)
  unfolding request_discovery
  request_discovery-IsValid env = ground arith

pub finish_discovery-IsValid :
    {loaded : List PairedMac} {m : PairingManager}
    → IsValid loaded m
    → (env : Env) (for_reconnect : Bool) (results : List MdnsResult)
    → IsValid loaded (finish_discovery env for_reconnect results m)
unfolding finish_discovery
finish_discovery-IsValid {loaded} {m} v env for_reconnect results =
    let discovered = collect_discovery_results m.paired results [] in
    let found : Option ℕ =
      if is_empty m.target_id then none else discovered_index_by_id discovered m.target_id in
    let d : PairingManager = record m {
      discovered = discovered;
      state = if m.client.connected then m.state else LinkState.offline;
      rediscovery_required = not (is_empty m.target_id) && is_none found;
    } in
    let v' : IsValid loaded d = ground (arith, length-collect m.paired results []) in
    elim (Bool-cases env.wifi_connected) [
      | inr down ↦ rw down (ground arith)
      | inl up ↦
          elim (Bool-cases (not for_reconnect || m.manual_disconnect || is_empty m.target_id)) [
            | inl quiet ↦ rw (up, quiet) v'
            | inr looking ↦ rw (up, looking) (aimed d v' found)
          ]
    ]
  where
    aimed :
        (d : PairingManager)
        → IsValid loaded d
        → (found : Option ℕ)
        → IsValid loaded (elim found [
          | none ↦ schedule_reconnect env d
          | some i ↦ attempt_connection env (aim i d)
        ])
    aimed d v' none = schedule_reconnect-IsValid v' env
    aimed d v' (some i) = attempt_connection-IsValid (aim-IsValid v' i) env

pub poll_discovery-IsValid :
    {loaded : List PairedMac} {m : PairingManager}
    → IsValid loaded m
    → (env : Env) → IsValid loaded (poll_discovery env m)
unfolding poll_discovery
poll_discovery-IsValid {loaded} {m} v env =
    let d : PairingManager = record m {
      discovery_search = false;
      discovery_for_reconnect = false;
    } in
    let v' : IsValid loaded d = ground arith in
    elim (Bool-cases m.discovery_search) [
      | inr idle ↦ simp idle v
      | inl searching ↦ elim (Option-cases env.query_results) [
        | inl pending ↦ simp (searching, pending) v
        | inr (results, ready) ↦
            simp (searching, ready)
              (finish_discovery-IsValid v' env m.discovery_for_reconnect results)
      ]
    ]
