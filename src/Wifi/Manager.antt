-- ===== src/Wifi/Manager.antt =====
-- firmware/m5stack-cardputer-adv/src/wifi_mgr.cpp: the reconnect ladder of `tick`, and the commands
-- of the user.
use cardputer_codex_deck.Base.{
  ℕ, ◌+◌, ◌%◌, Bool, true, false, ◌&&◌, ◌||◌, not, Option, none, some, List, [], ◌∷◌, ◌++◌, Text,
  text_eq, ◌==◌, ltb, leb, if◌then◌else◌, length, get_elem?, set, remove_at, map, sub32, ℤ, negsuc,
  ltz,
}
use cardputer_codex_deck.Models.{WifiNetwork, max_wifi_networks}
use cardputer_codex_deck.Wifi.State.{
  WifiScanResult, Access, WifiCall, disconnect, save_wifi_networks, WifiManager, WifiEnv,
}
use cardputer_codex_deck.Wifi.Scan.{saved_index, collect_results}

unfoldable pub start_scan : WifiManager → WifiManager
start_scan m =
    if m.pending_scan || m.scanning then m else record m { scan = []; pending_scan = true }

unfoldable pub run_pending_scan : WifiEnv → WifiManager → WifiManager
run_pending_scan env m =
    let p : WifiManager = record m { pending_scan = false } in
    if not m.scan_result_queue then p else record p {
      scanning = env.task_started;
      worker = env.task_started;
      last_scan_start_ms = env.now;
    }

-- `scanTaskEntry`: the worker scans, posts the result and ends.
unfoldable pub scan_task_entry : List Access → WifiManager → WifiManager
scan_task_entry result m =
    if m.worker then record m { scan_result = some result; worker = false } else m

unfoldable pub poll_scan_result : WifiEnv → WifiManager → WifiManager
poll_scan_result env m =
    if not m.scanning || not m.scan_result_queue then m else elim m.scan_result [
      | none ↦ m
      | some result ↦ collect_results env result (record m { scan_result = none; scanning = false })
    ]

-- `startConnection`, none where `saved_[index]` is not one of the `savedCount_` entries.
unfoldable pub start_connection : WifiEnv → ℕ → WifiManager → Option WifiManager
start_connection env index m = elim (get_elem? m.saved index) [
  | none ↦ none
  | some n ↦ some (record m {
    calls = WifiCall.begin n.ssid n.password ∷ disconnect ∷ m.calls;
    connect_started_ms = env.now;
    needs_setup = false;
  })
]

-- `connectSaved`: its false comes with no change.
unfoldable pub connect_saved : WifiEnv → ℕ → WifiManager → Option WifiManager × Bool
connect_saved env index m = if leb (length m.saved) index then (some m, false) else (
  start_connection env index (record m { reconnect_index = index; reconnect_attempts = 0 }),
  true,
)

-- The loop of `tryKnownNetworks`: the index of the strongest known network.
unfoldable pub strongest : List WifiNetwork → List WifiScanResult → ℕ → ℤ → ℕ
strongest saved [] best best_rssi = best
strongest saved (r ∷ scan) best best_rssi =
    let index = saved_index saved r.ssid in
    let skip = strongest saved scan best best_rssi in
    elim index [
      | none ↦ skip
      | some i ↦
          let take = strongest saved scan i r.rssi in if ltz best_rssi r.rssi then take else skip
    ]

unfoldable pub try_known_networks : WifiEnv → WifiManager → Option WifiManager
try_known_networks env m =
    if length m.saved == 0
    then some m
    else let best = strongest m.saved m.scan 0 (negsuc 127) in
      (connect_saved env best (record m { reconnect_index = best; reconnect_attempts = 0 })).0

-- The connection timed out: the next saved network, or a scan once all were tried.
unfoldable pub next_network : WifiEnv → WifiManager → Option WifiManager
next_network env m =
    let d : WifiManager = record m {
      calls = disconnect ∷ m.calls;
      connect_started_ms = 0;
      reconnect_attempts = m.reconnect_attempts + 1;
    } in
    if ltb d.reconnect_attempts (length d.saved)
    then (let i = (d.reconnect_index + 1) % length d.saved in
        start_connection env i (record d { reconnect_index = i }))
    else let e : WifiManager = record d { reconnect_index = 0; needs_setup = true } in
      some (if not e.scanning then start_scan e else e)

-- `tick` without a connection and without a running scan.
unfoldable pub reconnect : WifiEnv → WifiManager → Option WifiManager
reconnect env m =
    if not (m.connect_started_ms == 0) && ltb 12000 (sub32 env.now m.connect_started_ms)
    then next_network env m
    else if m.connect_started_ms == 0
        && ltb 0 (length m.saved)
        && ltb 10000 (sub32 env.now m.last_reconnect_ms)
        && not m.scanning
    then try_known_networks env (record m { last_reconnect_ms = env.now })
    else some m

-- The scan that is retried until a network was seen.
unfoldable pub retry_scan : WifiEnv → WifiManager → WifiManager
retry_scan env m =
    if not m.pending_scan
      && not m.scan_ever_succeeded
      && not env.connected
      && m.connect_started_ms == 0
      && leb 4000 (sub32 env.now m.last_scan_start_ms)
    then start_scan m
    else m

-- `tick`; none where an entry past `savedCount_` would be used.
unfoldable pub tick : WifiEnv → WifiManager → Option WifiManager
tick env m =
    let p = poll_scan_result env m in
    let q = if p.pending_scan && not p.scanning then run_pending_scan env p else p in
    let r = retry_scan env q in
    if env.connected
    then some (record r { connect_started_ms = 0 })
    else if r.scanning
    then some r
    else reconnect env r

-- `begin`: what the store holds and whether the queue could be created.
unfoldable pub begin : WifiEnv → List WifiNetwork → Bool → WifiManager → Option WifiManager
begin env stored queue m =
    let b : WifiManager = record m { saved = stored; scan_result_queue = queue } in
    if ltb 0 (length stored)
    then try_known_networks env b
    else some (start_scan (record b { needs_setup = true }))

-- `addAndConnect`.
unfoldable pub add_and_connect : WifiEnv → Text → Text → WifiManager → Option WifiManager × Bool
add_and_connect env ssid password m =
    let network : WifiNetwork = record { ssid = ssid; password = password } in
    elim (saved_index m.saved ssid) [
      | some i ↦
          let saved = set m.saved i network in
          connect_saved env i
            (record m { saved = saved; calls = save_wifi_networks saved ∷ m.calls })
      | none ↦
          let saved = m.saved ++ network ∷ [] in
          if leb max_wifi_networks (length m.saved)
          then (some m, false)
          else connect_saved env (length m.saved)
              (record m { saved = saved; calls = save_wifi_networks saved ∷ m.calls })
    ]

abbrev pub unsave : Text → WifiScanResult → WifiScanResult
unsave ssid r = if text_eq r.ssid ssid then record r { saved = false } else r

unfoldable pub forget : WifiEnv → Text → WifiManager → WifiManager × Bool
forget env ssid m = elim (saved_index m.saved ssid) [
  | none ↦ (m, false)
  | some i ↦
      let saved = remove_at m.saved i in
      let stored = save_wifi_networks saved ∷ m.calls in
      let f : WifiManager = record m {
        saved = saved;
        scan = map (unsave ssid) m.scan;
        calls = if env.connected && text_eq env.ssid ssid then disconnect ∷ stored else stored;
      } in
      (if length saved == 0 then start_scan (record f { needs_setup = true }) else f, true)
]
