-- ===== src/Wifi/Invariant.antt =====
-- The invariant of the WiFi manager, and its use of the saved entries.
use cardputer_codex_deck.Base.{
  ℕ, zero, suc, ◌+◌, ◌%◌, ◌≤◌, ◌<◌, ◌≡◌, refl, Bool, true, false, ◌&&◌, not, Option, none, some,
  List, [], ◌∷◌, ◌++◌, arith, inl, inr, Text, text_eq, is_empty, ◌==◌, ltb, leb, if◌then◌else◌,
  if_both, length, length-append, length-set, get_elem?, find_index?-lt, Option-cases, Bool-cases,
  ℤ, negsuc, ltz, DistinctBy,
}
use cardputer_codex_deck.Models.{WifiNetwork, max_wifi_networks}
use cardputer_codex_deck.Wifi.State.{
  WifiScanResult, Access, WifiCall, WifiManager, WifiEnv, initial,
}
use cardputer_codex_deck.Wifi.Scan.{
  scan_capacity, saved_index, scan_index, keep_strongest, add_access, add_saved, fold_room, merge,
  collect_results, found,
}
use cardputer_codex_deck.Wifi.Manager.{
  start_scan, run_pending_scan, scan_task_entry, poll_scan_result, start_connection, connect_saved,
  strongest, try_known_networks, next_network, reconnect, retry_scan, tick, begin,
}

abbrev pub ssid_of : WifiNetwork → Text
ssid_of n = n.ssid

-- A scan is a running worker or a posted result; without a scan there is neither.
abbrev pub Scanning : Bool → Bool → Option (List Access) → Type 0
Scanning true true none = Unit {0}
Scanning true false (some result) = Unit {0}
Scanning false false none = Unit {0}
Scanning _ _ _ = ⊥

pub record IsValid (m : WifiManager) : Type 0 where
  pub saved_bound : length m.saved ≤ max_wifi_networks
  pub saved_distinct : DistinctBy ssid_of m.saved
  pub scan_bound : length m.scan ≤ scan_capacity
  pub scans : Scanning m.scanning m.worker m.scan_result
  pub queue_made : m.scanning ≡ true → m.scan_result_queue ≡ true

-- `std::sort` keeps the number of entries.
abbrev pub SortKeepsLength : WifiEnv → Type 0
SortKeepsLength env = (l : List WifiScanResult) → length (env.sort l) ≡ length l

-- The call used saved entries only and left the invariant.
abbrev pub InBounds : Option WifiManager → Type 0
InBounds o = (n : WifiManager) × (o ≡ some n) × IsValid n

length-snoc :
    (scan : List WifiScanResult) (r : WifiScanResult) → length (scan ++ r ∷ []) ≤ length scan + 1
length-snoc scan r = omega (arith, length-append scan (r ∷ []))

length-keep_strongest :
    (scan : List WifiScanResult) (j : ℕ) (rssi : ℤ)
    → length (keep_strongest scan j rssi) ≤ length scan + 1
unfolding keep_strongest
length-keep_strongest scan j rssi = elim (Option-cases (get_elem? scan j)) [
  | inl outside ↦ rw (outside, keep_strongest) (omega arith)
  | inr (r, at) ↦
      let stronger : WifiScanResult = record r { rssi = rssi } in
      rw (at, keep_strongest)
        (if_both (λ (l : List WifiScanResult). length l ≤ length scan + 1) (ltz r.rssi rssi)
          (omega (arith, length-set scan j stronger)) (omega arith))
]

length-add_access :
    (saved : List WifiNetwork) (scan : List WifiScanResult) (a : Access)
    → length (add_access saved scan a) ≤ length scan + 1
unfolding add_access
length-add_access saved scan a =
    if_both (λ (l : List WifiScanResult). length l ≤ length scan + 1) (is_empty a.ssid)
      (omega arith)
      (elim (Option-cases (scan_index scan a.ssid)) [
        | inl fresh ↦ rw fresh (length-snoc scan _)
        | inr (j, there) ↦ rw there (length-keep_strongest scan j a.rssi)
      ])

length-add_saved :
    (env : WifiEnv) (scan : List WifiScanResult) (n : WifiNetwork)
    → length (add_saved env scan n) ≤ length scan + 1
unfolding add_saved
length-add_saved env scan n =
    if_both (λ (l : List WifiScanResult). length l ≤ length scan + 1)
      (found (scan_index scan n.ssid)) {x = scan} (omega arith) (length-snoc scan _)

length-fold_room :
    {A : Type 0} (add : List WifiScanResult → A → List WifiScanResult)
    → ((scan : List WifiScanResult) (a : A) → length (add scan a) ≤ length scan + 1)
    → (list : List A) (scan : List WifiScanResult) → length scan ≤ scan_capacity
    → length (fold_room add list scan) ≤ scan_capacity
length-fold_room add grows [] scan h = h
length-fold_room add grows (a ∷ list) scan h =
    ground (arith, grows scan a, length-fold_room add grows list (add scan a))

pub length-merge :
    (env : WifiEnv) (saved : List WifiNetwork) (heard : List Access)
    → length (merge env saved heard) ≤ scan_capacity
unfolding merge
length-merge env saved heard =
    length-fold_room (add_saved env) (length-add_saved env) saved _
      (length-fold_room (add_access saved) (length-add_access saved) heard [] (omega arith))

saved_index-lt :
    (saved : List WifiNetwork) (ssid : Text) {i : ℕ}
    → saved_index saved ssid ≡ some i
    → i < length saved
unfolding saved_index
saved_index-lt saved ssid h = find_index?-lt (λ (n : WifiNetwork). text_eq n.ssid ssid) saved h

strongest-lt :
    (saved : List WifiNetwork) (scan : List WifiScanResult) (best : ℕ) (rssi : ℤ)
    → best < length saved
    → strongest saved scan best rssi < length saved
unfolding strongest
strongest-lt saved [] best rssi h = h
strongest-lt saved (r ∷ scan) best rssi h = elim (Option-cases (saved_index saved r.ssid)) [
  | inl unknown ↦ rw (unknown, strongest) (strongest-lt saved scan best rssi h)
  | inr (i, known) ↦
      rw (known, strongest)
        (if_both (λ n. n < length saved) (ltz rssi r.rssi)
          (strongest-lt saved scan i r.rssi (saved_index-lt saved r.ssid known))
          (strongest-lt saved scan best rssi h))
]

pub get_elem?-in {ℓ} :
    {A : Type ℓ} (xs : List A) (i : ℕ) → i < length xs → (a : A) × (get_elem? xs i ≡ some a)
get_elem?-in [] i h = absurd (omega arith)
get_elem?-in (x ∷ xs) zero h = (x, refl)
get_elem?-in (x ∷ xs) (suc i) h = get_elem?-in xs i (omega arith)

pub mod_lt : (a n : ℕ) → 0 < n → a % n < n
mod_lt a n h = omega arith

pub scan_task_entry-IsValid :
    (m : WifiManager) → IsValid m → (result : List Access) → IsValid (scan_task_entry result m)
unfolding scan_task_entry
scan_task_entry-IsValid m v result = ground arith

module _ (env : WifiEnv) (m : WifiManager) (v : IsValid m) where
  pub start_scan-IsValid : IsValid (start_scan m)
  unfolding start_scan
  start_scan-IsValid = ground arith

  run_pending_scan-IsValid : m.scanning ≡ false → IsValid (run_pending_scan env m)
  unfolding run_pending_scan
  run_pending_scan-IsValid idle = ground arith

  poll_scan_result-IsValid : SortKeepsLength env → IsValid (poll_scan_result env m)
  unfolding poll_scan_result collect_results
  poll_scan_result-IsValid sorts = elim (Option-cases m.scan_result) [
    | inl pending ↦ simp pending (ground arith)
    | inr (result, posted) ↦
        let bound : length (env.sort (merge env m.saved result)) ≤ scan_capacity =
          omega (arith, sorts (merge env m.saved result), length-merge env m.saved result) in
        ground arith
  ]

  retry_scan-IsValid : IsValid (retry_scan env m)
  unfolding retry_scan
  retry_scan-IsValid = if_both IsValid _ start_scan-IsValid v

  pub start_connection-InBounds : (i : ℕ) → i < length m.saved → InBounds (start_connection env i m)
  unfolding start_connection
  start_connection-InBounds i h =
      let (n, at) = get_elem?-in m.saved i h in rw (at, start_connection) (_, refl, ground arith)

module _ (env : WifiEnv) where
  pub connect_saved-InBounds :
      (i : ℕ) (m : WifiManager) → IsValid m → InBounds (connect_saved env i m).0
  unfolding connect_saved
  connect_saved-InBounds i m v = elim (Bool-cases (leb (length m.saved) i)) [
    | inl outside ↦ rw outside (m, refl, v)
    | inr inside ↦ rw inside (
        start_connection-InBounds env (record m { reconnect_index = i; reconnect_attempts = 0 })
          (ground arith) i (ground arith))
  ]

  pub try_known_networks-InBounds :
      (m : WifiManager) → IsValid m → InBounds (try_known_networks env m)
  unfolding try_known_networks
  try_known_networks-InBounds m v =
      let best = strongest m.saved m.scan 0 (negsuc 127) in
      if_both InBounds (length m.saved == 0) (m, refl, v)
        (connect_saved-InBounds best (record m { reconnect_index = best; reconnect_attempts = 0 })
          (ground arith))

  next_network-InBounds : (m : WifiManager) → IsValid m → InBounds (next_network env m)
  unfolding next_network
  next_network-InBounds m v =
      let d : WifiManager = record m {
        calls = WifiCall.disconnect ∷ m.calls;
        connect_started_ms = 0;
        reconnect_attempts = m.reconnect_attempts + 1;
      } in
      let i = (m.reconnect_index + 1) % length m.saved in
      let e : WifiManager = record d { reconnect_index = 0; needs_setup = true } in
      let ve : IsValid e = ground arith in
      elim (Bool-cases (ltb (m.reconnect_attempts + 1) (length m.saved))) [
        | inl more ↦ rw more (
            start_connection-InBounds env (record d { reconnect_index = i }) (ground arith) i
              (mod_lt (m.reconnect_index + 1) (length m.saved) (ground arith)))
        | inr over ↦
            rw over (_, refl, if_both IsValid (not m.scanning) (start_scan-IsValid env e ve) ve)
      ]

  reconnect-InBounds : (m : WifiManager) → IsValid m → InBounds (reconnect env m)
  unfolding reconnect
  reconnect-InBounds m v = if_both InBounds _ (next_network-InBounds m v) (
      if_both InBounds _
        (try_known_networks-InBounds (record m { last_reconnect_ms = env.now }) (ground arith))
        (m, refl, v))

  -- A pass of the WiFi manager in the main loop uses saved entries only and keeps the invariant: at
  -- most 8 saved networks, with distinct names, at most 16 in the list that is shown, and a scan
  -- under way exactly with its worker or its result, if `std::sort` keeps the number of entries.
  pub tick-InBounds : (m : WifiManager) → SortKeepsLength env → IsValid m → InBounds (tick env m)
  unfolding tick
  tick-InBounds m sorts v =
      let p = poll_scan_result env m in
      let vp = poll_scan_result-IsValid env m v sorts in
      let q : WifiManager =
        if p.pending_scan && not p.scanning then run_pending_scan env p else p in
      let vq : IsValid q = elim (Bool-cases (p.pending_scan && not p.scanning)) [
        | inl waits ↦ rw waits (run_pending_scan-IsValid env p vp (ground arith))
        | inr other ↦ rw other vp
      ] in
      let r = retry_scan env q in
      let vr = retry_scan-IsValid env q vq in
      if_both InBounds env.connected (_, refl, ground arith)
        (if_both InBounds r.scanning (r, refl, vr) (reconnect-InBounds r vr))

  -- `begin` with what was stored, at most 8 networks of distinct names.
  pub begin-InBounds :
      (stored : List WifiNetwork) (queue : Bool)
      → length stored ≤ max_wifi_networks
      → DistinctBy ssid_of stored
      → InBounds (begin env stored queue initial)
  unfolding begin
  begin-InBounds stored queue bound distinct =
      let b : WifiManager = record initial { saved = stored; scan_result_queue = queue } in
      let vb : IsValid b = ground arith in
      let asked : WifiManager = record b { needs_setup = true } in
      let va : IsValid asked = ground arith in
      if_both InBounds _ (try_known_networks-InBounds b vb)
        (_, refl, start_scan-IsValid env asked va)
