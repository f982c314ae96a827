-- ===== src/Wifi/Scan.antt =====
-- firmware/m5stack-cardputer-adv/src/wifi_mgr.cpp, `collectResults`: the list of networks that the
-- UI shows, from a scan and the saved networks.
use cardputer_codex_deck.Base.{
  ℕ, Bool, true, false, ◌&&◌, ◌||◌, not, Option, none, some, List, [], ◌∷◌, ◌++◌, Text, text_eq,
  is_empty, ltb, leb, if◌then◌else◌, length, get_elem?, set, find_index?, ℤ, negsuc, ltz,
}
use cardputer_codex_deck.Models.{WifiNetwork}
use cardputer_codex_deck.Wifi.State.{WifiScanResult, Access, WifiManager, WifiEnv}

-- `sizeof(scan_) / sizeof(scan_[0])`.
abbrev pub scan_capacity : ℕ
scan_capacity = 16

unfoldable pub saved_index : List WifiNetwork → Text → Option ℕ
saved_index saved ssid = find_index? (λ (n : WifiNetwork). text_eq n.ssid ssid) saved

abbrev pub found {ℓ} : {A : Type ℓ} → Option A → Bool
found none = false
found (some _) = true

unfoldable pub scan_index : List WifiScanResult → Text → Option ℕ
scan_index scan ssid = find_index? (λ (r : WifiScanResult). text_eq r.ssid ssid) scan

-- `if (WiFi.RSSI(i) > scan_[j].rssi) scan_[j].rssi = WiFi.RSSI(i)`.
unfoldable pub keep_strongest : List WifiScanResult → ℕ → ℤ → List WifiScanResult
keep_strongest scan j rssi = elim (get_elem? scan j) [
  | none ↦ scan
  | some r ↦ if ltz r.rssi rssi then set scan j (record r { rssi = rssi }) else scan
]

-- One access point of the first loop.
unfoldable pub add_access : List WifiNetwork → List WifiScanResult → Access → List WifiScanResult
add_access saved scan a = if is_empty a.ssid then scan else elim (scan_index scan a.ssid) [
  | some j ↦ keep_strongest scan j a.rssi
  | none ↦
      scan
      ++ record {
        ssid = a.ssid;
        rssi = a.rssi;
        encrypted = a.encrypted;
        saved = found (saved_index saved a.ssid);
      }
        ∷ []
]

-- One saved network of the second loop.
unfoldable pub add_saved : WifiEnv → List WifiScanResult → WifiNetwork → List WifiScanResult
add_saved env scan n =
    if found (scan_index scan n.ssid)
    then scan
    else scan
      ++ record {
        ssid = n.ssid;
        rssi = if env.connected && text_eq env.ssid n.ssid then env.rssi else negsuc 126;
        encrypted = not (is_empty n.password);
        saved = true;
      }
        ∷ []

-- A loop that ends at the array's size.
abbrev pub fold_room {ℓ} :
    {A : Type ℓ}
    → (List WifiScanResult → A → List WifiScanResult)
    → List A
    → List WifiScanResult
    → List WifiScanResult
fold_room add [] scan = scan
fold_room add (a ∷ list) scan =
    let next = fold_room add list (add scan a) in
    if leb scan_capacity (length scan) then scan else next

-- The two loops, before the list is sorted.
unfoldable pub merge : WifiEnv → List WifiNetwork → List Access → List WifiScanResult
merge env saved heard = fold_room (add_saved env) saved (fold_room (add_access saved) heard [])

unfoldable pub collect_results : WifiEnv → List Access → WifiManager → WifiManager
collect_results env result m = record m {
  scan_ever_succeeded = m.scan_ever_succeeded || ltb 0 (length result);
  scan = env.sort (merge env m.saved result);
}
