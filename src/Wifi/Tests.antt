-- ===== src/Wifi/Tests.antt =====
-- The WiFi manager at concrete inputs.
use cardputer_codex_deck.Base.{
  text_eq, none, if◌then◌else◌, ◌≡◌, refl, true, false, some, [], ◌∷◌, arith, text, negsuc, ◌≤◌,
  ◌<◌, length, DistinctBy, List,
}
use cardputer_codex_deck.Models.{WifiNetwork}
use cardputer_codex_deck.Wifi.State.{Access, WifiManager, WifiEnv, initial}
use cardputer_codex_deck.Wifi.Scan.{saved_index, found, scan_capacity, merge}
use cardputer_codex_deck.Wifi.Manager.{tick, add_and_connect, forget}
use cardputer_codex_deck.Wifi.Refinement.{
  Networks, Command, adds, forgets, passes, commands, Stands, executes, Refines, executes-Refines,
}
use cardputer_codex_deck.Wifi.Invariant.{IsValid, InBounds, tick-InBounds}
use cardputer_codex_deck.Wifi.Listing.{shown_ssid, Each, ShowsHeard, ShowsSaved, merge_complete}
use cardputer_codex_deck.Wifi.Networks.{
  has_room, Added, add_and_connect-Added, Forgotten, forget-Forgotten,
}

abbrev env : WifiEnv
env = record {
  now = 30000;
  connected = false;
  ssid = [];
  rssi = negsuc 126;
  task_started = true;
  sort = λ l. l;
}

abbrev home : WifiNetwork
home = record { ssid = text "home"; password = text "secret" }

-- The connection to the only saved network has timed out.
abbrev late : WifiManager
late = record initial {
  saved = home ∷ [];
  scan_result_queue = true;
  scan_ever_succeeded = true;
  connect_started_ms = 10000;
}

late-IsValid : IsValid late
late-IsValid = record {
  saved_bound = omega arith;
  saved_distinct = (refl, tt);
  scan_bound = omega arith;
  scans = tt;
  queue_made = λ h. refl;
}

tick-InBounds_example : InBounds (tick env late)
tick-InBounds_example = tick-InBounds env late (λ l. refl) late-IsValid

add_and_connect-Added_example :
    let r = add_and_connect env (text "home") (text "changed") late in
    (has_room late (text "home") ≡ true
      → (n : WifiManager) × (r ≡ (some n, true)) × Added late n (text "home") (text "changed"))
    × (has_room late (text "home") ≡ false → r ≡ (some late, false))
add_and_connect-Added_example =
    add_and_connect-Added env (text "home") (text "changed") late late-IsValid

forget-Forgotten_example :
    (found (saved_index late.saved (text "home")) ≡ true
      → ((forget env (text "home") late).1 ≡ true)
        × Forgotten late (forget env (text "home") late).0 (text "home"))
    × (found (saved_index late.saved (text "home")) ≡ false
        → forget env (text "home") late ≡ (late, false))
forget-Forgotten_example = forget-Forgotten env (text "home") late late-IsValid

-- One network is heard twice, and once without a name.
abbrev heard : List Access
heard =
    record { ssid = text "cafe"; rssi = negsuc 70; encrypted = false }
    ∷ record { ssid = []; rssi = negsuc 50; encrypted = true }
    ∷ record { ssid = text "cafe"; rssi = negsuc 60; encrypted = false }
    ∷ []

merge_complete_example :
    let shown = merge env late.saved heard in
    DistinctBy shown_ssid shown
    × (length shown ≤ scan_capacity)
    × (length shown < scan_capacity
        → Each (ShowsHeard shown) heard × Each (ShowsSaved shown) late.saved)
merge_complete_example = merge_complete env late.saved heard

abbrev networks : Networks
networks = record { entry = λ k. if text_eq (text "home") k then some home else none; size = 1 }

late-Stands : Stands late networks
late-Stands = record { entries = λ k. refl; count = refl }

abbrev asked : List Command
asked = adds env (text "cafe") (text "latte") ∷ passes env ∷ forgets env (text "home") ∷ []

executes-Refines_example : Refines (executes asked late) (commands asked networks)
executes-Refines_example = executes-Refines asked ((λ l. refl), tt) late-IsValid late-Stands
