-- ===== src/Settings/Tests.antt =====
-- The settings store at concrete inputs, over a partition that is a function of the key.
use cardputer_codex_deck.Base.{
  ℕ, ◌≤◌, ◌<◌, ◌≡◌, refl, true, Option, none, some, [], ◌∷◌, arith, Text, text, text_eq,
  if◌then◌else◌,
}
use cardputer_codex_deck.Models.{
  WifiNetwork, PairedMac, DeviceSettings, default_settings, max_wifi_networks, max_paired_macs,
}
use cardputer_codex_deck.Settings.Store.{
  Entry, string, uchar, Preferences, PreferencesLaws, key_for, uchar_or, load_wifi_networks,
  save_wifi_networks, load_paired_macs, save_paired_macs, load_settings, save_settings,
}
use cardputer_codex_deck.Settings.RoundTrip.{load-save_wifi_networks, load-save_settings}

abbrev partition : Preferences
partition = record {
  Nvs = Text → Option Entry;
  entry = λ s k. s k;
  put = λ k v s. λ j. if text_eq k j then some v else s j;
  remove = λ k s. λ j. if text_eq k j then none else s j;
}

partition-laws : PreferencesLaws partition
partition-laws = record { entry-put = λ s k v j. refl; entry-remove = λ s k j. refl }

-- Two networks were saved before.
abbrev used : Text → Option Entry
used k = if text_eq k (text "wifi_n") then some (uchar 2) else some (string (text "old"))

abbrev home : WifiNetwork
home = record { ssid = text "home"; password = text "secret" }

load-save_wifi_networks_example :
    let r = save_wifi_networks partition true (home ∷ []) used in
    (r.1 ≡ true)
    × (load_wifi_networks partition true max_wifi_networks r.0 ≡ home ∷ [])
    × ((i : ℕ)
        → 1 ≤ i
        → i < uchar_or 0 (used (text "wifi_n"))
        → (r.0 (key_for (text "ws") i) ≡ none) × (r.0 (key_for (text "wp") i) ≡ none))
load-save_wifi_networks_example =
    load-save_wifi_networks partition partition-laws (home ∷ []) used (omega arith)

abbrev dimmed : DeviceSettings
dimmed = record default_settings { brightness = 64; typeless_function_key = 15 }

load-save_settings_example :
    load_settings partition true (save_settings partition true dimmed used).0 ≡ dimmed
load-save_settings_example =
    load-save_settings partition partition-laws dimmed used (omega arith) (omega arith)
      (omega arith) (omega arith)

abbrev mac : PairedMac
mac = record { id = text "home"; name = text "Home"; token = text "aa" }

one_mac_comes_back :
    load_paired_macs partition true max_paired_macs
      (save_paired_macs partition true (mac ∷ []) used).0
    ≡ mac ∷ []
unfolding load_paired_macs save_paired_macs cardputer_codex_deck.Settings.Store.load_macs
    cardputer_codex_deck.Settings.Store.remove_macs text_eq
    cardputer_codex_deck.Settings.Store.put_macs key_for cardputer_codex_deck.Settings.Store.decimal
one_mac_comes_back = refl
