-- ===== src/Settings/Store.antt =====
-- firmware/m5stack-cardputer-adv/src/settings_store.cpp: the lists and settings in NVS. The
-- `Preferences` library is a parameter.
use cardputer_codex_deck.Base.{
  ℕ, zero, suc, ◌+◌, ◌-◌, ◌/◌, ◌%◌, ◌≡◌, Bool, true, false, ◌||◌, not, Option, none, some, List, [],
  ◌∷◌, ◌++◌, Text, text, text_eq, ltb, if◌then◌else◌, length, min, u8, u16,
}
use cardputer_codex_deck.Models.{
  WifiNetwork, PairedMac, DeviceSettings, default_settings, max_wifi_networks, max_paired_macs,
}

-- A value of NVS, with its type.
pub data Entry : Type 0 where
  string : Text → Entry
  uchar : ℕ → Entry
  ushort : ℕ → Entry
  boolean : Bool → Entry

-- `Preferences`: the entry of a key, `put...` and `remove`.
pub record Preferences : Type 1 where
  pub Nvs : Type 0
  pub entry : Nvs → Text → Option Entry
  pub put : Text → Entry → Nvs → Nvs
  pub remove : Text → Nvs → Nvs

-- What its documentation says, while the partition has room.
pub record PreferencesLaws (p : Preferences) : Type 0 where
  pub entry-put :
      (s : p.Nvs) (k : Text) (v : Entry) (j : Text)
      → p.entry (p.put k v s) j ≡ (if text_eq k j then some v else p.entry s j)
  pub entry-remove :
      (s : p.Nvs) (k j : Text)
      → p.entry (p.remove k s) j ≡ (if text_eq k j then none else p.entry s j)

abbrev digit : ℕ → ℕ
digit n = n + b'0'

-- `String(index)`; the counts are `uint8_t`, so no index has a fourth digit.
unfoldable pub decimal : ℕ → Text
decimal n =
    if ltb n 10
    then digit n ∷ []
    else if ltb n 100
    then digit (n / 10) ∷ digit (n % 10) ∷ []
    else digit (n / 100) ∷ digit (n / 10 % 10) ∷ digit (n % 10) ∷ []

unfoldable pub key_for : Text → ℕ → Text
key_for prefix index = prefix ++ decimal index

abbrev pub string_or : Text → Option Entry → Text
string_or d (some (string t)) = t
string_or d _ = d

abbrev pub uchar_or : ℕ → Option Entry → ℕ
uchar_or d (some (uchar n)) = u8 n
uchar_or d _ = d

abbrev pub ushort_or : ℕ → Option Entry → ℕ
ushort_or d (some (ushort n)) = u16 n
ushort_or d _ = d

abbrev pub boolean_or : Bool → Option Entry → Bool
boolean_or d (some (boolean b)) = b
boolean_or d _ = d

module _ (p : Preferences) where
  open p use {Nvs, entry, put, remove}

  -- The loops over the entries of a list, from index `i` on.
  unfoldable pub load_networks : Nvs → ℕ → ℕ → List WifiNetwork
  load_networks s i zero = []
  load_networks s i (suc n) =
      record {
        ssid = string_or [] (entry s (key_for (text "ws") i));
        password = string_or [] (entry s (key_for (text "wp") i));
      }
      ∷ load_networks s (i + 1) n

  unfoldable pub put_networks : List WifiNetwork → ℕ → Nvs → Nvs
  put_networks [] i s = s
  put_networks (n ∷ networks) i s = put_networks networks (i + 1) (
      put (key_for (text "wp") i) (string n.password)
        (put (key_for (text "ws") i) (string n.ssid) s))

  unfoldable pub remove_networks : ℕ → ℕ → Nvs → Nvs
  remove_networks i zero s = s
  remove_networks i (suc n) s =
      remove_networks (i + 1) n (remove (key_for (text "wp") i) (remove (key_for (text "ws") i) s))

  unfoldable pub load_wifi_networks : Bool → ℕ → Nvs → List WifiNetwork
  load_wifi_networks ready capacity s =
      if not ready
      then []
      else load_networks s 0 (min (uchar_or 0 (entry s (text "wifi_n"))) capacity)

  unfoldable pub save_wifi_networks : Bool → List WifiNetwork → Nvs → Nvs × Bool
  save_wifi_networks ready networks s =
      if not ready || ltb max_wifi_networks (length networks)
      then (s, false)
      else let previous = uchar_or 0 (entry s (text "wifi_n")) in
        (
          remove_networks (length networks) (previous - length networks)
              (put_networks networks 0 (put (text "wifi_n") (uchar (u8 (length networks))) s)),
          true,
        )

  unfoldable pub load_settings : Bool → Nvs → DeviceSettings
  load_settings ready s =
      let key = uchar_or 13 (entry s (text "voice_f")) in
      if not ready then default_settings else record {
        mic_muted = boolean_or false (entry s (text "mic_mute"));
        typeless_function_key = if ltb key 13 || ltb 16 key then 13 else key;
        brightness = uchar_or 128 (entry s (text "bright"));
        screen_timeout_sec = ushort_or 60 (entry s (text "screen_s"));
        last_mac_id = string_or [] (entry s (text "last_mac"));
      }

  unfoldable pub save_settings : Bool → DeviceSettings → Nvs → Nvs × Bool
  save_settings ready d s = if not ready then (s, false) else (
    put (text "last_mac") (string d.last_mac_id) (
        put (text "screen_s") (ushort d.screen_timeout_sec) (
          put (text "bright") (uchar d.brightness) (
            put (text "voice_f") (uchar d.typeless_function_key)
              (put (text "mic_mute") (boolean d.mic_muted) s)))),
    true,
  )

  unfoldable pub load_macs : Nvs → ℕ → ℕ → List PairedMac
  load_macs s i zero = []
  load_macs s i (suc n) =
      record {
        id = string_or [] (entry s (key_for (text "mi") i));
        name = string_or (text "Mac") (entry s (key_for (text "mn") i));
        token = string_or [] (entry s (key_for (text "mt") i));
      }
      ∷ load_macs s (i + 1) n

  unfoldable pub put_macs : List PairedMac → ℕ → Nvs → Nvs
  put_macs [] i s = s
  put_macs (mac ∷ macs) i s = put_macs macs (i + 1) (
      put (key_for (text "mt") i) (string mac.token) (
        put (key_for (text "mn") i) (string mac.name)
          (put (key_for (text "mi") i) (string mac.id) s)))

  unfoldable pub remove_macs : ℕ → ℕ → Nvs → Nvs
  remove_macs i zero s = s
  remove_macs i (suc n) s = remove_macs (i + 1) n (
      remove (key_for (text "mt") i)
        (remove (key_for (text "mn") i) (remove (key_for (text "mi") i) s)))

  unfoldable pub load_paired_macs : Bool → ℕ → Nvs → List PairedMac
  load_paired_macs ready capacity s =
      if not ready then [] else load_macs s 0 (min (uchar_or 0 (entry s (text "mac_n"))) capacity)

  unfoldable pub save_paired_macs : Bool → List PairedMac → Nvs → Nvs × Bool
  save_paired_macs ready macs s =
      if not ready || ltb max_paired_macs (length macs)
      then (s, false)
      else let previous = uchar_or 0 (entry s (text "mac_n")) in
        (
          remove_macs (length macs) (previous - length macs)
              (put_macs macs 0 (put (text "mac_n") (uchar (u8 (length macs))) s)),
          true,
        )
