-- ===== src/Settings/RoundTrip.antt =====
-- Saves and loads of the settings store, one after the other.
use native.Mathlib.Decide.{dec_le}
use cardputer_codex_deck.Base.{
  ℕ, zero, suc, ◌+◌, ◌-◌, ◌≤◌, ◌<◌, ◌≡◌, refl, ◌∙◌, ap, true, false, Option, none, some, List, [],
  ◌∷◌, arith, Text, text, text_eq, text_eq_refl, ltb, ◌||◌, length, min, u8, u16,
}
use cardputer_codex_deck.Models.{WifiNetwork, DeviceSettings, max_wifi_networks}
use cardputer_codex_deck.Settings.Store.{
  Entry, string, uchar, Preferences, PreferencesLaws, key_for, string_or, uchar_or, load_networks,
  put_networks, remove_networks, load_wifi_networks, save_wifi_networks, load_settings,
  save_settings,
}
use cardputer_codex_deck.Settings.Keys.{ws_apart, wp_apart, ws_wp, wp_ws, ws_count, wp_count}

uchar_or_byte : (e : Option Entry) → uchar_or 0 e < 256
uchar_or_byte e = ground arith

module _ (p : Preferences) (laws : PreferencesLaws p) where
  open p use {Nvs, entry, put, remove}
  open laws use {entry-put, entry-remove}

  -- A key that no entry from index `i` on has.
  Apart : Text → ℕ → Type 0
  Apart k i =
      (j : ℕ)
      → i ≤ j
      → j < 1000
      → (text_eq (key_for (text "ws") j) k ≡ false) × (text_eq (key_for (text "wp") j) k ≡ false)

  Apart-suc : (k : Text) (i : ℕ) → Apart k i → Apart k (i + 1)
  unfolding Apart
  Apart-suc k i a = λ j h l. a j (omega arith) l

  entry-put_networks :
      (networks : List WifiNetwork) (i : ℕ) (s : Nvs) (k : Text)
      → i + length networks < 1000
      → Apart k i
      → entry (put_networks p networks i s) k ≡ entry s k
  unfolding put_networks Apart
  entry-put_networks [] i s k h a = refl
  entry-put_networks (n ∷ networks) i s k h a =
      let ws = put (key_for (text "ws") i) (string n.ssid) s in
      let (x, y) = a i (omega arith) (omega arith) in
      entry-put_networks networks (i + 1) (put (key_for (text "wp") i) (string n.password) ws) k
        (omega arith) (Apart-suc k i a)
      ∙ rw
          (
            entry-put ws (key_for (text "wp") i) (string n.password) k,
            y,
            entry-put s (key_for (text "ws") i) (string n.ssid) k,
            x,
          )
          refl

  entry-remove_networks :
      (n i : ℕ) (s : Nvs) (k : Text)
      → i + n < 1000
      → Apart k i
      → entry (remove_networks p i n s) k ≡ entry s k
  unfolding remove_networks Apart
  entry-remove_networks zero i s k h a = refl
  entry-remove_networks (suc n) i s k h a =
      let ws = remove (key_for (text "ws") i) s in
      let (x, y) = a i (omega arith) (omega arith) in
      entry-remove_networks n (i + 1) (remove (key_for (text "wp") i) ws) k (omega arith)
        (Apart-suc k i a)
      ∙ rw
          (
            entry-remove ws (key_for (text "wp") i) k,
            y,
            entry-remove s (key_for (text "ws") i) k,
            x,
          )
          refl

  ws-Apart : (i j : ℕ) → j < i → j < 1000 → Apart (key_for (text "ws") j) i
  unfolding Apart
  ws-Apart i j h b = λ m k l. (ws_apart m j l b (λ e. omega (arith, e)), wp_ws m j)

  wp-Apart : (i j : ℕ) → j < i → j < 1000 → Apart (key_for (text "wp") j) i
  unfolding Apart
  wp-Apart i j h b = λ m k l. (ws_wp m j, wp_apart m j l b (λ e. omega (arith, e)))

  count-Apart : (i : ℕ) → Apart (text "wifi_n") i
  unfolding Apart
  count-Apart i = λ m k l. (ws_count m, wp_count m)

  load-put_networks :
      (networks : List WifiNetwork) (i : ℕ) (s : Nvs)
      → i + length networks < 1000
      → load_networks p (put_networks p networks i s) i (length networks) ≡ networks
  unfolding load_networks put_networks
  load-put_networks [] i s h = refl
  load-put_networks (n ∷ networks) i s h =
      let ks = key_for (text "ws") i in
      let kp = key_for (text "wp") i in
      let s1 = put ks (string n.ssid) s in
      let s2 = put kp (string n.password) s1 in
      let all = put_networks p networks (i + 1) s2 in
      let ssid : entry all ks ≡ some (string n.ssid) =
        entry-put_networks networks (i + 1) s2 ks (omega arith)
          (ws-Apart (i + 1) i (omega arith) (omega arith))
        ∙ rw
            (
              entry-put s1 kp (string n.password) ks,
              wp_ws i i,
              entry-put s ks (string n.ssid) ks,
              text_eq_refl ks,
            )
            refl in
      let password : entry all kp ≡ some (string n.password) =
        entry-put_networks networks (i + 1) s2 kp (omega arith)
          (wp-Apart (i + 1) i (omega arith) (omega arith))
        ∙ rw (entry-put s1 kp (string n.password) kp, text_eq_refl kp) refl in
      rw (ssid, password) (ap (◌∷◌ n) (load-put_networks networks (i + 1) s2 (omega arith)))

  load-remove_networks :
      (k i a n : ℕ) (s : Nvs)
      → i + k ≤ a
      → a + n < 1000
      → load_networks p (remove_networks p a n s) i k ≡ load_networks p s i k
  unfolding load_networks
  load-remove_networks zero i a n s h b = refl
  load-remove_networks (suc k) i a n s h b =
      let ssid =
        entry-remove_networks n a s (key_for (text "ws") i) b
          (ws-Apart a i (omega arith) (omega arith)) in
      let password =
        entry-remove_networks n a s (key_for (text "wp") i) b
          (wp-Apart a i (omega arith) (omega arith)) in
      let head : WifiNetwork = record {
        ssid = string_or [] (entry s (key_for (text "ws") i));
        password = string_or [] (entry s (key_for (text "wp") i));
      } in
      rw (ssid, password) (ap (◌∷◌ head) (load-remove_networks k (i + 1) a n s (omega arith) b))

  remove_networks-gone :
      (n a i : ℕ) (s : Nvs)
      → a ≤ i
      → i < a + n
      → a + n < 1000
      → (entry (remove_networks p a n s) (key_for (text "ws") i) ≡ none)
        × (entry (remove_networks p a n s) (key_for (text "wp") i) ≡ none)
  unfolding remove_networks
  remove_networks-gone zero a i s h l b = absurd (omega arith)
  remove_networks-gone (suc n) a i s h l b =
      let s1 = remove (key_for (text "ws") a) s in
      let s2 = remove (key_for (text "wp") a) s1 in
      elim (dec_le i a) [
        | no later ↦
            remove_networks-gone n (a + 1) i s2 (omega (arith, later)) (omega arith) (omega arith)
        | yes at_most ↦
            let here : i ≡ a = omega (arith, at_most) in
            let ws : entry (remove_networks p (a + 1) n s2) (key_for (text "ws") a) ≡ none =
              entry-remove_networks n (a + 1) s2 (key_for (text "ws") a) (omega arith)
                (ws-Apart (a + 1) a (omega arith) (omega arith))
              ∙ rw
                  (
                    entry-remove s1 (key_for (text "wp") a) (key_for (text "ws") a),
                    wp_ws a a,
                    entry-remove s (key_for (text "ws") a) (key_for (text "ws") a),
                    text_eq_refl (key_for (text "ws") a),
                  )
                  refl in
            let wp : entry (remove_networks p (a + 1) n s2) (key_for (text "wp") a) ≡ none =
              entry-remove_networks n (a + 1) s2 (key_for (text "wp") a) (omega arith)
                (wp-Apart (a + 1) a (omega arith) (omega arith))
              ∙ rw
                  (
                    entry-remove s1 (key_for (text "wp") a) (key_for (text "wp") a),
                    text_eq_refl (key_for (text "wp") a),
                  )
                  refl in
            rw here (ws, wp)
      ]

  -- The networks that are saved, at most 8 of them, are the networks that the next start loads, and
  -- of a longer list that was saved before no name and no password is left, by the laws of
  -- `Preferences`.
  pub load-save_wifi_networks :
      (networks : List WifiNetwork) (s : Nvs)
      → length networks ≤ max_wifi_networks
      → let r = save_wifi_networks p true networks s in
        (r.1 ≡ true)
        × (load_wifi_networks p true max_wifi_networks r.0 ≡ networks)
        × ((i : ℕ)
            → length networks ≤ i
            → i < uchar_or 0 (entry s (text "wifi_n"))
            → (entry r.0 (key_for (text "ws") i) ≡ none)
              × (entry r.0 (key_for (text "wp") i) ≡ none))
  unfolding save_wifi_networks load_wifi_networks
  load-save_wifi_networks networks s h =
      let count = length networks in
      let previous = uchar_or 0 (entry s (text "wifi_n")) in
      let byte : previous < 256 = uchar_or_byte (entry s (text "wifi_n")) in
      let n = previous - count in
      let counted = put (text "wifi_n") (uchar (u8 count)) s in
      let written = put_networks p networks 0 counted in
      let final = remove_networks p count n written in
      let fits : ltb max_wifi_networks count ≡ false = ground arith in
      let low : count + n < 1000 = omega arith in
      let kept_count : entry final (text "wifi_n") ≡ some (uchar (u8 count)) =
        entry-remove_networks n count written (text "wifi_n") low (count-Apart count)
        ∙ entry-put_networks networks 0 counted (text "wifi_n") (omega arith) (count-Apart 0)
        ∙ rw
            (
              entry-put s (text "wifi_n") (uchar (u8 count)) (text "wifi_n"),
              text_eq_refl (text "wifi_n"),
            )
            refl in
      let size : min (u8 (u8 count)) max_wifi_networks ≡ count = omega arith in
      let loaded : load_networks p final 0 count ≡ networks =
        load-remove_networks count 0 count n written (omega arith) low
        ∙ load-put_networks networks 0 counted (omega arith) in
      simp (fits, kept_count, size)
        (refl, loaded, λ i a b. remove_networks-gone n count i written a (omega arith) low)

  -- The settings that are saved are the settings that the next start loads, if the function key is
  -- one of F13 to F16 and brightness and timeout are the words that they are stored as, by the laws
  -- of `Preferences`.
  pub load-save_settings :
      (d : DeviceSettings) (s : Nvs)
      → 13 ≤ d.typeless_function_key
      → d.typeless_function_key ≤ 16
      → d.brightness < 256
      → d.screen_timeout_sec < 65536
      → load_settings p true (save_settings p true d s).0 ≡ d
  unfolding load_settings save_settings text_eq
  load-save_settings d s low high bright timeout =
      let key : u8 d.typeless_function_key ≡ d.typeless_function_key = omega arith in
      let light : u8 d.brightness ≡ d.brightness = omega arith in
      let wait : u16 d.screen_timeout_sec ≡ d.screen_timeout_sec = omega arith in
      let allowed : (ltb d.typeless_function_key 13 || ltb 16 d.typeless_function_key) ≡ false =
        ground arith in
      simp (entry-put, key, light, wait, allowed) refl
