-- ===== src/Wifi/Networks.antt =====
-- The list of saved networks under `addAndConnect` and `forget`.
use cardputer_codex_deck.Base.{
  ℕ, ◌<◌, ◌≡◌, refl, ◌∙◌, ap, Bool, true, false, ◌&&◌, none, some, List, [], ◌∷◌, ◌++◌, arith, inl,
  inr, Text, text_eq, ltb, leb, ◌==◌, if◌then◌else◌, length, length-append, length-set,
  length-remove_at, length-remove_at-le, ◌+◌, length-map, map, get_elem?, set, remove_at,
  find_index?-lt, zero, suc, ◌||◌, Option-cases, Bool-cases, lookup_by, lookup_by-append,
  DistinctBy-append, index_by-none, lookup_by-set, lookup_by-remove_at, DistinctBy-remove_at,
  DistinctBy-set,
}
use cardputer_codex_deck.Models.{WifiNetwork, max_wifi_networks}
use cardputer_codex_deck.Wifi.State.{WifiCall, disconnect, save_wifi_networks, WifiManager, WifiEnv}
use cardputer_codex_deck.Wifi.Scan.{saved_index, found}
use cardputer_codex_deck.Wifi.Manager.{
  start_scan, start_connection, connect_saved, add_and_connect, unsave, forget,
}
use cardputer_codex_deck.Wifi.Invariant.{InBounds, ssid_of, IsValid, start_scan-IsValid}

-- `ssid` is saved, or there is a place for it.
abbrev pub has_room : WifiManager → Text → Bool
has_room m ssid = found (saved_index m.saved ssid) || ltb (length m.saved) max_wifi_networks

-- The network is saved and the others are as they were; the list was stored, and the last call is
-- the connection to the network.
pub record Added (m n : WifiManager) (ssid password : Text) : Type 0 where
  pub valid : IsValid n
  pub networks :
      (k : Text)
      → lookup_by ssid_of n.saved k ≡ (
          if text_eq ssid k
          then some (record { ssid = ssid; password = password })
          else lookup_by ssid_of m.saved k)
  pub size :
      length n.saved
      ≡ (if found (saved_index m.saved ssid) then length m.saved else length m.saved + 1)
  pub calls :
      n.calls ≡ WifiCall.begin ssid password ∷ disconnect ∷ save_wifi_networks n.saved ∷ m.calls

module _ {A : Type 0} where
  get_elem?-set : (xs : List A) (i : ℕ) (x : A) → i < length xs → get_elem? (set xs i x) i ≡ some x
  get_elem?-set [] i x h = absurd (omega arith)
  get_elem?-set (y ∷ xs) zero x h = refl
  get_elem?-set (y ∷ xs) (suc i) x h = get_elem?-set xs i x (omega arith)

  get_elem?-append : (xs : List A) (x : A) → get_elem? (xs ++ x ∷ []) (length xs) ≡ some x
  get_elem?-append [] x = refl
  get_elem?-append (y ∷ xs) x = get_elem?-append xs x

connect_saved-at :
    (env : WifiEnv) (i : ℕ) (m : WifiManager) (n : WifiNetwork)
    → get_elem? m.saved i ≡ some n
    → i < length m.saved
    → connect_saved env i m ≡ (
      some (record m {
        reconnect_index = i;
        reconnect_attempts = 0;
        calls = WifiCall.begin n.ssid n.password ∷ disconnect ∷ m.calls;
        connect_started_ms = env.now;
        needs_setup = false;
      }),
      true,
    )
unfolding connect_saved start_connection
connect_saved-at env i m n at h =
    let inside : leb (length m.saved) i ≡ false = ground arith in
    simp (inside, at, start_connection) refl

module _ (env : WifiEnv) (ssid password : Text) (m : WifiManager) (v : IsValid m) where
  add_known :
      (i : ℕ)
      → saved_index m.saved ssid ≡ some i
      → let r = add_and_connect env ssid password m in
        (n : WifiManager) × (r ≡ (some n, true)) × Added m n ssid password
  unfolding add_and_connect saved_index
  add_known i known =
      let network : WifiNetwork = record { ssid = ssid; password = password } in
      let saved = set m.saved i network in
      let s : WifiManager = record m {
        saved = saved;
        calls = save_wifi_networks saved ∷ m.calls;
      } in
      let inside : i < length m.saved =
        find_index?-lt (λ (n : WifiNetwork). text_eq n.ssid ssid) m.saved known in
      let at = get_elem?-set m.saved i network inside in
      let same = length-set m.saved i network in
      let whole = connect_saved-at env i s network at (omega (arith, inside, same)) in
      rw (known, add_and_connect)
        (
          _,
          whole,
          record {
            valid =
                ground
                  (arith, DistinctBy-set ssid_of m.saved i network known v.saved_distinct, same);
            networks = λ k. lookup_by-set ssid_of m.saved i network k known;
            size = rw known same;
            calls = refl;
          },
        )

  add_new :
      saved_index m.saved ssid ≡ none
      → length m.saved < max_wifi_networks
      → let r = add_and_connect env ssid password m in
        (n : WifiManager) × (r ≡ (some n, true)) × Added m n ssid password
  unfolding add_and_connect saved_index
  add_new unknown room =
      let network : WifiNetwork = record { ssid = ssid; password = password } in
      let saved = m.saved ++ network ∷ [] in
      let s : WifiManager = record m {
        saved = saved;
        calls = save_wifi_networks saved ∷ m.calls;
      } in
      let longer = length-append m.saved (network ∷ []) in
      let absent = index_by-none ssid_of m.saved ssid unknown in
      let free : leb max_wifi_networks (length m.saved) ≡ false = ground arith in
      let whole =
        connect_saved-at env (length m.saved) s network (get_elem?-append m.saved network)
          (omega (arith, longer)) in
      rw (unknown, free, add_and_connect)
        (
          _,
          whole,
          record {
            valid =
                ground (
                  arith,
                  DistinctBy-append ssid_of m.saved network absent v.saved_distinct,
                  longer,
                );
            networks = λ k. lookup_by-append ssid_of m.saved network k absent;
            size = rw unknown longer;
            calls = refl;
          },
        )

  -- `addAndConnect`, from any valid state: with a place for the network it is saved with its new
  -- password, all others stay as they are, the list is stored and the connection to it is begun;
  -- without one nothing changes and the result is false.
  pub add_and_connect-Added :
      let r = add_and_connect env ssid password m in
      (has_room m ssid ≡ true → (n : WifiManager) × (r ≡ (some n, true)) × Added m n ssid password)
      × (has_room m ssid ≡ false → r ≡ (some m, false))
  unfolding add_and_connect
  add_and_connect-Added = elim (Option-cases (saved_index m.saved ssid)) [
    | inr (i, known) ↦ ((λ h. add_known i known), λ h. absurd (ground arith))
    | inl unknown ↦ (
      (λ h. add_new unknown (ground arith)),
      λ h.
          (let full : leb max_wifi_networks (length m.saved) ≡ true = ground arith in
            rw (unknown, full, add_and_connect) refl),
    )
  ]

  pub add_and_connect-InBounds : InBounds (add_and_connect env ssid password m).0
  add_and_connect-InBounds = elim (Bool-cases (has_room m ssid)) [
    | inl room ↦
        let (n, result, added) = add_and_connect-Added.0 room in
        (n, ap (λ r. r.0) result, added.valid)
    | inr full ↦ (m, ap (λ r. r.0) (add_and_connect-Added.1 full), v)
  ]

module _ (m : WifiManager) where
  start_scan-saved : (start_scan m).saved ≡ m.saved
  unfolding start_scan
  start_scan-saved = ground arith

  start_scan-needs_setup : m.needs_setup ≡ true → (start_scan m).needs_setup ≡ true
  unfolding start_scan
  start_scan-needs_setup h = ground arith

-- What `forget` leaves.
pub record Forgotten (m n : WifiManager) (ssid : Text) : Type 0 where
  pub valid : IsValid n
  pub networks :
      (k : Text)
      → lookup_by ssid_of n.saved k ≡ (if text_eq ssid k then none else lookup_by ssid_of m.saved k)
  pub size : length n.saved + 1 ≡ length m.saved
  pub setup : length n.saved ≡ 0 → n.needs_setup ≡ true

module _ (env : WifiEnv) (ssid : Text) (m : WifiManager) (v : IsValid m) where
  forget_known :
      (i : ℕ) → saved_index m.saved ssid ≡ some i → Forgotten m (forget env ssid m).0 ssid
  unfolding forget saved_index
  forget_known i known =
      let saved = remove_at m.saved i in
      let stored = save_wifi_networks saved ∷ m.calls in
      let f : WifiManager = record m {
        saved = saved;
        scan = map (unsave ssid) m.scan;
        calls = if env.connected && text_eq env.ssid ssid then disconnect ∷ stored else stored;
      } in
      let s : WifiManager = record f { needs_setup = true } in
      let inside : i < length m.saved =
        find_index?-lt (λ (n : WifiNetwork). text_eq n.ssid ssid) m.saved known in
      let one_less = length-remove_at m.saved i inside in
      let fewer = length-remove_at-le m.saved i in
      let apart = DistinctBy-remove_at ssid_of m.saved i v.saved_distinct in
      let same = length-map (unsave ssid) m.scan in
      let networks =
        λ (k : Text). lookup_by-remove_at ssid_of m.saved i ssid k v.saved_distinct known in
      let vf : IsValid f = ground (arith, fewer, apart, same) in
      let vs : IsValid s = ground arith in
      rw (known, forget)
        (elim (Bool-cases (length saved == 0)) [
          | inl last ↦ rw last (record {
            valid = start_scan-IsValid env s vs;
            networks = λ k. ap (λ l. lookup_by ssid_of l k) (start_scan-saved s) ∙ networks k;
            size = ap (λ l. length l + 1) (start_scan-saved s) ∙ one_less;
            setup = λ h. start_scan-needs_setup s refl;
          })
          | inr more ↦ rw more (record {
            valid = vf;
            networks = networks;
            size = one_less;
            setup = λ h. absurd (ground arith);
          })
        ])

  -- `forget`, from any valid state: a network that is saved is gone from the list and all others
  -- stay as they are, and the setup screen is asked for when none is left; for any other one
  -- nothing changes and the result is false.
  pub forget-Forgotten :
      (found (saved_index m.saved ssid) ≡ true
        → ((forget env ssid m).1 ≡ true) × Forgotten m (forget env ssid m).0 ssid)
      × (found (saved_index m.saved ssid) ≡ false → forget env ssid m ≡ (m, false))
  unfolding forget
  forget-Forgotten = elim (Option-cases (saved_index m.saved ssid)) [
    | inl unknown ↦ ((λ h. absurd (ground arith)), λ h. rw (unknown, forget) refl)
    | inr (i, known) ↦
        ((λ h. (rw (known, forget) refl, forget_known i known)), λ h. absurd (ground arith))
  ]

  pub forget-IsValid : IsValid (forget env ssid m).0
  forget-IsValid = elim (Bool-cases (found (saved_index m.saved ssid))) [
    | inl known ↦ (forget-Forgotten.0 known).1.valid
    | inr unknown ↦ rw (forget-Forgotten.1 unknown) v
  ]
