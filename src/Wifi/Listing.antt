-- ===== src/Wifi/Listing.antt =====
-- The list that the UI shows, before it is sorted (Wifi/Scan).
use cardputer_codex_deck.Base.{
  ℕ, ◌≤◌, ◌<◌, ◌≡◌, ◌≢◌, refl, sym, subst, ◌∙◌, ap, false, none, some, List, [], ◌∷◌, ◌++◌, arith,
  inl, inr, Text, text_eq_refl, is_empty, leb, length, length-append, length-set, set, Option-cases,
  Bool-cases, if_both, ℤ, ltz, index_by, lookup_by, DistinctBy, lookup_by-append, DistinctBy-append,
  index_by-none, lookup_by-set, DistinctBy-set, get_elem?-index_by, lookup_by-index,
}
use cardputer_codex_deck.Models.{WifiNetwork}
use cardputer_codex_deck.Wifi.State.{WifiScanResult, Access, WifiEnv}
use cardputer_codex_deck.Wifi.Scan.{
  scan_capacity, scan_index, keep_strongest, add_access, add_saved, fold_room, merge,
}
use cardputer_codex_deck.Wifi.Invariant.{length-merge}

abbrev pub shown_ssid : WifiScanResult → Text
shown_ssid r = r.ssid

-- The list has an entry with the name.
abbrev pub Shows : List WifiScanResult → Text → Type 0
Shows scan ssid = lookup_by shown_ssid scan ssid ≢ none

-- Names stay distinct, what is shown stays shown, and the list does not shrink.
record Grows (scan next : List WifiScanResult) : Type 0 where
  distinct : DistinctBy shown_ssid scan → DistinctBy shown_ssid next
  shown : (ssid : Text) → Shows scan ssid → Shows next ssid
  longer : length scan ≤ length next

Grows-refl : (scan : List WifiScanResult) → Grows scan scan
Grows-refl scan = record { distinct = λ d. d; shown = λ k s. s; longer = omega arith }

Grows-trans : {a b c : List WifiScanResult} → Grows a b → Grows b c → Grows a c
Grows-trans g h = record {
  distinct = λ d. h.distinct (g.distinct d);
  shown = λ k s. h.shown k (g.shown k s);
  longer = omega (arith, g.longer, h.longer);
}

append-Grows :
    (scan : List WifiScanResult) (r : WifiScanResult)
    → lookup_by shown_ssid scan r.ssid ≡ none
    → Grows scan (scan ++ r ∷ []) × Shows (scan ++ r ∷ []) r.ssid
append-Grows scan r absent =
    let at = λ (k : Text). lookup_by-append shown_ssid scan r k absent in
    (
      record {
        distinct = DistinctBy-append shown_ssid scan r absent;
        shown = λ k s. ground (arith, at k);
        longer = omega (arith, length-append scan (r ∷ []));
      },
      ground (arith, at r.ssid, text_eq_refl r.ssid),
    )

keep_strongest-Grows :
    (scan : List WifiScanResult) (j : ℕ) (ssid : Text) (rssi : ℤ)
    → scan_index scan ssid ≡ some j
    → Grows scan (keep_strongest scan j rssi) × Shows (keep_strongest scan j rssi) ssid
unfolding scan_index keep_strongest
keep_strongest-Grows scan j ssid rssi known =
    let (r, at, same) = get_elem?-index_by shown_ssid scan ssid known in
    let stronger : WifiScanResult = record r { rssi = rssi } in
    let its_index : index_by shown_ssid scan r.ssid ≡ some j =
      ap (λ k. index_by shown_ssid scan k) same ∙ known in
    let here : Shows scan ssid = lookup_by-index shown_ssid scan ssid known in
    let after = λ (k : Text). lookup_by-set shown_ssid scan j stronger k its_index in
    let g : Grows scan (set scan j stronger) = record {
      distinct = DistinctBy-set shown_ssid scan j stronger its_index;
      shown = λ k s. ground (arith, after k);
      longer = omega (arith, length-set scan j stronger);
    } in
    rw (at, keep_strongest)
      (if_both (λ (l : List WifiScanResult). Grows scan l × Shows l ssid) (ltz r.rssi rssi)
        (g, g.shown ssid here) (Grows-refl scan, here))

module _ (saved : List WifiNetwork) (scan : List WifiScanResult) (a : Access) where
  -- A heard network with a name is shown.
  add_access-Grows :
      Grows scan (add_access saved scan a)
      × (is_empty a.ssid ≡ false → Shows (add_access saved scan a) a.ssid)
  unfolding add_access scan_index
  add_access-Grows = elim (Bool-cases (is_empty a.ssid)) [
    | inl hidden ↦ rw (hidden, add_access) (Grows-refl scan, λ h. absurd (ground arith))
    | inr named ↦ elim (Option-cases (scan_index scan a.ssid)) [
      | inr (j, known) ↦
          let (g, s) = keep_strongest-Grows scan j a.ssid a.rssi known in
          rw (named, known, add_access) (g, λ h. s)
      | inl fresh ↦
          let (g, s) = append-Grows scan _ (index_by-none shown_ssid scan a.ssid fresh) in
          rw (named, fresh, add_access) (g, λ h. s)
    ]
  ]

module _ (env : WifiEnv) (scan : List WifiScanResult) (n : WifiNetwork) where
  add_saved-Grows : Grows scan (add_saved env scan n) × Shows (add_saved env scan n) n.ssid
  unfolding add_saved scan_index
  add_saved-Grows = elim (Option-cases (scan_index scan n.ssid)) [
    | inr (j, known) ↦
        rw (known, add_saved) (Grows-refl scan, lookup_by-index shown_ssid scan n.ssid known)
    | inl fresh ↦
        rw (fresh, add_saved) (append-Grows scan _ (index_by-none shown_ssid scan n.ssid fresh))
  ]

-- Each entry of the list satisfies the predicate.
abbrev pub Each : {A : Type 0} → (A → Type 0) → List A → Type 0
Each P [] = Unit {0}
Each P (a ∷ list) = P a × Each P list

module _ {A : Type 0} (add : List WifiScanResult → A → List WifiScanResult)
    (Covers : List WifiScanResult → A → Type 0)
    (grows : (scan : List WifiScanResult) (a : A) → Grows scan (add scan a) × Covers (add scan a) a)
    (stays : (scan next : List WifiScanResult) (a : A)
      → Grows scan next
      → Covers scan a
      → Covers next a) where
  fold_room-Grows :
      (list : List A) (scan : List WifiScanResult) → Grows scan (fold_room add list scan)
  fold_room-Grows [] scan = Grows-refl scan
  fold_room-Grows (a ∷ list) scan =
      if_both (Grows scan) (leb scan_capacity (length scan)) (Grows-refl scan)
        (Grows-trans (grows scan a).0 (fold_room-Grows list (add scan a)))

  -- A loop that does not fill the array takes in every entry.
  fold_room-Each :
      (list : List A) (scan : List WifiScanResult)
      → length (fold_room add list scan) < scan_capacity
      → Each (Covers (fold_room add list scan)) list
  fold_room-Each [] scan h = tt
  fold_room-Each (a ∷ list) scan h = elim (Bool-cases (leb scan_capacity (length scan))) [
    | inl full ↦ absurd (ground arith)
    | inr room ↦
        let next = fold_room add list (add scan a) in
        let (g, c) = grows scan a in
        let short : length next < scan_capacity = ground arith in
        let whole : fold_room add (a ∷ list) scan ≡ next = rw room refl in
        let rest = fold_room-Each list (add scan a) short in
        subst (λ l. Covers l a × Each (Covers l) list) (sym whole)
          (stays (add scan a) next a (fold_room-Grows list (add scan a)) c, rest)
  ]

abbrev pub ShowsHeard : List WifiScanResult → Access → Type 0
ShowsHeard scan a = is_empty a.ssid ≡ false → Shows scan a.ssid

abbrev pub ShowsSaved : List WifiScanResult → WifiNetwork → Type 0
ShowsSaved scan n = Shows scan n.ssid

Each-stays :
    (scan next : List WifiScanResult)
    → Grows scan next
    → (heard : List Access) → Each (ShowsHeard scan) heard
    → Each (ShowsHeard next) heard
Each-stays scan next g [] e = tt
Each-stays scan next g (a ∷ heard) e =
    ((λ h. g.shown a.ssid (e.0 h)), Each-stays scan next g heard e.1)

-- The list of networks that a scan leaves, before it is sorted, has no name twice and at most 16
-- entries; with fewer than 16 it shows every network that was heard with a name, and every saved
-- one.
pub merge_complete :
    (env : WifiEnv) (saved : List WifiNetwork) (heard : List Access)
    → let shown = merge env saved heard in
      DistinctBy shown_ssid shown
      × (length shown ≤ scan_capacity)
      × (length shown < scan_capacity
          → Each (ShowsHeard shown) heard × Each (ShowsSaved shown) saved)
unfolding merge
merge_complete env saved heard =
    let first = fold_room (add_access saved) heard [] in
    let stays_heard =
      λ (s n : List WifiScanResult) (a : Access) (g : Grows s n) (c : ShowsHeard s a).
        λ (h : is_empty a.ssid ≡ false). g.shown a.ssid (c h) in
    let stays_saved =
      λ (s n : List WifiScanResult) (a : WifiNetwork) (g : Grows s n) (c : ShowsSaved s a).
        g.shown a.ssid c in
    let g1 =
      fold_room-Grows (add_access saved) ShowsHeard (add_access-Grows saved) stays_heard heard [] in
    let g2 =
      fold_room-Grows (add_saved env) ShowsSaved (add_saved-Grows env) stays_saved saved first in
    let final = fold_room (add_saved env) saved first in
    (
      g2.distinct (g1.distinct tt),
      length-merge env saved heard,
      λ short.
          let low : length first < scan_capacity = omega (arith, short, g2.longer) in
          (
            Each-stays first final g2 heard (
                fold_room-Each (add_access saved) ShowsHeard (add_access-Grows saved) stays_heard
                  heard [] low),
            fold_room-Each (add_saved env) ShowsSaved (add_saved-Grows env) stays_saved saved first
                short,
          ),
    )
