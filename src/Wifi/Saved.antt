-- ===== src/Wifi/Saved.antt =====
-- The passes of the main loop and the saved networks (Wifi/Manager).
use cardputer_codex_deck.Base.{
  ℕ, ◌+◌, ◌%◌, ◌≡◌, refl, subst, ◌∙◌, true, ◌&&◌, not, Option, none, some, List, ◌∷◌, leb,
  if◌then◌else◌, if_both, length, get_elem?, negsuc, arith, inl, inr, Bool-cases, Option-cases,
}
use cardputer_codex_deck.Models.{WifiNetwork}
use cardputer_codex_deck.Wifi.State.{WifiManager, WifiEnv, WifiCall}
use cardputer_codex_deck.Wifi.Scan.{collect_results}
use cardputer_codex_deck.Wifi.Manager.{
  start_scan, connect_saved, start_connection, poll_scan_result, run_pending_scan, retry_scan,
  reconnect, next_network, try_known_networks, strongest, tick,
}

-- A result, if there is one, has these saved networks.
abbrev pub AreSaved : List WifiNetwork → Option WifiManager → Type 0
AreSaved saved none = Unit {0}
AreSaved saved (some n) = n.saved ≡ saved

pub record HasSaved (saved : List WifiNetwork) (o : Option WifiManager) : Type 0 where
  pub are : AreSaved saved o

with_saved :
    {saved : List WifiNetwork} (n : WifiManager) → n.saved ≡ saved → HasSaved saved (some n)
with_saved n h = record { are = h }

module _ (env : WifiEnv) where
  poll-saved : (m : WifiManager) → (poll_scan_result env m).saved ≡ m.saved
  unfolding poll_scan_result collect_results
  poll-saved m = ground arith

  run_pending-saved : (m : WifiManager) → (run_pending_scan env m).saved ≡ m.saved
  unfolding run_pending_scan
  run_pending-saved m = ground arith

  start_scan-saved : (m : WifiManager) → (start_scan m).saved ≡ m.saved
  unfolding start_scan
  start_scan-saved m = ground arith

  retry_scan-saved : (m : WifiManager) → (retry_scan env m).saved ≡ m.saved
  unfolding retry_scan
  retry_scan-saved m = let s = start_scan-saved m in ground arith

  start_connection-saved : (i : ℕ) (m : WifiManager) → HasSaved m.saved (start_connection env i m)
  unfolding start_connection
  start_connection-saved i m = elim (Option-cases (get_elem? m.saved i)) [
    | inl outside ↦ rw (outside, start_connection) (record { are = tt })
    | inr (n, at) ↦ rw (at, start_connection) (with_saved _ refl)
  ]

  pub connect_saved-saved : (i : ℕ) (m : WifiManager) → HasSaved m.saved (connect_saved env i m).0
  unfolding connect_saved
  connect_saved-saved i m = elim (Bool-cases (leb (length m.saved) i)) [
    | inl outside ↦ rw outside (with_saved m refl)
    | inr inside ↦
        rw inside
          (start_connection-saved i (record m { reconnect_index = i; reconnect_attempts = 0 }))
  ]

  next_network-saved : (m : WifiManager) → HasSaved m.saved (next_network env m)
  unfolding next_network
  next_network-saved m =
      let d : WifiManager = record m {
        calls = WifiCall.disconnect ∷ m.calls;
        connect_started_ms = 0;
        reconnect_attempts = m.reconnect_attempts + 1;
      } in
      let i = (d.reconnect_index + 1) % length d.saved in
      let e : WifiManager = record d { reconnect_index = 0; needs_setup = true } in
      let f : WifiManager = if not e.scanning then start_scan e else e in
      let h : f.saved ≡ m.saved =
        if_both (λ (w : WifiManager). w.saved ≡ m.saved) (not e.scanning) {x = start_scan e} {y = e}
          (start_scan-saved e) refl in
      if_both (HasSaved m.saved) _ (start_connection-saved i (record d { reconnect_index = i }))
        (with_saved f h)

  try_known_networks-saved : (m : WifiManager) → HasSaved m.saved (try_known_networks env m)
  unfolding try_known_networks
  try_known_networks-saved m =
      let best = strongest m.saved m.scan 0 (negsuc 127) in
      if_both (HasSaved m.saved) _ (with_saved m refl)
        (connect_saved-saved best (record m { reconnect_index = best; reconnect_attempts = 0 }))

  reconnect-saved : (m : WifiManager) → HasSaved m.saved (reconnect env m)
  unfolding reconnect
  reconnect-saved m = if_both (HasSaved m.saved) _ (next_network-saved m) (
      if_both (HasSaved m.saved) _
        (try_known_networks-saved (record m { last_reconnect_ms = env.now })) (with_saved m refl))

  -- A pass of the manager leaves the saved networks as they are.
  pub tick-saved : (m : WifiManager) → HasSaved m.saved (tick env m)
  unfolding tick
  tick-saved m =
      let p = poll_scan_result env m in
      let q : WifiManager =
        if p.pending_scan && not p.scanning then run_pending_scan env p else p in
      let r = retry_scan env q in
      let hq : q.saved ≡ p.saved =
        if_both (λ (w : WifiManager). w.saved ≡ p.saved) (p.pending_scan && not p.scanning)
          {x = run_pending_scan env p} {y = p} (run_pending-saved p) refl in
      let h = retry_scan-saved q ∙ hq ∙ poll-saved m in
      if_both (HasSaved m.saved) _ (with_saved (record r { connect_started_ms = 0 }) h) (
        if_both (HasSaved m.saved) _ (with_saved r h)
          (subst (λ l. HasSaved l (reconnect env r)) h (reconnect-saved r)))
