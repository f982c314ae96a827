-- ===== src/Keys/Balance.antt =====
-- What the receiver of the key events holds (Keys/Transmitter).
use cardputer_codex_deck.Base.{
  ℕ, ◌≡◌, refl, Bool, true, false, ◌&&◌, ◌||◌, not, List, [], ◌∷◌, ◌++◌, Text, text_eq, text_eq_iff,
  if◌then◌else◌, arith, Bool-cases, inl, inr,
}
use cardputer_codex_deck.Keys.Keymap.{KeyCodes}
use cardputer_codex_deck.Keys.Transmitter.{
  Keyboard, ActiveKey, down, up, KeyEvent, KeyTransmitter, contains, key_event, build_current,
  send_missing, release_all, tick,
}

-- Whether a receiver that held the key or not (`held`) holds it after an event.
abbrev pub after_event : Text → Bool → KeyEvent → Bool
after_event k held e = if text_eq e.key k then elim e.action [ down ↦ true | up ↦ false ] else held

abbrev pub holds : List KeyEvent → Text → Bool → Bool
holds [] k held = held
holds (e ∷ es) k held = holds es k (after_event k held e)

pub holds-append :
    (es fs : List KeyEvent) (k : Text) (held : Bool)
    → holds (es ++ fs) k held ≡ holds fs k (holds es k held)
holds-append [] fs k held = refl
holds-append (e ∷ es) fs k held = holds-append es fs k (after_event k held e)

holds-ups :
    (others list : List ActiveKey) (k : Text) (held : Bool)
    → holds (send_missing up others list) k held
      ≡ (held && not (contains list k && not (contains others k)))
unfolding send_missing contains key_event
holds-ups others [] k held = ground arith
holds-ups others (a ∷ list) k held =
    ground (arith, text_eq_iff a.key k, holds-ups others list k held, holds-ups others list k false)

holds-downs :
    (others list : List ActiveKey) (k : Text) (held : Bool)
    → holds (send_missing down others list) k held
      ≡ (held || (contains list k && not (contains others k)))
unfolding send_missing contains key_event
holds-downs others [] k held = ground arith
holds-downs others (a ∷ list) k held =
    ground
      (arith, text_eq_iff a.key k, holds-downs others list k held, holds-downs others list k true)

-- The inputs of one pass of the main loop.
pub record Pass : Type 0 where
  pub keyboard : Keyboard
  pub ui_consumes_keyboard : Bool
  pub connected : Bool

-- Whether the Mac holds a key after a pass with these events. `sendKey` takes them while the link is
-- up; when it is down the bridge has released every key of the session.
abbrev pub held_after : Text → Bool → Bool → List KeyEvent → Bool
held_after k held connected es = if connected then holds es k held else false

module _ (codes : KeyCodes) (typeless : ℕ) where
  abbrev pub pass : KeyTransmitter → Pass → KeyTransmitter × List KeyEvent
  pass t p = tick codes typeless p.keyboard p.ui_consumes_keyboard p.connected t

  -- The events of a pass take a receiver that holds the keys of `previous_` to one that holds
  -- the keys of the new `previous_`, whatever the inputs are.
  pub holds-tick :
      (t : KeyTransmitter) (p : Pass) (k : Text)
      → holds (pass t p).1 k (contains t.previous k) ≡ contains (pass t p).0.previous k
  unfolding tick release_all contains
  holds-tick t p k = elim (Bool-cases (p.ui_consumes_keyboard || not p.connected)) [
    | inl e ↦ rw e (rw (holds-ups [] t.previous k (contains t.previous k)) (ground arith))
    | inr e ↦ rw e (
        let cur = build_current codes typeless p.keyboard t.previous in
        rw
          (
            holds-append (send_missing up cur t.previous) (send_missing down t.previous cur) k
                (contains t.previous k),
            holds-ups cur t.previous k (contains t.previous k),
            holds-downs t.previous cur k
                (contains t.previous k && not (contains t.previous k && not (contains cur k))),
          )
          (ground arith))
  ]

  pub run : KeyTransmitter → List Pass → KeyTransmitter × List KeyEvent
  run t [] = (t, [])
  run t (p ∷ ps) = let (t', es) = pass t p in let (t'', fs) = run t' ps in (t'', es ++ fs)

  -- Over any sequence of passes from any transmitter state, the key events sent take a receiver
  -- that holds the keys of `previous_` to one that holds exactly the keys of the final `previous_`.
  pub holds-run :
      (t : KeyTransmitter) (ps : List Pass) (k : Text)
      → holds (run t ps).1 k (contains t.previous k) ≡ contains (run t ps).0.previous k
  unfolding run
  holds-run t [] k = refl
  holds-run t (p ∷ ps) k =
      rw
        (
          holds-append (pass t p).1 (run (pass t p).0 ps).1 k (contains t.previous k),
          holds-tick t p k,
        )
        (holds-run (pass t p).0 ps k)

  -- Whether the Mac holds a key after the passes.
  pub held_by_mac : Text → KeyTransmitter → Bool → List Pass → Bool
  held_by_mac k t held [] = held
  held_by_mac k t held (p ∷ ps) =
      let (t', es) = pass t p in held_by_mac k t' (held_after k held p.connected es) ps
