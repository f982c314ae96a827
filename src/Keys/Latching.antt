-- ===== src/Keys/Latching.antt =====
-- The logical key of a held switch (Keys/Transmitter).
use mathlib.Core.List.{append_assoc, append-nil}
use cardputer_codex_deck.Base.{
  ℕ, ◌<◌, ◌≡◌, ◌∙◌, sym, false, Option, some, List, [], ◌∷◌, ◌++◌, length, arith, Option-cases, inl,
  inr,
}
use cardputer_codex_deck.Keys.Keymap.{KeyCodes}
use cardputer_codex_deck.Keys.Transmitter.{
  Position, Keyboard, ActiveKey, key_size, modifier_entry, key_entry, resolve, previous_physical,
  physical_id, collect, build_current,
}
use cardputer_codex_deck.Keys.Bounds.{Fits, copy_key_of_short}

-- An entry has the name that `previous_` holds for its switch, if it holds one.
abbrev pub KeepsName : List ActiveKey → ActiveKey → Type 0
KeepsName previous a =
    (old : ActiveKey) → previous_physical previous a.physical ≡ some old → a.key ≡ old.key

abbrev pub AllKeep : List ActiveKey → List ActiveKey → Type 0
AllKeep previous [] = Unit {0}
AllKeep previous (a ∷ list) = KeepsName previous a × AllKeep previous list

-- The entries that a loop adds stand behind those that were there.
collect-AllKeep :
    (previous : List ActiveKey) (body : ℕ → Position → Option ActiveKey)
    → ((n : ℕ) (p : Position) (a : ActiveKey) → body n p ≡ some a → KeepsName previous a)
    → (ps : List Position) (output : List ActiveKey)
    → (new : List ActiveKey) × (collect body ps output ≡ output ++ new) × AllKeep previous new
unfolding collect
collect-AllKeep previous body keeps [] output = ([], sym (append-nil output), tt)
collect-AllKeep previous body keeps (p ∷ ps) output = elim (Option-cases (body (length output) p)) [
  | inl e ↦ rw (e, collect) (collect-AllKeep previous body keeps ps output)
  | inr (a, e) ↦
      let (new, eq, all) = collect-AllKeep previous body keeps ps (output ++ a ∷ []) in
      rw (e, collect)
        ((a ∷ new, eq ∙ append_assoc output (a ∷ []) new, (keeps (length output) p a e, all)))
]

previous_physical-Fits :
    (previous : List ActiveKey) (physical : ℕ) (old : ActiveKey)
    → Fits previous
    → previous_physical previous physical ≡ some old
    → length old.key < key_size
unfolding previous_physical
previous_physical-Fits [] physical old f e = ground arith
previous_physical-Fits (a ∷ list) physical old f e =
    ground (arith, previous_physical-Fits list physical old f.1)

module _ (codes : KeyCodes) (typeless : ℕ) (kb : Keyboard) (previous : List ActiveKey) where
  key_entry-KeepsName :
      kb.fn ≡ false
      → Fits previous
      → (n : ℕ) (p : Position) (a : ActiveKey) → key_entry codes typeless kb previous n p ≡ some a
      → KeepsName previous a
  unfolding key_entry resolve
  key_entry-KeepsName released f n p a e old h =
      elim (Option-cases (previous_physical previous (physical_id p))) [
        | inl absent ↦ ground arith
        | inr (o, found) ↦ ground (
          arith,
          copy_key_of_short o.key,
          previous_physical-Fits previous (physical_id p) o f found,
        )
      ]

  -- While Fn is up and the names held fit their arrays, every key that is no modifier has the name
  -- that `previous_` holds for its switch, if it holds one, also where that name came from an Fn
  -- chord.
  pub build_current-latched :
      kb.fn ≡ false
      → Fits previous
      → (new : List ActiveKey) × (build_current codes typeless kb previous
          ≡ collect (modifier_entry codes kb) kb.positions [] ++ new)
        × AllKeep previous new
  unfolding build_current
  build_current-latched released f =
      collect-AllKeep previous _ (key_entry-KeepsName released f) kb.positions _
