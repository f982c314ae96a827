-- ===== src/Ui/Ellipsis.antt =====
-- Shortening a line to its panel, `fitWithEllipsis` (Ui/Layout).
use cardputer_codex_deck.Base.{
  ℕ, zero, suc, ◌-◌, ◌≤◌, ◌<◌, ◌≡◌, Bool, true, false, ◌&&◌, ◌||◌, not, [], ◌∷◌, ◌++◌, Text, text,
  is_empty, if_both, if_given, length, length-take, arith, inl, inr, Bool-cases,
}
use cardputer_codex_deck.Ui.Characters.{
  byte_at, is_continuation, character_start, remove_last_utf8_character,
}
use cardputer_codex_deck.Ui.Layout.{fits, shorten, fit_with_ellipsis}

character_start-le : (v : Text) (n : ℕ) → character_start v n ≤ n
unfolding character_start
character_start-le v zero = omega arith
character_start-le v (suc n) =
    if_both (λ k. k ≤ suc n) (is_continuation (byte_at v (suc n))) {x = character_start v n}
      (omega (arith, character_start-le v n)) (omega arith)

remove_last-shorter :
    (t : Text) → is_empty t ≡ false → length (remove_last_utf8_character t) < length t
unfolding remove_last_utf8_character
remove_last-shorter [] h = absurd (ground arith)
remove_last-shorter (c ∷ t) h =
    let n = length (c ∷ t) - 1 in
    omega (arith, character_start-le (c ∷ t) n, length-take (character_start (c ∷ t) n) (c ∷ t))

module _ (text_width : Text → ℕ) (width : ℕ) where
  abbrev pub Fits : Text → Type 0
  Fits t = fits text_width width t ≡ true

  module _ (dots : Fits (text "...")) where
    shorten-fits :
        (n : ℕ) (t : Text) → length t ≤ n → Fits (shorten text_width width n t ++ text "...")
    unfolding shorten
    shorten-fits zero [] h = dots
    shorten-fits zero (c ∷ t) h = absurd (omega arith)
    shorten-fits (suc n) t h =
        elim (Bool-cases (is_empty t || fits text_width width (t ++ text "..."))) [
          | inl done ↦ rw done (elim (Bool-cases (is_empty t)) [
            | inl empty ↦ nothing_left t empty
            | inr some_bytes ↦ ground arith
          ])
          | inr on ↦
              let some_bytes : is_empty t ≡ false = ground arith in
              rw on (
                shorten-fits n (remove_last_utf8_character t)
                  (omega (arith, remove_last-shorter t some_bytes)))
        ]
      where
        nothing_left : (t : Text) → is_empty t ≡ true → Fits (t ++ text "...")
        nothing_left [] e = dots
        nothing_left (c ∷ t) e = absurd (ground arith)

    pub fit_with_ellipsis-fits :
        (t : Text) (force : Bool) → Fits (fit_with_ellipsis text_width width t force)
    unfolding fit_with_ellipsis
    fit_with_ellipsis-fits t force =
        if_given Fits (not force && fits text_width width t)
          {y = shorten text_width width (length t) t ++ text "..."} (λ h. ground arith)
          (λ _. shorten-fits (length t) t (omega arith))
