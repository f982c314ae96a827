-- ===== src/Ui/Reading.antt =====
-- Reading the activity text token by token, and the fuel of that loop (Ui/Layout).
use cardputer_codex_deck.Base.{
  ℕ, zero, suc, ◌≤◌, ◌<◌, ◌≡◌, refl, ap, Bool, true, ◌||◌, not, [], ◌∷◌, Text, is_empty,
  if◌then◌else◌, if_both, if_given, length, drop, take, ltb, ◌-◌, arith,
}
use cardputer_codex_deck.Ui.Characters.{utf8_character_length}
use cardputer_codex_deck.Ui.Layout.{
  next_segment, place_segment, place_segments, Layout, span, is_space, place_token, place_text,
}

span-le : (p : ℕ → Bool) (s : Text) → length (span p s).1 ≤ length s
span-le p [] = omega arith
span-le p (c ∷ s) =
    if_both (λ (r : Text × Text). length r.1 ≤ suc (length s)) (p c)
      {x = (c ∷ (span p s).0, (span p s).1)} {y = ([], c ∷ s)} (omega (arith, span-le p s))
      (omega arith)

-- What is left of a text behind its first token.
abbrev behind_token : Text → Text
behind_token s = (span (λ c. not (is_space c)) (span is_space s).1).1

behind_token-shorter : (c : ℕ) (s : Text) → length (behind_token (c ∷ s)) < length (c ∷ s)
behind_token-shorter c s =
    let token_byte : ℕ → Bool = λ x. not (is_space x) in
    if_given (λ (r : Text × Text). length (span token_byte r.1).1 < suc (length s)) (is_space c)
      {x = (c ∷ (span is_space s).0, (span is_space s).1)} {y = ([], c ∷ s)}
      (λ _. omega (arith, span-le is_space s, span-le token_byte (span is_space s).1))
      (λ no.
        if_given (λ (r : Text × Text). length r.1 < suc (length s)) (token_byte c)
          {x = (c ∷ (span token_byte s).0, (span token_byte s).1)} {y = ([], c ∷ s)}
          (λ _. omega (arith, span-le token_byte s)) (λ h. absurd (ground arith)))

length-drop : (n : ℕ) (s : Text) → length (drop n s) ≡ length s - n
length-drop zero s = omega arith
length-drop (suc n) [] = omega arith
length-drop (suc n) (c ∷ s) = omega (arith, length-drop n s)

utf8_character_length-positive : (c : ℕ) (s : Text) → 1 ≤ utf8_character_length (c ∷ s) 0
unfolding utf8_character_length
utf8_character_length-positive c s = ground arith

next_segment-shorter : (c : ℕ) (s : Text) → length (next_segment (c ∷ s)).1 < length (c ∷ s)
unfolding next_segment
next_segment-shorter c s =
    let n = utf8_character_length (c ∷ s) 0 in
    let ascii : ℕ → Bool = λ x. ltb x 128 in
    if_given (λ (r : Text × Text). length r.1 < suc (length s)) (ltb c 128)
      {y = (take n (c ∷ s), drop n (c ∷ s))}
      (λ small.
        if_given (λ (r : Text × Text). length r.1 < suc (length s)) (ascii c)
          {x = (c ∷ (span ascii s).0, (span ascii s).1)} {y = ([], c ∷ s)}
          (λ _. omega (arith, span-le ascii s)) (λ h. absurd (ground arith)))
      (λ _. omega (arith, length-drop n (c ∷ s), utf8_character_length-positive c s))

module _ (text_width : Text → ℕ) (width : ℕ) where
  -- The fuel is enough: the text is read to its end unless the lines are full.
  place_text-through :
      (n : ℕ) (activity : Text) (l : Layout)
      → length activity ≤ n
      → let r = place_text text_width width n activity l in (is_empty r.1 || r.0.overflow) ≡ true
  unfolding place_text
  place_text-through zero [] l h = refl
  place_text-through (suc n) [] l h = refl
  place_text-through zero (c ∷ s) l h = absurd (omega arith)
  place_text-through (suc n) (c ∷ s) l h =
      let start = (span is_space (c ∷ s)).1 in
      let (token, rest) = span (λ x. not (is_space x)) start in
      let more : Layout = if is_empty token then l else place_token text_width width token l in
      if_given (λ (r : Layout × Text). (is_empty r.1 || r.0.overflow) ≡ true) l.overflow
        {x = (l, c ∷ s)} (λ full. ground arith)
        (λ _. place_text-through n rest more (omega (arith, h, behind_token-shorter c s)))

  -- Fuel for every byte of a token is enough: more of it changes nothing.
  place_segments-fuel :
      (n m : ℕ) (token : Text) (l : Layout)
      → length token ≤ n
      → length token ≤ m
      → place_segments text_width width n token l ≡ place_segments text_width width m token l
  unfolding place_segments
  place_segments-fuel zero zero token l h k = refl
  place_segments-fuel zero (suc m) [] l h k = refl
  place_segments-fuel (suc n) zero [] l h k = refl
  place_segments-fuel (suc n) (suc m) [] l h k = refl
  place_segments-fuel zero (suc m) (c ∷ s) l h k = absurd (omega arith)
  place_segments-fuel (suc n) zero (c ∷ s) l h k = absurd (omega arith)
  place_segments-fuel (suc n) (suc m) (c ∷ s) l h k =
      let (segment, rest) = next_segment (c ∷ s) in
      let less = next_segment-shorter c s in
      ap (λ (x : Layout). if l.overflow then l else x)
        (place_segments-fuel n m rest (place_segment text_width width segment l)
          (omega (arith, h, less)) (omega (arith, k, less)))
