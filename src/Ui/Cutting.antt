-- ===== src/Ui/Cutting.antt =====
-- Cutting a text at its characters (Ui/Characters).
use cardputer_codex_deck.Base.{
  ℕ, zero, suc, ◌+◌, ◌-◌, ◌<◌, ◌≡◌, refl, ap, sym, ◌∙◌, Bool, true, false, ◌&&◌, [], ◌∷◌, ◌++◌,
  Text, length, length-append, take, arith, is_empty,
}
use cardputer_codex_deck.Ui.Characters.{
  byte_at, is_continuation, character_start, remove_last_utf8_character,
}

abbrev pub all_continuation : Text → Bool
all_continuation [] = true
all_continuation (c ∷ cs) = is_continuation c && all_continuation cs

byte_at-append : (s t : Text) (j : ℕ) → byte_at (s ++ t) (length s + j) ≡ byte_at t j
byte_at-append [] t j = let e : 0 + j ≡ j = omega arith in ap (byte_at t) e
byte_at-append (c ∷ s) t j =
    let e : suc (length s) + j ≡ suc (length s + j) = omega arith in
    ap (byte_at (c ∷ (s ++ t))) e ∙ byte_at-append s t j

all_continuation-byte :
    (cs : Text) (j : ℕ)
    → all_continuation cs ≡ true
    → j < length cs
    → is_continuation (byte_at cs j) ≡ true
all_continuation-byte [] j h k = absurd (omega arith)
all_continuation-byte (c ∷ cs) zero h k = ground arith
all_continuation-byte (c ∷ cs) (suc j) h k = all_continuation-byte cs j (ground arith) (omega arith)

start_at : (v : Text) (n : ℕ) → is_continuation (byte_at v n) ≡ false → character_start v n ≡ n
unfolding character_start
start_at v zero h = refl
start_at v (suc n) h = rw h refl

-- From inside a character back to its lead byte.
start_back :
    (v : Text) (n k : ℕ)
    → is_continuation (byte_at v n) ≡ false
    → ((j : ℕ) → j < k → is_continuation (byte_at v (n + suc j)) ≡ true)
    → character_start v (n + k) ≡ n
unfolding character_start
start_back v n zero lead rest =
    let e : n + 0 ≡ n = omega arith in ap (character_start v) e ∙ start_at v n lead
start_back v n (suc k) lead rest =
    let e : n + suc k ≡ suc (n + k) = omega arith in
    let last : is_continuation (byte_at v (suc (n + k))) ≡ true =
      ap (λ i. is_continuation (byte_at v i)) (sym e) ∙ rest k (omega arith) in
    ap (character_start v) e ∙ rw last (start_back v n k lead (λ j h. rest j (omega arith)))

take-append : (s t : Text) → take (length s) (s ++ t) ≡ s
take-append [] t = refl
take-append (c ∷ s) t = ap (◌∷◌ c) (take-append s t)

-- `removeLastUtf8Character` takes exactly the last character off: a lead byte and the continuation
-- bytes behind it.
pub remove_last_utf8_character-append :
    (s : Text) (lead : ℕ) (cs : Text)
    → is_continuation lead ≡ false
    → all_continuation cs ≡ true
    → remove_last_utf8_character (s ++ lead ∷ cs) ≡ s
unfolding remove_last_utf8_character
remove_last_utf8_character-append s lead cs h k =
    let v = s ++ lead ∷ cs in
    let long = length-append s (lead ∷ cs) in
    let e : length s ≡ length s + 0 = omega arith in
    let at : is_continuation (byte_at v (length s)) ≡ false =
      ap is_continuation (ap (byte_at v) e ∙ byte_at-append s (lead ∷ cs) 0) ∙ h in
    let back = start_back v (length s) (length cs) at (λ j inside.
      ap is_continuation (byte_at-append s (lead ∷ cs) (suc j))
      ∙ all_continuation-byte cs j k inside) in
    let last : length v - 1 ≡ length s + length cs = omega (arith, long) in
    let start : character_start v (length v - 1) ≡ length s = ap (character_start v) last ∙ back in
    let some_bytes : is_empty v ≡ false = full s lead cs in
    rw (some_bytes, start) (take-append s (lead ∷ cs))
  where
    full : (s : Text) (lead : ℕ) (cs : Text) → is_empty (s ++ lead ∷ cs) ≡ false
    full [] lead cs = refl
    full (c ∷ s) lead cs = refl
