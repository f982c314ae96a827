-- ===== src/Keys/Bounds.antt =====
-- The sizes of the two key arrays and of the names in them (Keys/Transmitter).
use cardputer_codex_deck.Base.{
  ℕ, ◌+◌, ◌≤◌, ◌<◌, ◌≡◌, refl, Bool, true, false, Option, none, some, List, [], ◌∷◌, ◌++◌, Text,
  length, length-append, length-take, take_all, ◌-◌, ◌^◌, ◌⊎◌, suc, arith, Option-cases, inl, inr,
  u32, if◌then◌else◌,
}
use cardputer_codex_deck.Keys.Keymap.{KeyCodes, map_fn_key, map_special_key, map_modifier}
use cardputer_codex_deck.Keys.Transmitter.{
  Position, Keyboard, ActiveKey, down, up, KeyEvent, KeyTransmitter, capacity, key_size, copy_key,
  modifier_entry, key_entry, resolve, latched_key, previous_physical, physical_id, collect,
  build_current, key_event, send_missing, count_missing, release_all, tick,
}

-- Every name fits `char key[20]` with its NUL.
abbrev pub Fits : List ActiveKey → Type 0
Fits [] = Unit {0}
Fits (a ∷ list) = (length a.key < key_size) × Fits list

-- The invariant of the transmitter's state.
pub record IsValid (t : KeyTransmitter) : Type 0 where
  pub within : length t.previous ≤ capacity
  pub fits : Fits t.previous

Fits-append : (xs ys : List ActiveKey) → Fits xs → Fits ys → Fits (xs ++ ys)
Fits-append [] ys hx hy = hy
Fits-append (a ∷ xs) ys hx hy = (hx.0, Fits-append xs ys hx.1 hy)

-- A body that adds nothing to a full array, and only names that fit.
record IsBounded (body : ℕ → Position → Option ActiveKey) : Type 0 where
  full : (n : ℕ) (p : Position) → capacity ≤ n → body n p ≡ none
  short : (n : ℕ) (p : Position) (a : ActiveKey) → body n p ≡ some a → length a.key < key_size

collect-bounds :
    (body : ℕ → Position → Option ActiveKey) (ps : List Position) (output : List ActiveKey)
    → IsBounded body
    → length output ≤ capacity
    → Fits output
    → (length (collect body ps output) ≤ capacity) × Fits (collect body ps output)
unfolding collect
collect-bounds body [] output b h f = (h, f)
collect-bounds body (p ∷ ps) output b h f = elim (Option-cases (body (length output) p)) [
  | inl e ↦ rw (e, collect) (collect-bounds body ps output b h f)
  | inr (a, e) ↦
      rw (e, collect)
        (collect-bounds body ps (output ++ a ∷ []) b
          (ground (arith, b.full (length output) p, length-append output (a ∷ [])))
          (Fits-append output (a ∷ []) f (b.short (length output) p a e, tt)))
]

length-copy_key : (s : Text) → length (copy_key s) < key_size
unfolding copy_key
length-copy_key s = omega (arith, length-take (key_size - 1) s)

length-resolve :
    (fn : Bool) (mapped latched : Option Text) (physical : ℕ) (key : Text)
    → resolve fn mapped latched physical ≡ some key
    → length key < key_size
unfolding resolve
length-resolve true (some m) latched physical key e = ground (arith, length-copy_key m)
length-resolve true none (some k) physical key e = ground (arith, length-copy_key k)
length-resolve true none none physical key e = ground arith
length-resolve false (some m) (some k) physical key e = ground (arith, length-copy_key k)
length-resolve false none (some k) physical key e = ground (arith, length-copy_key k)
length-resolve false (some m) none physical key e = ground (arith, length-copy_key m)
length-resolve false none none physical key e = ground arith

module _ (codes : KeyCodes) (kb : Keyboard) where
  modifier_entry-IsBounded : IsBounded (modifier_entry codes kb)
  unfolding modifier_entry
  modifier_entry-IsBounded = record {
    full = λ n p h. ground arith;
    short = λ n p a e. elim (Option-cases (map_modifier codes p.value_first)) [
      | inl none_mapped ↦ ground arith
      | inr (m, mapped) ↦ ground (arith, length-copy_key m)
    ];
  }

  key_entry-IsBounded :
      (typeless : ℕ) (previous : List ActiveKey) → IsBounded (key_entry codes typeless kb previous)
  unfolding key_entry
  key_entry-IsBounded typeless previous = record {
    full = λ n p h. ground arith;
    short = λ n p a e.
        let mapped : Option Text =
          if kb.fn
          then map_fn_key codes p.value_first typeless
          else map_special_key codes p.value_first in
        let latched = latched_key (previous_physical previous (physical_id p)) in
        elim (Option-cases (resolve kb.fn mapped latched p.value_first)) [
          | inl skipped ↦ ground arith
          | inr (k, resolved) ↦
              ground (arith, length-resolve kb.fn mapped latched p.value_first k resolved)
        ];
  }

  build_current-bounds :
      (typeless : ℕ) (previous : List ActiveKey)
      → (length (build_current codes typeless kb previous) ≤ capacity)
        × Fits (build_current codes typeless kb previous)
  unfolding build_current
  build_current-bounds typeless previous =
      let mods = collect-bounds _ kb.positions [] modifier_entry-IsBounded (omega arith) tt in
      collect-bounds _ kb.positions _ (key_entry-IsBounded typeless previous) mods.0 mods.1

  -- Whatever the keyboard reports, a tick leaves at most six keys, each with a name that fits its
  -- twenty bytes, if it found so.
  pub tick-IsValid :
      (typeless : ℕ) (ui connected : Bool) (t : KeyTransmitter)
      → IsValid t
      → IsValid (tick codes typeless kb ui connected t).0
  unfolding tick release_all
  tick-IsValid typeless ui connected t v = ground (arith, build_current-bounds typeless t.previous)

-- The names of the key map are never cut by `strlcpy`.
pub copy_key_of_short : (s : Text) → length s < key_size → copy_key s ≡ s
unfolding copy_key
copy_key_of_short s h = take_all 19 s (omega arith)

map_fn_key-fits :
    (codes : KeyCodes) (key typeless : ℕ) (name : Text)
    → map_fn_key codes key typeless ≡ some name
    → length name < key_size
unfolding map_fn_key
map_fn_key-fits codes key typeless name e = ground arith

map_special_key-fits :
    (codes : KeyCodes) (key : ℕ) (name : Text)
    → map_special_key codes key ≡ some name
    → length name < key_size
unfolding map_special_key
map_special_key-fits codes key name e = ground arith

map_modifier-fits :
    (codes : KeyCodes) (key : ℕ) (name : Text)
    → map_modifier codes key ≡ some name
    → length name < key_size
unfolding map_modifier
map_modifier-fits codes key name e = ground arith

-- Every name that `mapFnKey`, `mapSpecialKey` or `mapModifier` gives survives `copyKey` whole.
pub key_names_uncut :
    (codes : KeyCodes) (key typeless : ℕ) (name : Text)
    → (map_fn_key codes key typeless ≡ some name)
      ⊎ (map_special_key codes key ≡ some name)
      ⊎ (map_modifier codes key ≡ some name)
    → copy_key name ≡ name
key_names_uncut codes key typeless name (inl e) =
    copy_key_of_short name (map_fn_key-fits codes key typeless name e)
key_names_uncut codes key typeless name (inr (inl e)) =
    copy_key_of_short name (map_special_key-fits codes key name e)
key_names_uncut codes key typeless name (inr (inr e)) =
    copy_key_of_short name (map_modifier-fits codes key name e)

pub downs : List KeyEvent → ℕ
downs [] = 0
downs (e ∷ es) = elim e.action [ down ↦ suc (downs es) | up ↦ downs es ]

downs-append : (es fs : List KeyEvent) → downs (es ++ fs) ≡ downs es + downs fs
unfolding downs
downs-append [] fs = omega arith
downs-append (e ∷ es) fs = ground (arith, downs-append es fs)

downs-send_up : (others list : List ActiveKey) → downs (send_missing up others list) ≡ 0
unfolding downs send_missing key_event
downs-send_up others [] = refl
downs-send_up others (a ∷ list) = ground (arith, downs-send_up others list)

count_missing-downs :
    (others list : List ActiveKey) (n : ℕ)
    → n < 2 ^ 32
    → count_missing down others list n ≡ u32 (n + downs (send_missing down others list))
unfolding downs send_missing count_missing key_event
count_missing-downs others [] n h = omega arith
count_missing-downs others (a ∷ list) n h =
    ground (arith, count_missing-downs others list n, count_missing-downs others list (u32 (n + 1)))

-- From a count below 2^32, a tick adds to `sentKeys_` the number of its key-down events, modulo
-- 2^32.
tick_counts :
    (codes : KeyCodes) (typeless : ℕ) (kb : Keyboard) (ui connected : Bool) (t : KeyTransmitter)
    → t.sent_keys < 2 ^ 32
    → let r = tick codes typeless kb ui connected t in r.0.sent_keys ≡ u32 (t.sent_keys + downs r.1)
unfolding tick release_all
tick_counts codes typeless kb ui connected t h =
    let cur = build_current codes typeless kb t.previous in
    ground (
      arith,
      downs-append (send_missing up cur t.previous) (send_missing down t.previous cur),
      downs-send_up cur t.previous,
      downs-send_up [] t.previous,
      count_missing-downs t.previous cur t.sent_keys,
    )
