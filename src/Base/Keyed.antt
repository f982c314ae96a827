-- ===== src/Base/Keyed.antt =====
-- Lists whose entries have a text as key: the index of a key, lookup, and keys that stay distinct.
use Prim.Native.Nat.{ℕ, zero, suc}
use mathlib.Core.Path.{◌≡◌, refl}
use mathlib.Core.Bool.{true}
use mathlib.Core.Logic.{◌≢◌, inl, inr}
use mathlib.Core.List.{List, [], ◌∷◌, ◌++◌}
use mathlib.Core.Option.{Option, none, some}
use native.Mathlib.Omega.{arith}
use cardputer_codex_deck.Base.Tests.{if◌then◌else◌, Bool-cases, Option-cases}
use cardputer_codex_deck.Base.Lists.{find_index?, get_elem?, set, remove_at}
use cardputer_codex_deck.Base.Strings.{Text, text_eq, text_eq→eq, text_eq_iff}

module _ {A : Type 0} (key : A → Text) where
  abbrev pub index_by : List A → Text → Option ℕ
  index_by xs k = find_index? (λ x. text_eq (key x) k) xs

  -- The first entry with the key.
  abbrev pub lookup_by : List A → Text → Option A
  lookup_by [] k = none
  lookup_by (x ∷ xs) k = if text_eq (key x) k then some x else lookup_by xs k

  -- No two entries have one key.
  abbrev pub DistinctBy : List A → Type 0
  DistinctBy [] = Unit {0}
  DistinctBy (x ∷ xs) = (lookup_by xs (key x) ≡ none) × DistinctBy xs

  pub lookup_by-append :
      (xs : List A) (x : A) (k : Text)
      → lookup_by xs (key x) ≡ none
      → lookup_by (xs ++ x ∷ []) k ≡ (if text_eq (key x) k then some x else lookup_by xs k)
  lookup_by-append [] x k h = refl
  lookup_by-append (y ∷ xs) x k h = ground (
    arith,
    text_eq_iff (key y) (key x),
    text_eq_iff (key y) k,
    text_eq_iff (key x) k,
    lookup_by-append xs x k,
  )

  pub DistinctBy-append :
      (xs : List A) (x : A)
      → lookup_by xs (key x) ≡ none
      → DistinctBy xs
      → DistinctBy (xs ++ x ∷ [])
  DistinctBy-append [] x h d = (refl, tt)
  DistinctBy-append (y ∷ xs) x h d = ground (
    arith,
    text_eq_iff (key y) (key x),
    text_eq_iff (key x) (key y),
    lookup_by-append xs x (key y),
    DistinctBy-append xs x,
  )

  pub index_by-none : (xs : List A) (k : Text) → index_by xs k ≡ none → lookup_by xs k ≡ none
  index_by-none [] k h = refl
  index_by-none (x ∷ xs) k h = elim (Option-cases (index_by xs k)) [
    | inl absent ↦ ground (arith, index_by-none xs k absent)
    | inr (i, found) ↦ absurd (ground arith)
  ]

  -- Putting in an entry at the index of its own key changes that key's entry only.
  pub lookup_by-set :
      (xs : List A) (i : ℕ) (x : A) (k : Text)
      → index_by xs (key x) ≡ some i
      → lookup_by (set xs i x) k ≡ (if text_eq (key x) k then some x else lookup_by xs k)
  lookup_by-set [] i x k h = absurd (ground arith)
  lookup_by-set (y ∷ xs) zero x k h = elim (Option-cases (index_by xs (key x))) [
    | inl absent ↦
        ground (arith, text_eq_iff (key y) (key x), text_eq_iff (key y) k, text_eq_iff (key x) k)
    | inr (j, found) ↦
        ground (arith, text_eq_iff (key y) (key x), text_eq_iff (key y) k, text_eq_iff (key x) k)
  ]
  lookup_by-set (y ∷ xs) (suc i) x k h = elim (Option-cases (index_by xs (key x))) [
    | inl absent ↦ absurd (ground arith)
    | inr (j, found) ↦ ground (
      arith,
      text_eq_iff (key y) (key x),
      text_eq_iff (key y) k,
      text_eq_iff (key x) k,
      lookup_by-set xs i x k,
    )
  ]

  -- Removing the entry of a key leaves the others, and none of that key.
  pub lookup_by-remove_at :
      (xs : List A) (i : ℕ) (gone k : Text)
      → DistinctBy xs
      → index_by xs gone ≡ some i
      → lookup_by (remove_at xs i) k ≡ (if text_eq gone k then none else lookup_by xs k)
  lookup_by-remove_at [] i gone k d h = absurd (ground arith)
  lookup_by-remove_at (y ∷ xs) zero gone k d h = elim (Option-cases (index_by xs gone)) [
    | inl absent ↦
        ground (arith, text_eq_iff (key y) gone, text_eq_iff (key y) k, text_eq_iff gone k)
    | inr (j, found) ↦
        ground (arith, text_eq_iff (key y) gone, text_eq_iff (key y) k, text_eq_iff gone k)
  ]
  lookup_by-remove_at (y ∷ xs) (suc i) gone k d h = elim (Option-cases (index_by xs gone)) [
    | inl absent ↦ absurd (ground arith)
    | inr (j, found) ↦ ground (
      arith,
      text_eq_iff (key y) gone,
      text_eq_iff (key y) k,
      text_eq_iff gone k,
      lookup_by-remove_at xs i gone k,
    )
  ]

  lookup_by-remove_at_none :
      (xs : List A) (i : ℕ) (k : Text) → lookup_by xs k ≡ none → lookup_by (remove_at xs i) k ≡ none
  lookup_by-remove_at_none [] i k h = refl
  lookup_by-remove_at_none (y ∷ xs) zero k h = ground arith
  lookup_by-remove_at_none (y ∷ xs) (suc i) k h = ground (arith, lookup_by-remove_at_none xs i k)

  pub DistinctBy-remove_at : (xs : List A) (i : ℕ) → DistinctBy xs → DistinctBy (remove_at xs i)
  DistinctBy-remove_at [] i d = tt
  DistinctBy-remove_at (y ∷ xs) zero d = d.1
  DistinctBy-remove_at (y ∷ xs) (suc i) d =
      (lookup_by-remove_at_none xs i (key y) d.0, DistinctBy-remove_at xs i d.1)

  pub lookup_by-index :
      (xs : List A) (k : Text) {i : ℕ} → index_by xs k ≡ some i → lookup_by xs k ≢ none
  lookup_by-index [] k h = absurd (ground arith)
  lookup_by-index (x ∷ xs) k h = elim (Option-cases (index_by xs k)) [
    | inl absent ↦ ground arith
    | inr (i, found) ↦ ground (arith, lookup_by-index xs k {i = i} found)
  ]

  pub DistinctBy-set :
      (xs : List A) (i : ℕ) (x : A)
      → index_by xs (key x) ≡ some i
      → DistinctBy xs
      → DistinctBy (set xs i x)
  DistinctBy-set [] i x h d = tt
  DistinctBy-set (y ∷ xs) zero x h d = elim (Bool-cases (text_eq (key y) (key x))) [
    | inl hit ↦ ground (arith, text_eq_iff (key y) (key x))
    | inr miss ↦ elim (Option-cases (index_by xs (key x))) [
      | inl absent ↦ absurd (ground arith)
      | inr (j, found) ↦ absurd (ground arith)
    ]
  ]
  DistinctBy-set (y ∷ xs) (suc i) x h d = elim (Option-cases (index_by xs (key x))) [
    | inl absent ↦ absurd (ground arith)
    | inr (j, found) ↦
        let here : index_by xs (key x) ≡ some i = ground arith in
        ground (
          arith,
          text_eq_iff (key x) (key y),
          lookup_by-set xs i x (key y) here,
          lookup_by-index xs (key x) {i = i} here,
          DistinctBy-set xs i x here,
        )
  ]

  -- The entry at the index of a key has the key.
  pub get_elem?-index_by :
      (xs : List A) (k : Text) {i : ℕ}
      → index_by xs k ≡ some i
      → (x : A) × (get_elem? xs i ≡ some x) × (key x ≡ k)
  get_elem?-index_by [] k h = absurd (ground arith)
  get_elem?-index_by (y ∷ xs) k {i} h = elim (Option-cases (index_by xs k)) [
    | inl absent ↦ here i (ground arith) (ground arith)
    | inr (j, found) ↦ elim (Bool-cases (text_eq (key y) k)) [
      | inl hit ↦ here i (ground arith) hit
      | inr miss ↦
          let (x, at, same) = get_elem?-index_by xs k {i = j} found in (x, ground arith, same)
    ]
  ]
    where
      here :
          (i : ℕ)
          → i ≡ 0
          → text_eq (key y) k ≡ true
          → (x : A) × (get_elem? (y ∷ xs) i ≡ some x) × (key x ≡ k)
      here i e hit = (y, ground arith, text_eq→eq (key y) k hit)
