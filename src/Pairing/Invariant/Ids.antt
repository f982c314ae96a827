-- ===== src/Pairing/Invariant/Ids.antt =====
-- The ids of the paired Macs as entries are replaced, appended and removed.
use cardputer_codex_deck.Base.{
  ℕ, zero, suc, ◌≡◌, refl, true, false, none, some, List, [], ◌∷◌, ◌++◌, arith, inl, inr,
  Option-cases, Bool-cases, text_eq→eq, Text, text_eq, text_eq_iff, text_eq_refl, set, get_elem?,
  remove_at,
}
use cardputer_codex_deck.Models.{PairedMac}
use cardputer_codex_deck.Pairing.State.{paired_index_by_id}
use cardputer_codex_deck.Pairing.Receive.{put_paired}
use cardputer_codex_deck.Pairing.Invariant.{Distinct}

-- The entry that a search finds has the id.
pub get_elem?-paired_index_by_id :
    (paired : List PairedMac) (id : Text) {i : ℕ}
    → paired_index_by_id paired id ≡ some i
    → (mac : PairedMac) × (get_elem? paired i ≡ some mac) × (mac.id ≡ id)
unfolding paired_index_by_id
get_elem?-paired_index_by_id [] id h = absurd (ground arith)
get_elem?-paired_index_by_id (x ∷ xs) id {i} h = elim (Bool-cases (text_eq x.id id)) [
  | inl hit ↦ elim_zero i (ground arith) hit
  | inr miss ↦ elim (Option-cases (paired_index_by_id xs id)) [
    | inl absent ↦ absurd (ground arith)
    | inr (j, found) ↦
        let (mac, at, same) = get_elem?-paired_index_by_id xs id {i = j} found in
        (mac, ground arith, same)
  ]
]
  where
    elim_zero :
        (i : ℕ)
        → i ≡ 0
        → text_eq x.id id ≡ true
        → (mac : PairedMac) × (get_elem? (x ∷ xs) i ≡ some mac) × (mac.id ≡ id)
    elim_zero i e hit = (x, ground arith, text_eq→eq x.id id hit)

paired_index_by_id-set :
    (paired : List PairedMac) (i : ℕ) (old mac : PairedMac) (id : Text)
    → get_elem? paired i ≡ some old
    → mac.id ≡ old.id
    → paired_index_by_id paired id ≡ none
    → paired_index_by_id (set paired i mac) id ≡ none
unfolding paired_index_by_id
paired_index_by_id-set [] i old mac id g e h = h
paired_index_by_id-set (x ∷ xs) zero old mac id g e h = ground arith
paired_index_by_id-set (x ∷ xs) (suc i) old mac id g e h =
    ground (arith, paired_index_by_id-set xs i old mac id g e)

pub Distinct-set :
    (paired : List PairedMac) (i : ℕ) (old mac : PairedMac)
    → get_elem? paired i ≡ some old
    → mac.id ≡ old.id
    → Distinct paired
    → Distinct (set paired i mac)
Distinct-set [] i old mac g e d = tt
Distinct-set (x ∷ xs) zero old mac g e d = ground arith
Distinct-set (x ∷ xs) (suc i) old mac g e d =
    (paired_index_by_id-set xs i old mac x.id g e d.0, Distinct-set xs i old mac g e d.1)

paired_index_by_id-append :
    (paired : List PairedMac) (mac : PairedMac) (id : Text)
    → text_eq mac.id id ≡ false
    → paired_index_by_id paired id ≡ none
    → paired_index_by_id (paired ++ mac ∷ []) id ≡ none
unfolding paired_index_by_id
paired_index_by_id-append [] mac id e h = ground arith
paired_index_by_id-append (x ∷ xs) mac id e h =
    ground (arith, paired_index_by_id-append xs mac id e)

pub Distinct-append :
    (paired : List PairedMac) (mac : PairedMac)
    → paired_index_by_id paired mac.id ≡ none
    → Distinct paired
    → Distinct (paired ++ mac ∷ [])
unfolding paired_index_by_id
Distinct-append [] mac h d = (refl, tt)
Distinct-append (x ∷ xs) mac h d = (
  paired_index_by_id-append xs mac x.id
      (ground (arith, text_eq_iff x.id mac.id, text_eq_iff mac.id x.id)) d.0,
  Distinct-append xs mac (ground arith) d.1,
)

paired_index_by_id-remove_at :
    (paired : List PairedMac) (i : ℕ) (id : Text)
    → paired_index_by_id paired id ≡ none
    → paired_index_by_id (remove_at paired i) id ≡ none
unfolding paired_index_by_id
paired_index_by_id-remove_at [] i id h = h
paired_index_by_id-remove_at (x ∷ xs) zero id h = ground arith
paired_index_by_id-remove_at (x ∷ xs) (suc i) id h =
    ground (arith, paired_index_by_id-remove_at xs i id)

pub Distinct-remove_at :
    (paired : List PairedMac) (i : ℕ) → Distinct paired → Distinct (remove_at paired i)
Distinct-remove_at [] i d = tt
Distinct-remove_at (x ∷ xs) zero d = d.1
Distinct-remove_at (x ∷ xs) (suc i) d =
    (paired_index_by_id-remove_at xs i x.id d.0, Distinct-remove_at xs i d.1)

-- The entry that is put in is the one found under its id.
pub put_paired-found :
    (paired : List PairedMac) (mac : PairedMac)
    → let list = put_paired (paired_index_by_id paired mac.id) mac paired in
      (i : ℕ) × (paired_index_by_id list mac.id ≡ some i) × (get_elem? list i ≡ some mac)
unfolding paired_index_by_id put_paired
put_paired-found [] mac = rw (text_eq_refl mac.id) (0, refl, refl)
put_paired-found (x ∷ xs) mac = elim (Bool-cases (text_eq x.id mac.id)) [
  | inl hit ↦ rw (hit, text_eq_refl mac.id) (0, refl, refl)
  | inr miss ↦
      let (i, found, at) = put_paired-found xs mac in
      elim (Option-cases (paired_index_by_id xs mac.id)) [
        | inl absent ↦ (suc i, ground arith, ground arith)
        | inr (j, there) ↦ (suc i, ground arith, ground arith)
      ]
]
