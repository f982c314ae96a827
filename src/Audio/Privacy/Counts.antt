-- ===== src/Audio/Privacy/Counts.antt =====
-- How the counts of the audio path move on a muted device, and where its tasks are.
use cardputer_codex_deck.Base.{
  ℕ, ◌+◌, ◌≡◌, ◌⊎◌, Bool, true, false, List, [], arith, inl, inr, ◌∙◌, u32,
}
use cardputer_codex_deck.Audio.State.{
  AudioFrame, CapturePhase, reading, enqueues, SenderPhase, sending,
}

abbrev pub is_reading : CapturePhase → Bool
is_reading reading = true
is_reading _ = false

-- Past the second look at the switches.
abbrev pub is_enqueuing : CapturePhase → Bool
is_enqueuing (enqueues frame) = true
is_enqueuing _ = false

abbrev pub is_sending : SenderPhase → Bool
is_sending (sending frame token) = true
is_sending _ = false

-- A count afterwards: the one before, or one more when the task was busy.
abbrev pub AtMostLast : Bool → ℕ → ℕ → Type 0
AtMostLast busy before after = (after ≡ before) ⊎ ((busy ≡ true) × (after ≡ u32 (before + 1)))

-- A step of a count and of whether its task is busy.
abbrev pub Moves : Bool → ℕ → Bool → ℕ → Type 0
Moves busy n busy' n' =
    ((n' ≡ n) × ((busy' ≡ busy) ⊎ (busy' ≡ false)))
    ⊎ ((busy ≡ true) × (busy' ≡ false) × (n' ≡ u32 (n + 1)))

pub Moves-AtMostLast :
    {b b' : Bool} {n n' m : ℕ} → Moves b n b' n' → AtMostLast b' n' m → AtMostLast b n m
Moves-AtMostLast (inl (same, keeps)) (inl e) = inl (e ∙ same)
Moves-AtMostLast (inl (same, inl keeps)) (inr (on, e)) = inr (ground arith, ground arith)
Moves-AtMostLast (inl (same, inr off)) (inr (on, e)) = absurd (ground arith)
Moves-AtMostLast (inr (on, off, more)) (inl e) = inr (on, e ∙ more)
Moves-AtMostLast (inr (on, off, more)) (inr (on', e)) = absurd (ground arith)

-- The ring is as it was, or was emptied.
abbrev pub NoneAdded : List AudioFrame → List AudioFrame → Type 0
NoneAdded before after = (after ≡ before) ⊎ (after ≡ [])
