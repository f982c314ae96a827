-- ===== src/Pairing/SnapshotLaws.antt =====
-- What the agent snapshot holds, whatever the bridge sends (Pairing/Snapshot).
use cardputer_codex_deck.Base.{
  ℤ, pos, negsuc, ℕ, ◌+◌, ◌≤◌, ◌≡◌, ◌≢◌, refl, ap, ◌⊎◌, inl, inr, true, false, Option, none, some,
  List, [], ◌∷◌, arith, text, leb, length, length-take, length-map, map, take, if_both, zero, suc,
  ◌<◌, Bool-cases, Option-cases,
}
use cardputer_codex_deck.Models.{AgentStatus, AgentPhase, AgentSession, max_agent_sessions}
use cardputer_codex_deck.Pairing.State.{Agents}
use cardputer_codex_deck.Pairing.Snapshot.{
  Json, or_else, constrain_percent, effective_phase, is_subscription, quota_remaining, quota_mode,
  parse_quota, parse_agent, parse_agents, parse_agent_snapshot,
}

-- A session that runs has a phase.
abbrev pub AllPhased : List AgentSession → Type 0
AllPhased [] = Unit {0}
AllPhased (s ∷ list) = (s.status ≡ AgentStatus.running → s.phase ≢ AgentPhase.none) × AllPhased list

abbrev pub IsPercent : Option ℕ → Type 0
IsPercent none = Unit {0}
IsPercent (some n) = n ≤ 100

pub record WellFormed (a : Agents) : Type 0 where
  pub few : length a.sessions ≤ max_agent_sessions
  pub phased : AllPhased a.sessions
  pub weekly : IsPercent a.quota.weekly_remaining
  pub five_hour : IsPercent a.quota.five_hour_remaining
  pub no_windows :
      is_subscription a.quota.mode ≡ false
      → (a.quota.weekly_remaining ≡ none) × (a.quota.five_hour_remaining ≡ none)

effective_phase-running :
    (status : AgentStatus) (phase : AgentPhase)
    → status ≡ AgentStatus.running
    → effective_phase status phase ≢ AgentPhase.none
unfolding effective_phase
effective_phase-running status phase h = ground arith

constrain_percent_bound : (n : ℤ) → constrain_percent n ≤ 100
constrain_percent_bound (pos n) = omega arith
constrain_percent_bound (negsuc n) = omega arith

module _ (json : Json) where
  quota_remaining-IsPercent : (window : json.Variant) → IsPercent (quota_remaining json window)
  unfolding quota_remaining
  quota_remaining-IsPercent window =
      elim (Option-cases (json.int? (json.get window (text "remaining")))) [
        | inl absent ↦ rw absent (ground arith)
        | inr (n, given) ↦ rw given (ground (arith, constrain_percent_bound n))
      ]

  parse_agent-phased :
      (item : json.Variant)
      → (parse_agent json item).status ≡ AgentStatus.running
      → (parse_agent json item).phase ≢ AgentPhase.none
  unfolding parse_agent
  parse_agent-phased item h = effective_phase-running _ _ h

  -- The loop takes the first items, up to the array's size.
  parse_agents-take :
      (items : List json.Variant) (count room : ℕ)
      → count + room ≡ max_agent_sessions
      → parse_agents json count items ≡ map (parse_agent json) (take room items)
  unfolding parse_agents
  parse_agents-take [] count zero h = refl
  parse_agents-take [] count (suc room) h = refl
  parse_agents-take (item ∷ rest) count zero h =
      let full : leb max_agent_sessions count ≡ true = ground arith in rw full refl
  parse_agents-take (item ∷ rest) count (suc room) h =
      let free : leb max_agent_sessions count ≡ false = ground arith in
      rw free (
        ap (λ l. parse_agent json item ∷ l) (parse_agents-take rest (count + 1) room (omega arith)))

  AllPhased-map : (items : List json.Variant) → AllPhased (map (parse_agent json) items)
  AllPhased-map [] = tt
  AllPhased-map (item ∷ rest) = (parse_agent-phased item, AllPhased-map rest)

  parse_quota-windows :
      (quota : json.Variant)
      → let q = parse_quota json quota in
        IsPercent q.weekly_remaining
        × IsPercent q.five_hour_remaining
        × (is_subscription q.mode ≡ false
            → (q.weekly_remaining ≡ none) × (q.five_hour_remaining ≡ none))
  unfolding parse_quota
  parse_quota-windows quota = elim (Bool-cases (is_subscription (quota_mode json quota))) [
    | inl paid ↦ rw paid (
      quota_remaining-IsPercent (json.get quota (text "weekly")),
      quota_remaining-IsPercent (json.get quota (text "five_hour")),
      λ h. absurd (ground arith),
    )
    | inr other ↦ rw other (tt, tt, λ h. (refl, refl))
  ]

  -- Merging any document keeps the agents well formed: at most 8 sessions, a phase in each that
  -- runs, percentages of at most 100, and none of them outside subscription mode.
  pub parse_agent_snapshot-WellFormed :
      (document : json.Variant) (a : Agents)
      → WellFormed a
      → WellFormed (parse_agent_snapshot json document a)
  unfolding parse_agent_snapshot
  parse_agent_snapshot-WellFormed document a w =
      let items = json.items (json.get document (text "items")) in
      let kept = parse_agents-take items 0 8 refl in
      let few = length-take 8 items in
      let (weekly, five_hour, no_windows) =
        parse_quota-windows (json.get document (text "quota")) in
      let merged : WellFormed (record {
        sessions = parse_agents json 0 items;
        focus_id = json.as_text (json.get document (text "focus_id"));
        focus_seq = or_else (json.uint? (json.get document (text "focus_seq"))) 0;
        quota = parse_quota json (json.get document (text "quota"));
        seq = or_else (json.uint? (json.get document (text "seq"))) 0;
        online = true;
      }) =
        record {
          few = rw (kept, length-map (parse_agent json) (take 8 items)) (omega (arith, few));
          phased = rw kept (AllPhased-map (take 8 items));
          weekly = weekly;
          five_hour = five_hour;
          no_windows = no_windows;
        } in
      if_both WellFormed _ w merged

  -- While the agents are online their sequence number never goes back: a document with a lower one
  -- changes nothing, and any other one replaces the sessions by its first 8 items, in order, and
  -- puts the agents online.
  pub parse_agent_snapshot-seq :
      (document : json.Variant) (a : Agents)
      → let seq = or_else (json.uint? (json.get document (text "seq"))) 0 in
        let n = parse_agent_snapshot json document a in
        (a.online ≡ true → a.seq ≤ n.seq)
        × (a.online ≡ true → seq < a.seq → n ≡ a)
        × (a.online ≡ false ⊎ (a.seq ≤ seq)
            → (n.sessions
                ≡ map (parse_agent json) (take 8 (json.items (json.get document (text "items")))))
              × (n.seq ≡ seq)
              × (n.online ≡ true))
  unfolding parse_agent_snapshot
  parse_agent_snapshot-seq document a =
      let items = json.items (json.get document (text "items")) in
      let kept = parse_agents-take items 0 8 refl in ground (arith, kept)
