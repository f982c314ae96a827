-- ===== src/Pairing/Snapshot.antt =====
-- firmware/m5stack-cardputer-adv/src/pairing.cpp: the bridge's metadata and the snapshot of agent
-- sessions, read from a parsed JSON document. The JSON library is a parameter.
use cardputer_codex_deck.Base.{
  ℤ, pos, negsuc, ℕ, ◌-◌, ◌%◌, ◌+◌, Bool, true, false, ◌&&◌, ◌||◌, not, Option, none, some, List,
  [], ◌∷◌, Text, text, text_eq, ltb, leb, if◌then◌else◌, u8, min,
}
use cardputer_codex_deck.Models.{
  AgentStatus, AgentPhase, AgentSession, AgentQuotaMode, AgentQuota, max_agent_sessions,
}
use cardputer_codex_deck.Pairing.State.{Bridge, Agents}

-- ArduinoJson's side of reading: `deserializeJson`, `operator[]`, the iteration of an array, and
-- the conversions. `as_text` is `as<String>()`; the others are `none` where `is<T>()` is false.
pub record Json : Type 1 where
  pub Variant : Type 0
  pub parse : Text → Option Variant
  pub get : Variant → Text → Variant
  pub items : Variant → List Variant
  pub is_null : Variant → Bool
  pub as_text : Variant → Text
  pub text? : Variant → Option Text
  pub uint? : Variant → Option ℕ
  pub int? : Variant → Option ℤ
  pub bool? : Variant → Option Bool

-- `variant | default`.
abbrev pub or_else {ℓ} : {A : Type ℓ} → Option A → A → A
or_else none d = d
or_else (some a) d = a

-- The conversion of an `int` to `uint8_t`.
abbrev pub int_to_u8 : ℤ → ℕ
int_to_u8 (pos n) = u8 n
int_to_u8 (negsuc n) = 255 - n % 256

-- `constrain(value, 0, 100)`.
abbrev pub constrain_percent : ℤ → ℕ
constrain_percent (pos n) = min n 100
constrain_percent (negsuc n) = 0

unfoldable pub parse_agent_status : Option Text → AgentStatus
parse_agent_status none = AgentStatus.idle
parse_agent_status (some value) =
    if text_eq value (text "running")
    then AgentStatus.running
    else if text_eq value (text "needs_input")
    then AgentStatus.needs_input
    else if text_eq value (text "ready")
    then AgentStatus.ready
    else if text_eq value (text "blocked")
    then AgentStatus.blocked
    else if text_eq value (text "offline")
    then AgentStatus.offline
    else AgentStatus.idle

unfoldable pub parse_agent_phase : Option Text → AgentPhase
parse_agent_phase none = AgentPhase.none
parse_agent_phase (some value) =
    if text_eq value (text "thinking")
    then AgentPhase.thinking
    else if text_eq value (text "tool")
    then AgentPhase.tool
    else AgentPhase.none

unfoldable pub parse_agent_quota_mode : Option Text → AgentQuotaMode
parse_agent_quota_mode none = AgentQuotaMode.unknown
parse_agent_quota_mode (some value) =
    if text_eq value (text "subscription")
    then AgentQuotaMode.subscription
    else if text_eq value (text "api")
    then AgentQuotaMode.api
    else AgentQuotaMode.unknown

-- `if (status == Running && phase == None) phase = Thinking`.
unfoldable pub effective_phase : AgentStatus → AgentPhase → AgentPhase
effective_phase AgentStatus.running AgentPhase.none = AgentPhase.thinking
effective_phase _ phase = phase

abbrev pub is_subscription : AgentQuotaMode → Bool
is_subscription AgentQuotaMode.subscription = true
is_subscription _ = false

module _ (json : Json) where
  open json use {Variant, get, items, is_null, as_text, text?, uint?, int?, bool?}

  unfoldable pub parse_bridge_metadata : Variant → Bridge
  parse_bridge_metadata document =
      let app = get document (text "app") in
      let protocol = get document (text "protocol") in
      record {
        version = or_else (text? (get app (text "version"))) [];
        build = or_else (uint? (get app (text "build"))) 0;
        protocol_major =
            if is_null protocol
            then 1
            else int_to_u8 (or_else (int? (get protocol (text "major"))) (pos 0));
        protocol_minor =
            if is_null protocol
            then 0
            else int_to_u8 (or_else (int? (get protocol (text "minor"))) (pos 0));
      }

  unfoldable pub quota_remaining : Variant → Option ℕ
  quota_remaining window =
      if is_null window then none else elim (int? (get window (text "remaining"))) [
        | none ↦ none
        | some n ↦ some (constrain_percent n)
      ]

  unfoldable pub quota_mode : Variant → AgentQuotaMode
  quota_mode quota = elim (text? (get quota (text "mode"))) [
    | some mode ↦ parse_agent_quota_mode (some mode)
    | none ↦
        if or_else (bool? (get quota (text "available"))) (
          not (is_null (get quota (text "weekly"))) || not (is_null (get quota (text "five_hour"))))
        then AgentQuotaMode.subscription
        else AgentQuotaMode.unknown
  ]

  unfoldable pub parse_quota : Variant → AgentQuota
  parse_quota quota =
      let mode = quota_mode quota in
      record {
        mode = mode;
        weekly_remaining =
            if is_subscription mode then quota_remaining (get quota (text "weekly")) else none;
        five_hour_remaining =
            if is_subscription mode then quota_remaining (get quota (text "five_hour")) else none;
      }

  unfoldable pub parse_agent : Variant → AgentSession
  parse_agent item =
      let status = parse_agent_status (text? (get item (text "status"))) in
      record {
        id = as_text (get item (text "id"));
        title = or_else (text? (get item (text "title"))) (text "Codex session");
        project = as_text (get item (text "project"));
        activity = or_else (text? (get item (text "activity"))) (text "Session ready");
        status = status;
        phase = effective_phase status (parse_agent_phase (text? (get item (text "phase"))));
        unread = or_else (bool? (get item (text "unread"))) false;
      }

  -- The loop over `items`, which stops at `kMaxAgentSessions`.
  unfoldable pub parse_agents : ℕ → List Variant → List AgentSession
  parse_agents count [] = []
  parse_agents count (item ∷ rest) =
      let others = parse_agents (count + 1) rest in
      if leb max_agent_sessions count then [] else parse_agent item ∷ others

  unfoldable pub parse_agent_snapshot : Variant → Agents → Agents
  parse_agent_snapshot document a =
      let sequence = or_else (uint? (get document (text "seq"))) 0 in
      if a.online && ltb sequence a.seq then a else record {
        sessions = parse_agents 0 (items (get document (text "items")));
        focus_id = as_text (get document (text "focus_id"));
        focus_seq = or_else (uint? (get document (text "focus_seq"))) 0;
        quota = parse_quota (get document (text "quota"));
        seq = sequence;
        online = true;
      }
