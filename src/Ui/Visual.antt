-- ===== src/Ui/Visual.antt =====
-- firmware/m5stack-cardputer-adv/src/ui.cpp: what the controller shows of the selected agent
-- session, and how often it draws; pet_renderer.h, pet_renderer.cpp: the animation of the pet.
use cardputer_codex_deck.Base.{
  ℕ, ◌+◌, ◌%◌, Bool, true, false, not, Option, none, some, Text, text, ltb, leb, ◌==◌,
  if◌then◌else◌, get_elem?, List, length, sub32, u8,
}
use cardputer_codex_deck.Models.{AgentSession, AgentStatus, AgentPhase}
use cardputer_codex_deck.Pairing.State.{is_connected}
use cardputer_codex_deck.Pairing.Manager.{agent_online}
use cardputer_codex_deck.Ui.State.{Deck, UiEnv}

pub data PetVisualState : Type 0 where
  offline idle thinking running needs_input ready blocked : PetVisualState

unfoldable pub selected_agent : Deck → Option AgentSession
selected_agent d = get_elem? d.pairing.agents.sessions d.ui.agent_selection

abbrev pub visual_of : AgentStatus → AgentPhase → PetVisualState
visual_of AgentStatus.running AgentPhase.tool = running
visual_of AgentStatus.running _ = thinking
visual_of AgentStatus.needs_input _ = needs_input
visual_of AgentStatus.ready _ = ready
visual_of AgentStatus.blocked _ = blocked
visual_of AgentStatus.offline _ = offline
visual_of AgentStatus.idle _ = idle

unfoldable pub codex_visual_state : Deck → PetVisualState
codex_visual_state d =
    if not (is_connected d.pairing.state) then offline else elim (selected_agent d) [
      | none ↦ idle
      | some agent ↦
          if not (agent_online d.pairing) then idle else visual_of agent.status agent.phase
    ]

unfoldable pub codex_status_label : PetVisualState → Text
codex_status_label offline = text "OFFLINE"
codex_status_label idle = text "IDLE"
codex_status_label thinking = text "THINKING"
codex_status_label running = text "RUNNING"
codex_status_label needs_input = text "INPUT"
codex_status_label ready = text "READY"
codex_status_label blocked = text "BLOCK"

abbrev pub preview_of : AgentStatus → AgentPhase → Text
preview_of AgentStatus.running AgentPhase.tool = text "Running"
preview_of AgentStatus.running _ = text "Thinking"
preview_of AgentStatus.needs_input _ = text "Needs input"
preview_of AgentStatus.ready _ = text "Ready"
preview_of AgentStatus.blocked _ = text "Blocked"
preview_of AgentStatus.offline _ = text "Offline"
preview_of AgentStatus.idle _ = text "Idle"

unfoldable pub codex_preview_status : Deck → Text
codex_preview_status d =
    if not (is_connected d.pairing.state)
    then text "Mac offline"
    else if not (agent_online d.pairing)
    then text "Waiting"
    else elim (selected_agent d) [
      | none ↦ text "No sessions"
      | some agent ↦ preview_of agent.status agent.phase
    ]

abbrev pub is_animated : PetVisualState → Bool
is_animated thinking = true
is_animated running = true
is_animated needs_input = true
is_animated _ = false

unfoldable pub render_interval_ms : UiEnv → Deck → ℕ
render_interval_ms env d =
    if ltb (sub32 env.now d.ui.last_activity_ms) 5000
    then 100
    else if not (is_animated (codex_visual_state d))
    then 1000
    else if d.ui.screen_dimmed
    then 500
    else 200

pub data AnimationId : Type 0 where
  anim_idle anim_running anim_waiting anim_review anim_failed : AnimationId

unfoldable pub animation_for : PetVisualState → AnimationId
animation_for running = anim_running
animation_for thinking = anim_waiting
animation_for needs_input = anim_waiting
animation_for ready = anim_review
animation_for offline = anim_failed
animation_for blocked = anim_failed
animation_for idle = anim_idle

pub record PetRenderer : Type 0 where
  pub state : PetVisualState
  pub frame_index : ℕ
  pub frame_started_ms : ℕ

abbrev pub visual_index : PetVisualState → ℕ
visual_index offline = 0
visual_index idle = 1
visual_index thinking = 2
visual_index running = 3
visual_index needs_input = 4
visual_index ready = 5
visual_index blocked = 6

-- `draw` up to `drawFrame`, with the frame that it draws; `durations` are those of an animation's
-- frames in pet_assets, and none is a frame past its array.
unfoldable pub draw_pet :
    (AnimationId → List ℕ) → PetVisualState → ℕ → PetRenderer → Option (PetRenderer × ℕ)
draw_pet durations state now p =
    let q : PetRenderer =
      if visual_index state == visual_index p.state
      then p
      else record { state = state; frame_index = 0; frame_started_ms = now } in
    let frames = durations (animation_for state) in
    elim (get_elem? frames q.frame_index) [
      | none ↦ none
      | some duration ↦
          let next = u8 ((q.frame_index + 1) % length frames) in
          if leb duration (sub32 now q.frame_started_ms)
          then some (record q { frame_index = next; frame_started_ms = now }, next)
          else some (q, q.frame_index)
    ]
