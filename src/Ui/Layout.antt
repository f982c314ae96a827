-- ===== src/Ui/Layout.antt =====
-- firmware/m5stack-cardputer-adv/src/ui.cpp: the title of the status bar, and the wrapping of the
-- activity text of a session. The font is a parameter: `text_width` is `canvas_.textWidth`.
use cardputer_codex_deck.Base.{
  ℕ, zero, suc, ◌-◌, Bool, true, false, ◌&&◌, ◌||◌, not, Option, none, some, List, [], ◌∷◌, ◌++◌,
  Text, text, text_eq, is_empty, ◌==◌, ltb, leb, if◌then◌else◌, length, take, drop,
}
use cardputer_codex_deck.Models.{AgentSession}
use cardputer_codex_deck.Ui.State.{
  Deck, main, codex, wifi, wifi_password, computers, add_computer, pair_code, brightness,
  screen_off,
}
use cardputer_codex_deck.Ui.Characters.{
  utf8_character_length, ascii_only, remove_last_utf8_character,
}
use cardputer_codex_deck.Ui.Visual.{selected_agent}

abbrev pub agent_title : Option AgentSession → Text
agent_title none = text "Codex"
agent_title (some a) =
    if not (is_empty a.title)
    then a.title
    else if not (is_empty a.project)
    then a.project
    else text "Codex"

unfoldable pub status_bar_title : Deck → Text
status_bar_title d = elim d.ui.page [
  | main ↦ text "CODEX DECK"
  | codex ↦ agent_title (selected_agent d)
  | wifi ↦ text "WiFi"
  | wifi_password ↦ text "WiFi Password"
  | computers ↦ text "Computers"
  | add_computer ↦ text "Add Computer"
  | pair_code ↦ text "Pair Computer"
  | brightness ↦ text "Brightness"
  | screen_off ↦ text "Screen off"
]

unfoldable pub clipped : Text → ℕ → Text
clipped value n =
    if leb (length value) n
    then value
    else if ltb n 2
    then take n value
    else take (n - 1) value ++ b'~' ∷ []

abbrev pub codex_activity_lines : ℕ
codex_activity_lines = 4

-- `wrappedActivity_` and the first `activityLineCount_` entries of `activityLines_`.
pub record ActivityText : Type 0 where
  pub wrapped : Text
  pub lines : List Text

-- The local variables of `prepareCodexActivity`, with its lines; in the loop over the segments of a
-- token `current` is its `chunk`.
pub record Layout : Type 0 where
  pub lines : List Text
  pub overflow : Bool
  pub current : Text

-- `pushLine`, and whether it has room.
unfoldable pub push_line : Text → Layout → Layout × Bool
push_line line l =
    if is_empty line
    then (l, true)
    else if leb codex_activity_lines (length l.lines)
    then (record l { overflow = true }, false)
    else (record l { lines = l.lines ++ line ∷ [] }, true)

-- `isspace`.
abbrev pub is_space : ℕ → Bool
is_space c = c == 32 || (leb 9 c && leb c 13)

-- The scans of the cursor: what it passes while a test holds, and what is left.
abbrev pub span : (ℕ → Bool) → Text → Text × Text
span p [] = ([], [])
span p (c ∷ s) = let (a, b) = span p s in if p c then (c ∷ a, b) else ([], c ∷ s)

-- The next segment of a token: a run of ASCII, or one character.
unfoldable pub next_segment : Text → Text × Text
next_segment [] = ([], [])
next_segment (c ∷ s) =
    let n = utf8_character_length (c ∷ s) 0 in
    if ltb c 128 then span (λ x. ltb x 128) (c ∷ s) else (take n (c ∷ s), drop n (c ∷ s))

module _ (text_width : Text → ℕ) (width : ℕ) where
  abbrev pub fits : Text → Bool
  fits t = leb (text_width t) width

  -- The loop of `fitWithEllipsis`; each round takes a character off.
  unfoldable pub shorten : ℕ → Text → Text
  shorten zero t = t
  shorten (suc n) t =
      let rest = shorten n (remove_last_utf8_character t) in
      if is_empty t || fits (t ++ text "...") then t else rest

  unfoldable pub fit_with_ellipsis : Text → Bool → Text
  fit_with_ellipsis t force = if not force && fits t then t else shorten (length t) t ++ text "..."

  -- One segment of a token that is too wide for a line.
  unfoldable pub place_segment : Text → Layout → Layout
  place_segment segment l =
      let (p, room) = push_line l.current l in
      let expanded = l.current ++ segment in
      if not (fits segment)
      then (if not (is_empty l.current) && not room
          then p
          else (push_line (fit_with_ellipsis segment false) (record p { current = [] })).0)
      else if not (is_empty l.current) && not (fits expanded)
      then (if room then record p { current = segment } else p)
      else record l { current = expanded }

  -- The loop over the segments, on the bytes that are left.
  unfoldable pub place_segments : ℕ → Text → Layout → Layout
  place_segments zero token l = l
  place_segments (suc n) token l =
      let (segment, rest) = next_segment token in
      let more = place_segments n rest (place_segment segment l) in
      if is_empty token || l.overflow then l else more

  -- A token behind the spaces that the cursor passed.
  unfoldable pub place_token : Text → Layout → Layout
  place_token token l =
      let candidate = if is_empty l.current then token else l.current ++ 32 ∷ token in
      let (p, room) = push_line l.current l in
      let q : Layout = record p { current = [] } in
      if fits candidate
      then record l { current = candidate }
      else if not (is_empty l.current) && not room
      then p
      else if fits token
      then record q { current = token }
      else if ascii_only token
      then (push_line (fit_with_ellipsis token false) q).0
      else place_segments (length token) token q

  -- The loop over the text, with what is left of it.
  unfoldable pub place_text : ℕ → Text → Layout → Layout × Text
  place_text zero activity l = (l, activity)
  place_text (suc n) activity l =
      let (spaces, start) = span is_space activity in
      let (token, rest) = span (λ c. not (is_space c)) start in
      let more = place_text n rest (if is_empty token then l else place_token token l) in
      if is_empty activity || l.overflow then (l, activity) else more

  -- The last line of a text that did not fit ends in an ellipsis.
  unfoldable pub mark_last : List Text → List Text
  mark_last [] = []
  mark_last (line ∷ []) = fit_with_ellipsis line true ∷ []
  mark_last (line ∷ next ∷ lines) = line ∷ mark_last (next ∷ lines)

  unfoldable pub lay_out : Text → List Text
  lay_out activity =
      let (l, rest) =
        place_text (length activity) activity
          (record { lines = []; overflow = false; current = [] }) in
      let last = if not l.overflow then (push_line l.current l).0 else l in
      if last.overflow || not (is_empty rest) then mark_last last.lines else last.lines

  unfoldable pub prepare_codex_activity : Text → ActivityText → ActivityText
  prepare_codex_activity activity a =
      if text_eq activity a.wrapped
      then a
      else record { wrapped = activity; lines = lay_out activity }
