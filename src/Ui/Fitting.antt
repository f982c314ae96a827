-- ===== src/Ui/Fitting.antt =====
-- The lines of the activity text (Ui/Layout) and the width of their panel.
use cardputer_codex_deck.Base.{
  ℕ, zero, suc, ◌≤◌, ◌≡◌, refl, ap, Bool, true, false, ◌&&◌, ◌||◌, not, List, [], ◌∷◌, ◌++◌, Text,
  text, text_eq, is_empty, leb, if◌then◌else◌, if_both, if_given, length, length-append, arith, inl,
  inr, Bool-cases,
}
use cardputer_codex_deck.Ui.Characters.{ascii_only}
use cardputer_codex_deck.Ui.Layout.{
  codex_activity_lines, ActivityText, Layout, push_line, span, is_space, fits, fit_with_ellipsis,
  next_segment, place_segment, place_segments, place_token, place_text, mark_last, lay_out,
  prepare_codex_activity,
}
use cardputer_codex_deck.Ui.Ellipsis.{Fits, fit_with_ellipsis-fits}

module _ (text_width : Text → ℕ) (width : ℕ) where
  abbrev pub AllFit : List Text → Type 0
  AllFit [] = Unit {0}
  AllFit (line ∷ lines) = (fits text_width width line ≡ true) × AllFit lines

  -- At most four lines, each of which fits, as does the line that is being filled.
  record Laid (l : Layout) : Type 0 where
    count : length l.lines ≤ codex_activity_lines
    all : AllFit l.lines
    filling : (is_empty l.current || fits text_width width l.current) ≡ true

  AllFit-snoc :
      (lines : List Text) (line : Text)
      → AllFit lines
      → Fits text_width width line
      → AllFit (lines ++ line ∷ [])
  AllFit-snoc [] line all h = (h, tt)
  AllFit-snoc (x ∷ lines) line all h = (all.0, AllFit-snoc lines line all.1 h)

  push_line-Laid :
      (line : Text) {l : Layout}
      → Laid l
      → (is_empty line || fits text_width width line) ≡ true
      → Laid (push_line line l).0
  unfolding push_line
  push_line-Laid line {l} v h = elim (Bool-cases (is_empty line)) [
    | inl empty ↦ rw empty v
    | inr some_bytes ↦
        let good : Fits text_width width line = ground arith in
        let longer = length-append l.lines (line ∷ []) in
        let more = AllFit-snoc l.lines line v.all good in
        elim (Bool-cases (leb codex_activity_lines (length l.lines))) [
          | inl full ↦
              rw (some_bytes, full) (record { count = v.count; all = v.all; filling = v.filling })
          | inr room ↦
              rw (some_bytes, room)
                (record { count = ground arith; all = more; filling = v.filling })
        ]
  ]

  clear-Laid :
      {l : Layout}
      → Laid l
      → (t : Text) → (is_empty t || fits text_width width t) ≡ true
      → Laid (record l { current = t })
  clear-Laid v t h = record { count = v.count; all = v.all; filling = h }

  module _ (dots : Fits text_width width (text "...")) where
    ellipsis_line :
        (t : Text) (force : Bool)
        → (is_empty (fit_with_ellipsis text_width width t force)
            || fits text_width width (fit_with_ellipsis text_width width t force))
          ≡ true
    ellipsis_line t force =
        let good = fit_with_ellipsis-fits text_width width dots t force in ground arith

    place_segment-Laid :
        (segment : Text) {l : Layout} → Laid l → Laid (place_segment text_width width segment l)
    unfolding place_segment
    place_segment-Laid segment {l} v =
        let p = push_line l.current l in
        let pushed = push_line-Laid l.current v v.filling in
        if_given Laid (not (fits text_width width segment))
          {y = if not (is_empty l.current) && not (fits text_width width (l.current ++ segment))
            then (if p.1 then record p.0 { current = segment } else p.0)
            else record l { current = l.current ++ segment }}
          (λ _. if_both Laid (not (is_empty l.current) && not p.1) pushed (
            push_line-Laid (fit_with_ellipsis text_width width segment false)
              (clear-Laid pushed [] refl) (ellipsis_line segment false)))
          (λ narrow.
            if_given Laid
              (not (is_empty l.current) && not (fits text_width width (l.current ++ segment)))
              {y = record l { current = l.current ++ segment }}
              (λ _. if_both Laid p.1 (clear-Laid pushed segment (ground arith)) pushed)
              (λ h. clear-Laid v (l.current ++ segment) (grown l.current segment (ground arith) h)))
      where
        grown :
            (chunk segment : Text)
            → fits text_width width segment ≡ true
            → (not (is_empty chunk) && not (fits text_width width (chunk ++ segment))) ≡ false
            → (is_empty (chunk ++ segment) || fits text_width width (chunk ++ segment)) ≡ true
        grown [] segment good h = ground arith
        grown (c ∷ chunk) segment good h = ground arith

    place_segments-Laid :
        (n : ℕ) (token : Text) {l : Layout}
        → Laid l
        → Laid (place_segments text_width width n token l)
    unfolding place_segments
    place_segments-Laid zero token v = v
    place_segments-Laid (suc n) token {l} v =
        if_both Laid (is_empty token || l.overflow) v (
          place_segments-Laid n (next_segment token).1
            (place_segment-Laid (next_segment token).0 v))

    place_token-Laid :
        (token : Text) {l : Layout} → Laid l → Laid (place_token text_width width token l)
    unfolding place_token
    place_token-Laid token {l} v =
        let candidate = if is_empty l.current then token else l.current ++ 32 ∷ token in
        let p = push_line l.current l in
        let pushed = push_line-Laid l.current v v.filling in
        let cleared = clear-Laid pushed [] refl in
        if_given Laid (fits text_width width candidate) (λ h. clear-Laid v candidate (ground arith))
          (λ _. if_both Laid (not (is_empty l.current) && not p.1) pushed (
            if_given Laid (fits text_width width token)
              (λ h. clear-Laid cleared token (ground arith))
              (λ _.
                if_both Laid (ascii_only token)
                  (push_line-Laid (fit_with_ellipsis text_width width token false) cleared
                    (ellipsis_line token false))
                  (place_segments-Laid (length token) token cleared))))

    place_text-Laid :
        (n : ℕ) (activity : Text) {l : Layout}
        → Laid l
        → Laid (place_text text_width width n activity l).0
    unfolding place_text
    place_text-Laid zero activity v = v
    place_text-Laid (suc n) activity {l} v =
        let start = (span is_space activity).1 in
        let token = (span (λ c. not (is_space c)) start).0 in
        let rest = (span (λ c. not (is_space c)) start).1 in
        if_both (λ (r : Layout × Text). Laid r.0) (is_empty activity || l.overflow)
          {x = (l, activity)} v
          (place_text-Laid n rest (if_both Laid (is_empty token) v (place_token-Laid token v)))

    mark_last-fits :
        (lines : List Text)
        → AllFit lines
        → AllFit (mark_last text_width width lines)
          × (length (mark_last text_width width lines) ≡ length lines)
    unfolding mark_last
    mark_last-fits [] all = (tt, refl)
    mark_last-fits (line ∷ []) all =
        ((fit_with_ellipsis-fits text_width width dots line true, tt), refl)
    mark_last-fits (line ∷ next ∷ lines) all =
        let (more, same) = mark_last-fits (next ∷ lines) all.1 in ((all.0, more), ap suc same)

    lay_out-fits :
        (activity : Text)
        → (length (lay_out text_width width activity) ≤ codex_activity_lines)
          × AllFit (lay_out text_width width activity)
    unfolding lay_out
    lay_out-fits activity =
        let r =
          place_text text_width width (length activity) activity
            (record { lines = []; overflow = false; current = [] }) in
        let placed : Laid r.0 =
          place_text-Laid (length activity) activity
            (record { count = omega arith; all = tt; filling = refl }) in
        let last = if not r.0.overflow then (push_line r.0.current r.0).0 else r.0 in
        let v : Laid last =
          if_both Laid (not r.0.overflow) (push_line-Laid r.0.current placed placed.filling)
            placed in
        let (marked, same) = mark_last-fits last.lines v.all in
        if_both (λ lines. (length lines ≤ codex_activity_lines) × AllFit lines)
          (last.overflow || not (is_empty r.1))
          (let few : length (mark_last text_width width last.lines) ≤ 4 =
              omega (arith, same, v.count) in
            (few, marked))
          (v.count, v.all)

    -- When "..." fits the panel, preparing a text that is not the wrapped one lays it out in at
    -- most four lines, each of which fits the panel, and remembers the text.
    pub prepare_codex_activity-fits :
        (activity : Text) (a : ActivityText)
        → text_eq activity a.wrapped ≡ false
        → let b = prepare_codex_activity text_width width activity a in
          (length b.lines ≤ codex_activity_lines) × AllFit b.lines × (b.wrapped ≡ activity)
    unfolding prepare_codex_activity
    prepare_codex_activity-fits activity a fresh =
        rw fresh ((lay_out-fits activity).0, (lay_out-fits activity).1, refl)
