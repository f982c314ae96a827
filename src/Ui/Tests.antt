-- ===== src/Ui/Tests.antt =====
-- The controller at concrete inputs.
use cardputer_codex_deck.Base.{
  Text, text_eq, ℕ, length, ◌*◌, ◌≤◌, ◌≡◌, refl, true, [], ◌∷◌, ◌++◌, text,
}
use cardputer_codex_deck.Pairing.Fixture.{home}
use cardputer_codex_deck.Ui.State.{DeviceUi, initial}
use cardputer_codex_deck.Ui.Characters.{remove_last_utf8_character, character_start}
use cardputer_codex_deck.Ui.Controller.{tick}
use cardputer_codex_deck.Ui.Invariant.Controller.{Ticked, tick-Ticked}
use cardputer_codex_deck.Ui.Cutting.{remove_last_utf8_character-append}
use cardputer_codex_deck.Ui.Fitting.{AllFit, prepare_codex_activity-fits}
use cardputer_codex_deck.Ui.Layout.{
  lay_out, place_text, place_token, push_line, mark_last, fit_with_ellipsis, shorten, ActivityText,
  codex_activity_lines, prepare_codex_activity,
}
use cardputer_codex_deck.Ui.Fixture.{click, deck, deck-IsValid}

tick-Ticked_example : Ticked (home ∷ []) true (tick click deck)
tick-Ticked_example = tick-Ticked deck-IsValid click

remove_last_utf8_character-append_example :
    remove_last_utf8_character (text "ab" ++ 0xe4 ∷ 0xbd ∷ 0xa0 ∷ []) ≡ text "ab"
remove_last_utf8_character-append_example =
    remove_last_utf8_character-append (text "ab") 0xe4 (0xbd ∷ 0xa0 ∷ []) refl refl

abbrev risen : DeviceUi
risen = record initial {
  battery_voltage_mv = 3800;
  battery_trend_baseline_mv = 3780;
  battery_trend_started_ms = 10000;
}

-- A font of 6 points a byte, and a panel of 30.
abbrev points : Text → ℕ
points t = 6 * length t

abbrev blank : ActivityText
blank = record { wrapped = []; lines = [] }

abbrev prepared : ActivityText
prepared = prepare_codex_activity points 30 (text "run all the tests in parallel again") blank

prepared_lines : prepared.lines ≡ text "run" ∷ text "all" ∷ text "the" ∷ text "te..." ∷ []
unfolding prepare_codex_activity lay_out place_text place_token push_line mark_last
    fit_with_ellipsis shorten remove_last_utf8_character character_start text_eq
prepared_lines = refl

prepare_codex_activity-fits_example :
    (length prepared.lines ≤ codex_activity_lines)
    × AllFit points 30 prepared.lines
    × (prepared.wrapped ≡ text "run all the tests in parallel again")
unfolding text_eq
prepare_codex_activity-fits_example =
    prepare_codex_activity-fits points 30 refl (text "run all the tests in parallel again") blank
      refl
