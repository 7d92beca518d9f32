-- ===== src/Tests/Fixes.antt =====
-- Runs of the receiver of fixes, on reports as a parser may return them, and of a viewer's backlog.
use unidenr8_bluetooth.Prelude.{◌≡◌, ◌≤◌, ◌↔◌, refl, true, false, Option, none, some, List, [], ◌∷◌}
use unidenr8_bluetooth.Prelude.Int.{ℤ, pos}
use unidenr8_bluetooth.Runtime.Float.{max_float}
use unidenr8_bluetooth.Runtime.Text.{Text, codes, text_eq}
use unidenr8_bluetooth.Runtime.Unicode.{ascii}
use unidenr8_bluetooth.Runtime.Json.{Json, int, float, text, object, member, end_members, get}
use unidenr8_bluetooth.Gnss.{
  Line, Detailed, new_client, session, read_lines, consume, take_payload, take_report, parse_tpv,
  status_fix, current_fix, valid, mode_name, speed_mph, age_seconds, detailed, number,
}
use unidenr8_bluetooth.Gnss.Sourced.{IsGiven, status_fix-IsGiven}
use unidenr8_bluetooth.Feed.{new_client as no_frame, offers}
use unidenr8_bluetooth.Feed.Newest.{IsNewest, offers-IsNewest}
use unidenr8_bluetooth.Privacy.{looks_like_position}
use unidenr8_bluetooth.Privacy.Position.{IsFree, height, looks_like_position_iff}
use unidenr8_bluetooth.Tests.Fixed.{fixed}

-- what the parser makes of a line that begins with a brace
abbrev loads : Text → Option (Json ℤ)
loads [] = none
loads (c ∷ s) = some (
    object (
      member (codes "class") (text (codes "TPV")) (
        member (codes "mode") (int (pos 3))
          (member (codes "lat") (float (pos 33_448_400)) end_members))))

abbrev lines : List Line
lines = record { raw = codes "{}"; mono = 2_000_000_000; wall = 9 } ∷ []

abbrev withheld : Detailed ℤ
withheld = record {
  fix_mode = pos 3;
  mode_name = codes "3D fix";
  is_valid = true;
  speed_mph = none;
  shown_lat = none;
  shown_lon = none;
  coordinates_withheld = true;
}

given :
    status_fix 4_000_000_000 (session loads lines (new_client false (pos 5_000_000)))
    ≡ some withheld
unfolding session read_lines consume take_payload take_report parse_tpv status_fix current_fix valid
    mode_name speed_mph age_seconds detailed number get text_eq max_float ascii
given = refl

status_fix-IsGiven_example : IsGiven loads false (pos 5_000_000) lines 4_000_000_000 withheld
status_fix-IsGiven_example =
    status_fix-IsGiven loads false (pos 5_000_000) lines 4_000_000_000 withheld given

offers-IsNewest_example :
    IsNewest ((1 ∷ []) ∷ (2 ∷ []) ∷ []) (offers ((1 ∷ []) ∷ (2 ∷ []) ∷ []) no_frame)
offers-IsNewest_example = offers-IsNewest ((1 ∷ []) ∷ (2 ∷ []) ∷ [])

-- a document with a place in it, for a test of decimal pairs that finds none
abbrev placed : Json ℤ
placed =
    object (
      member (codes "fix") (object (member (codes " Lat") (float (pos 33)) end_members))
        end_members)

looks_like_position_iff_example :
    (looks_like_position (λ s. false) placed ≡ false)
    ↔ ((height (λ s. false) placed ≤ 12) × IsFree (λ s. false) placed)
looks_like_position_iff_example = looks_like_position_iff (λ s. false) placed
