-- ===== src/Tests/Settings.antt =====
-- A file of settings that is accepted, and one with a port out of range.
use unidenr8_bluetooth.Prelude.{
  ℕ, ◌≡◌, refl, map, if◌then◌else◌, Option, none, some, List, [], ◌∷◌, All, true,
}
use unidenr8_bluetooth.Prelude.Int.{ℤ, pos}
use unidenr8_bluetooth.Runtime.Text.{Text, codes, text_eq}
use unidenr8_bluetooth.Config.Schema.{
  File, Section, table, int, bool, text, flag, whole, word, sections,
}
use unidenr8_bluetooth.Config.{
  load_config, build_all, build_section, coerce_all, coerce, ranged_int, ranged_float, filled,
  is_known, setting_at,
}
use unidenr8_bluetooth.Config.Loaded.{AreSections, IsGuarded, load_config-IsLoaded}
use unidenr8_bluetooth.Tests.Fixed.{fixed}

-- one file, for its owner only
abbrev mode_of : Text → Option ℕ
mode_of path = if text_eq path (codes "/run/broker") then some 384 else none

abbrev broker : ℕ → File ℤ
broker port =
    (
      codes "mqtt",
      table (
          (codes "enabled", bool true)
          ∷ (codes "port", int (pos port))
          ∷ (codes "password_file", text (codes "/run/broker"))
          ∷ []),
    )
    ∷ []

-- what is made of the file
abbrev settings : List (Text × Section ℤ)
settings =
    map
      (λ entry. (
        entry.0,
        if text_eq entry.0 (codes "mqtt")
            then filled entry.1 (
                (codes "enabled", flag true)
                ∷ (codes "port", whole (pos 8883))
                ∷ (codes "password_file", word (codes "/run/broker"))
                ∷ [])
            else filled entry.1 [],
      ))
      sections

loaded : load_config mode_of (broker 8883) ≡ some settings
unfolding load_config build_all build_section coerce_all coerce ranged_int ranged_float text_eq
loaded = refl

load_config-IsLoaded_example :
    All (λ entry. is_known entry ≡ true) (broker 8883)
    × (AreSections sections (broker 8883) settings
        × IsGuarded mode_of
            (setting_at (codes "mqtt") (codes "enabled") settings)
            (setting_at (codes "mqtt") (codes "password_file") settings))
load_config-IsLoaded_example = load_config-IsLoaded ℤ mode_of (broker 8883) settings loaded

zero_port_refused : load_config mode_of (broker 0) ≡ none
unfolding load_config build_all build_section coerce_all coerce ranged_int ranged_float text_eq
zero_port_refused = refl
