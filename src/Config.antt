-- ===== src/Config.antt =====
-- The validation of settings of src/uniden_r8/config.py. A section is its settings in order, with
-- their keys. A file is what `tomllib` makes of it; `float` of an integer is taken not to overflow.
-- `mode_of` is the mode of a file, `none` where there is none. A ConfigError is `none`. The search
-- for the file and the texts are left out.
pub mod Schema
pub mod Ranged
pub mod Tables
pub mod Loaded
use unidenr8_bluetooth.Prelude.{
  ℕ, ◌%◌, String, Bool, true, false, not, ◌&&◌, Option, none, some, List, [], ◌∷◌, map, ◌==◌,
  is_some, any_of, if◌then◌else◌,
}
use unidenr8_bluetooth.Prelude.Int.{ℤ, pos, leb_ℤ}
use unidenr8_bluetooth.Runtime.Float.{Float}
use unidenr8_bluetooth.Runtime.Text.{Text, codes, text_eq}
use unidenr8_bluetooth.Config.Schema.{
  Toml, bool, int, float, nan, text, other, TopEntry, table, loose, Setting, flag, whole, number,
  word, Kind, as_bool, as_int, as_float, as_str, Field, Section, File, lookup, find_field, sections,
  whole_ranges, float_ranges, range_of, is_private,
}

module _ {F : Type 0} ⦃f : Float F⦄ where
  -- `_ranged`
  unfoldable pub ranged_int : Text → Text → ℤ → Option (Setting F)
  ranged_int section key n = elim (range_of section key whole_ranges) [
    | none ↦ some (whole n)
    | some (low, high) ↦ if leb_ℤ low n && leb_ℤ n high then some (whole n) else none
  ]

  unfoldable pub ranged_float : Text → Text → F → Option (Setting F)
  ranged_float section key a = elim (range_of section key float_ranges) [
    | none ↦ some (number a)
    | some (low, high) ↦ if not (f.lt a low) && not (f.lt high a) then some (number a) else none
  ]

  -- `_coerce`; every float has a range, so that no NaN is accepted
  unfoldable pub coerce : Text → Text → Kind → Toml F → Option (Setting F)
  coerce section key as_bool (bool b) = some (flag b)
  coerce section key as_int (int n) = ranged_int section key n
  coerce section key as_float (int n) = ranged_float section key (f.ratio n (pos 1))
  coerce section key as_float (float a) = ranged_float section key a
  coerce section key as_str (text s) = some (word s)
  coerce section key _ _ = none

  -- a setting before those of the rest of the table
  abbrev pub with_setting : Text → Option (Setting F) → Option (Section F) → Option (Section F)
  with_setting key (some setting) (some rest) = some ((key, setting) ∷ rest)
  with_setting key _ _ = none

  -- `values` of `_build_section`; `none` too where a key is unknown
  abbrev pub coerce_known : Text → Text → Option (Field F) → Toml F → Option (Setting F)
  coerce_known section key none value = none
  coerce_known section key (some field) value = coerce section key field.expected value

  unfoldable pub coerce_all : Text → List (Field F) → List (Text × Toml F) → Option (Section F)
  coerce_all section fields [] = some []
  coerce_all section fields ((key, value) ∷ raw) =
      with_setting key (coerce_known section key (find_field key fields) value)
        (coerce_all section fields raw)

  -- `cls(**values)`
  abbrev pub or_default : Field F → Option (Setting F) → Setting F
  or_default field none = field.default
  or_default field (some setting) = setting

  abbrev pub filled : List (Field F) → Section F → Section F
  filled fields values =
      map (λ field. (field.key, or_default field (lookup field.key values))) fields

  abbrev pub filled_with : List (Field F) → Option (Section F) → Option (Section F)
  filled_with fields none = none
  filled_with fields (some values) = some (filled fields values)

  -- `_build_section`, and the default of a section that the file does not have
  unfoldable pub build_section : Text → List (Field F) → Option (TopEntry F) → Option (Section F)
  build_section name fields none = some (filled fields [])
  build_section name fields (some (table raw)) = filled_with fields (coerce_all name fields raw)
  build_section name fields (some loose) = none

  abbrev pub with_section :
      Text
      → Option (Section F)
      → Option (List (Text × Section F))
      → Option (List (Text × Section F))
  with_section name (some section) (some rest) = some ((name, section) ∷ rest)
  with_section name _ _ = none

  unfoldable pub build_all :
      List (Text × List (Field F)) → File F → Option (List (Text × Section F))
  build_all [] raw = some []
  build_all ((name, fields) ∷ schema) raw =
      with_section name (build_section name fields (lookup name raw)) (build_all schema raw)

  abbrev pub is_known : Text × TopEntry F → Bool
  is_known (name, value) = is_some (lookup name (sections {F = F}))

  abbrev pub setting_at : Text → Text → List (Text × Section F) → Option (Setting F)
  setting_at section key config = range_of section key config

  -- `_check_password_file`
  abbrev pub password_allowed : (Text → Option ℕ) → Option (Setting F) → Option (Setting F) → Bool
  password_allowed mode_of (some (flag true)) (some (word (c ∷ path))) =
      is_private (mode_of (c ∷ path))
  password_allowed mode_of _ _ = true

  abbrev pub checked :
      (Text → Option ℕ) → Option (List (Text × Section F)) → Option (List (Text × Section F))
  checked mode_of none = none
  checked mode_of (some config) =
      if password_allowed mode_of (setting_at (codes "mqtt") (codes "enabled") config)
        (setting_at (codes "mqtt") (codes "password_file") config)
      then some config
      else none

  -- `load_config`, of a file that was read
  unfoldable pub load_config : (Text → Option ℕ) → File F → Option (List (Text × Section F))
  load_config mode_of raw =
      if any_of (λ entry. not (is_known entry)) raw
      then none
      else checked mode_of (build_all sections raw)
