-- ===== src/Config/Schema.antt =====
-- The sections of src/uniden_r8/config.py, their defaults and ranges, and the values of a file.
use unidenr8_bluetooth.Prelude.{
  ℕ, ◌%◌, String, Bool, true, false, Option, none, some, List, [], ◌∷◌, ◌==◌, if◌then◌else◌,
}
use unidenr8_bluetooth.Prelude.Int.{ℤ, pos}
use unidenr8_bluetooth.Runtime.Float.{Float}
use unidenr8_bluetooth.Runtime.Text.{Text, codes, text_eq}

-- a value of a table; `other` is a date, an array or a table in it
pub data Toml (F : Type 0) : Type 0 where
  bool : Bool → Toml F
  int : ℤ → Toml F
  float : F → Toml F
  nan : Toml F
  text : Text → Toml F
  other : Toml F

-- what stands at the top of a file
pub data TopEntry (F : Type 0) : Type 0 where
  table : List (Text × Toml F) → TopEntry F
  loose : TopEntry F

pub data Setting (F : Type 0) : Type 0 where
  flag : Bool → Setting F
  whole : ℤ → Setting F
  number : F → Setting F
  word : Text → Setting F

pub data Kind : Type 0 where
  as_bool as_int as_float as_str : Kind

pub record Field (F : Type 0) : Type 0 where
  pub key : Text
  pub expected : Kind
  pub default : Setting F

abbrev pub Section : Type 0 → Type 0
Section F = List (Text × Setting F)

abbrev pub File : Type 0 → Type 0
File F = List (Text × TopEntry F)

-- `mapping.get(key)`
abbrev pub lookup : {A : Type 0} → Text → List (Text × A) → Option A
lookup key [] = none
lookup key ((name, a) ∷ entries) = if text_eq key name then some a else lookup key entries

module _ {F : Type 0} where
  abbrev pub find_field : Text → List (Field F) → Option (Field F)
  find_field key [] = none
  find_field key (field ∷ fields) =
      if text_eq key field.key then some field else find_field key fields

  abbrev pub bool_setting : String → Bool → Field F
  bool_setting key b = record { key = codes key; expected = as_bool; default = flag b }

  abbrev pub int_setting : String → ℕ → Field F
  int_setting key n = record { key = codes key; expected = as_int; default = whole (pos n) }

  abbrev pub str_setting : String → String → Field F
  str_setting key s = record { key = codes key; expected = as_str; default = word (codes s) }

-- `_RANGES` of the whole numbers
abbrev pub whole_ranges : List (Text × List (Text × (ℤ × ℤ)))
whole_ranges =
    (codes "collector", (codes "queue_size", (pos 8, pos 100_000)) ∷ [])
    ∷ (
      codes "history",
      (codes "retain_days", (pos 0, pos 3650)) ∷ (codes "max_rows", (pos 0, pos 100_000_000)) ∷ [],
    )
    ∷ (codes "gnss", (codes "port", (pos 1, pos 65535)) ∷ [])
    ∷ (codes "mqtt", (codes "port", (pos 1, pos 65535)) ∷ [])
    ∷ (codes "feed", (codes "port", (pos 1, pos 65535)) ∷ [])
    ∷ []

abbrev pub range_of : {A : Type 0} → Text → Text → List (Text × List (Text × A)) → Option A
range_of section key ranges = elim (lookup section ranges) [
  | none ↦ none
  | some entries ↦ lookup key entries
]

-- `mode & 0o077`
abbrev pub is_private : Option ℕ → Bool
is_private none = false
is_private (some mode) = mode % 64 == 0

module _ {F : Type 0} ⦃f : Float F⦄ where
  abbrev pub float_setting : String → ℕ → Field F
  float_setting key n = record {
    key = codes key;
    expected = as_float;
    default = number (f.ratio (pos n) (pos 1));
  }

  -- `CollectorConfig` and the like
  abbrev pub collector_fields : List (Field F)
  collector_fields =
      str_setting "state_dir" ".state"
      ∷ str_setting "adapter" ""
      ∷ bool_setting "detail" true
      ∷ float_setting "heartbeat_seconds" 5
      ∷ int_setting "queue_size" 256
      ∷ float_setting "stale_after_seconds" 10
      ∷ []

  abbrev pub obd_fields : List (Field F)
  obd_fields =
      bool_setting "guard" true
      ∷ str_setting "unit" "hummer-rfcomm"
      ∷ str_setting "device" "/dev/rfcomm0"
      ∷ float_setting "interval_seconds" 15
      ∷ []

  abbrev pub history_fields : List (Field F)
  history_fields =
      bool_setting "enabled" false
      ∷ str_setting "path" "history.db"
      ∷ int_setting "retain_days" 30
      ∷ int_setting "max_rows" 250_000
      ∷ float_setting "telemetry_every_seconds" 10
      ∷ bool_setting "record_detector_motion" false
      ∷ bool_setting "record_alert_snapshots" true
      ∷ []

  abbrev pub gnss_fields : List (Field F)
  gnss_fields =
      bool_setting "enabled" false
      ∷ str_setting "host" "127.0.0.1"
      ∷ int_setting "port" 2947
      ∷ bool_setting "record_coordinates" false
      ∷ float_setting "stale_after_seconds" 5
      ∷ []

  abbrev pub mqtt_fields : List (Field F)
  mqtt_fields =
      bool_setting "enabled" false
      ∷ str_setting "host" "127.0.0.1"
      ∷ int_setting "port" 1883
      ∷ str_setting "username" ""
      ∷ str_setting "password_file" ""
      ∷ str_setting "base_topic" "unidenr8"
      ∷ bool_setting "detail" false
      ∷ bool_setting "home_assistant" false
      ∷ bool_setting "tls" false
      ∷ []

  abbrev pub feed_fields : List (Field F)
  feed_fields =
      bool_setting "enabled" false
      ∷ str_setting "bind" "127.0.0.1"
      ∷ int_setting "port" 8787
      ∷ bool_setting "detail" false
      ∷ []

  -- `_SECTIONS`
  abbrev pub sections : List (Text × List (Field F))
  sections =
      (codes "collector", collector_fields)
      ∷ (codes "obd", obd_fields)
      ∷ (codes "history", history_fields)
      ∷ (codes "gnss", gnss_fields)
      ∷ (codes "mqtt", mqtt_fields)
      ∷ (codes "feed", feed_fields)
      ∷ []

  -- `n / 2` seconds
  abbrev halves : ℕ → F
  halves n = f.ratio (pos n) (pos 2)

  -- `_RANGES` of the floats
  abbrev pub float_ranges : List (Text × List (Text × (F × F)))
  float_ranges =
      (
        codes "collector",
        (codes "heartbeat_seconds", (halves 1, halves 600))
            ∷ (codes "stale_after_seconds", (halves 2, halves 7200))
            ∷ [],
      )
      ∷ (codes "obd", (codes "interval_seconds", (halves 2, halves 1200)) ∷ [])
      ∷ (codes "history", (codes "telemetry_every_seconds", (halves 0, halves 7200)) ∷ [])
      ∷ (codes "gnss", (codes "stale_after_seconds", (halves 1, halves 1200)) ∷ [])
      ∷ []
