-- ===== src/Telemetry/Tables.antt =====
-- The vocabularies of src/uniden_r8/telemetry.py, and lookup in a dictionary keyed by text.
use unidenr8_bluetooth.Prelude.{
  false, Option, none, some, List, [], ◌∷◌, if◌then◌else◌, Bool-cases, inl, inr, ◌⊎◌, All, Any, ◌≡◌,
  refl, subst,
}
use unidenr8_bluetooth.Runtime.Text.{Text, codes, text_eq, text_eq_sound}

-- `table.get(key)`
unfoldable pub lookup : {A : Type 0} → Text → List (Text × A) → Option A
lookup key [] = none
lookup key ((k, v) ∷ table) = if text_eq k key then some v else lookup key table

-- `table.get(key, default)`
abbrev pub lookup_or : {A : Type 0} → Text → List (Text × A) → A → A
lookup_or key table default = elim (lookup key table) [ some v ↦ v | none ↦ default ]

-- `value or default`, of an optional text
abbrev pub or_text : Option Text → Text → Text
or_text none default = default
or_text (some []) default = default
or_text (some (c ∷ s)) default = c ∷ s

abbrev pub unknown : Text
unknown = codes "unknown"

-- A key that is found is one of the table's; where none is found, every comparison failed.
pub lookup-cases :
    {A : Type 0} (key : Text) (table : List (Text × A))
    → Any (λ e. e.0 ≡ key) table
      ⊎ ((lookup key table ≡ none) × All (λ e. text_eq e.0 key ≡ false) table)
unfolding lookup
lookup-cases key [] = inr (refl, tt)
lookup-cases key ((k, v) ∷ table) = elim (Bool-cases (text_eq k key)) [
  | inl here ↦ inl (inl (text_eq_sound k key here))
  | inr other ↦ elim (lookup-cases key table) [
    | inl later ↦ inl (inr later)
    | inr (missing, rest) ↦ inr (rw other missing, (other, rest))
  ]
]

-- What holds of every key of a table holds of a key that is found.
pub Any-key :
    {A : Type 0} (P : Text → Type 0) (key : Text) (table : List (Text × A))
    → All (λ e. P e.0) table
    → Any (λ e. e.0 ≡ key) table
    → P key
Any-key P key [] h found = absurd found
Any-key P key ((k, v) ∷ table) h (inl e) = subst P e h.0
Any-key P key ((k, v) ∷ table) h (inr found) = Any-key P key table h.1 found

-- `DIRECTIONS`
abbrev pub directions : List (Text × Text)
directions = (codes "F", codes "front") ∷ (codes "S", codes "side") ∷ (codes "R", codes "rear") ∷ []

-- `BANDS`
abbrev pub bands : List Text
bands =
    codes "X"
    ∷ codes "K"
    ∷ codes "KA"
    ∷ codes "LASER"
    ∷ codes "MRCD"
    ∷ codes "MRCT"
    ∷ codes "RT3"
    ∷ codes "RT4"
    ∷ codes "K POP"
    ∷ codes "KA POP"
    ∷ []

-- `_GUN_ID_BANDS` and `_NO_FREQUENCY_BANDS`
abbrev pub gun_id_bands : List Text
gun_id_bands = codes "LASER" ∷ []

abbrev pub no_frequency_bands : List Text
no_frequency_bands = codes "LASER" ∷ codes "RT3" ∷ codes "RT4" ∷ codes "MRCD" ∷ codes "MRCT" ∷ []

-- `MUTE_STATES` and `_MUTED_CODES`
abbrev pub mute_states : List (Text × Text)
mute_states =
    (codes "1", codes "not muted")
    ∷ (codes "2", codes "muted")
    ∷ (codes "3", codes "mute memory")
    ∷ (codes "4", codes "auto mute memory")
    ∷ (codes "5", codes "blocked mute")
    ∷ (codes "6", codes "quiet ride mute")
    ∷ []

abbrev pub muted_codes : List Text
muted_codes = codes "2" ∷ codes "3" ∷ codes "4" ∷ codes "5" ∷ codes "6" ∷ []

-- `LASER_GUNS`
abbrev pub laser_guns : List Text
laser_guns =
    codes "laser"
    ∷ codes "LTI 20/20"
    ∷ codes "Stalker"
    ∷ codes "RIEGL"
    ∷ codes "Laser Ally"
    ∷ codes "Kustom"
    ∷ codes "Atlanta"
    ∷ codes "Laveg"
    ∷ codes "SL700"
    ∷ codes "SCS-102"
    ∷ codes "TraffiPat"
    ∷ codes "Truspeed S"
    ∷ codes "Stealth"
    ∷ codes "TruCam"
    ∷ codes "XLR"
    ∷ codes "DragonEye Compact"
    ∷ codes "DragonEye Full-Size"
    ∷ codes "PoliScan"
    ∷ codes "Traffistar s350"
    ∷ codes "Vitronic Poliscan"
    ∷ []

-- `COMPASS_POINTS`
abbrev pub compass_points : List Text
compass_points =
    codes "N"
    ∷ codes "NE"
    ∷ codes "E"
    ∷ codes "SE"
    ∷ codes "S"
    ∷ codes "SW"
    ∷ codes "W"
    ∷ codes "NW"
    ∷ []

-- `POI_KINDS`
abbrev pub poi_kinds : List Text
poi_kinds =
    codes "SPEEDCAM"
    ∷ codes "REDLIGHT"
    ∷ codes "USERMARK"
    ∷ codes "SPEEDTRAP"
    ∷ codes "AIRPATROL"
    ∷ []
