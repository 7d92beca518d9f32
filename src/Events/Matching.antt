-- ===== src/Events/Matching.antt =====
-- `band_family`, `_tolerance`, `match_cost` and `_direction_cost` of src/uniden_r8/events.py.
pub mod Compatible
pub mod Symmetry
use unidenr8_bluetooth.Prelude.{
  ℕ, ◌-◌, ◌≡◌, Bool, true, false, not, Option, none, some, List, [], ◌∷◌, arith, ltb, leb, ◌==◌,
  if◌then◌else◌,
}
use unidenr8_bluetooth.Prelude.Int.{ℤ, pos, dist_ℤ, eqb_ℤ}
use unidenr8_bluetooth.Runtime.Text.{Text, codes, text_eq}
use unidenr8_bluetooth.Runtime.Float.{Float}
use unidenr8_bluetooth.Runtime.Unicode.{Unicode}
use unidenr8_bluetooth.Telemetry.Tables.{lookup, lookup_or, or_text}
use unidenr8_bluetooth.Telemetry.Alert.{Alert, option_eq}

-- `_BAND_FAMILIES`
abbrev pub band_families : List (Text × Text)
band_families =
    (codes "K", codes "K")
    ∷ (codes "K POP", codes "K")
    ∷ (codes "KA", codes "KA")
    ∷ (codes "KA POP", codes "KA")
    ∷ (codes "MRCD", codes "PHOTO")
    ∷ (codes "MRCT", codes "PHOTO")
    ∷ (codes "RT3", codes "RT")
    ∷ (codes "RT4", codes "RT")
    ∷ (codes "X", codes "X")
    ∷ (codes "LASER", codes "LASER")
    ∷ []

-- `_DIRECTION_AXIS`
abbrev pub direction_axis : List (Text × ℕ)
direction_axis = (codes "F", 0) ∷ (codes "S", 1) ∷ (codes "R", 2) ∷ []

-- `_MAX_STRENGTH_JUMP`
abbrev pub max_strength_jump : ℕ
max_strength_jump = 4

module _ ⦃u : Unicode⦄ where
  unfoldable pub band_family : Text → Text
  band_family band = lookup_or (u.upper band) band_families (u.upper band)

-- `abs(a - b)` of two positions
abbrev distance : ℕ → ℕ → ℕ
distance a b = if leb b a then a - b else b - a

module _ {F : Type 0} ⦃f : Float F⦄ where
  -- the literal n / m
  abbrev pub literal : ℕ → ℕ → F
  literal n m = f.ratio (pos n) (pos m)

  -- `BAND_TOLERANCE_GHZ`
  abbrev pub band_tolerance_ghz : List (Text × F)
  band_tolerance_ghz =
      (codes "X", literal 10 1000)
      ∷ (codes "K", literal 10 1000)
      ∷ (codes "K POP", literal 10 1000)
      ∷ (codes "KA", literal 50 1000)
      ∷ (codes "KA POP", literal 50 1000)
      ∷ []

  axis_cost : Option ℕ → Option ℕ → F
  axis_cost (some first) (some second) =
      if distance first second == 1 then literal 3 10 else literal 8 10
  axis_cost _ _ = literal 5 10

  unfoldable pub direction_cost : Option Text → Option Text → F
  unfolding axis_cost
  direction_cost before after =
      if option_eq text_eq before after
      then literal 0 1
      else axis_cost (lookup (or_text before []) direction_axis)
          (lookup (or_text after []) direction_axis)

  -- the frequency's part of the cost, with `none` for a refusal
  frequency_cost : F → F → Option F → Option F → Option F
  frequency_cost tolerance cost (some a) (some b) =
      let delta = f.magnitude (f.sub a b) in
      if f.lt tolerance delta then none else some (f.add cost (f.div delta tolerance))
  frequency_cost tolerance cost _ _ = some (f.add cost (literal 5 10))

  -- the strength's part
  strength_cost : F → Option ℤ → Option ℤ → Option F
  strength_cost cost (some a) (some b) =
      let jump = dist_ℤ a b in
      if ltb max_strength_jump jump
      then none
      else some (f.add cost (f.mul (literal jump 1) (literal 1 10)))
  strength_cost cost _ _ = some cost

  infixl 5 ◌>>=◌
  abbrev ◌>>=◌ : Option F → (F → Option F) → Option F
  none >>= g = none
  some a >>= g = g a

module _ {F : Type 0} ⦃f : Float F⦄ ⦃u : Unicode⦄ where
  unfoldable pub tolerance : Text → F
  tolerance band = lookup_or (u.upper band) band_tolerance_ghz (literal 20 1000)

  unfoldable pub match_cost : Alert F → Alert F → Option F
  unfolding frequency_cost strength_cost
  match_cost track incoming =
      if not (text_eq (band_family track.band) (band_family incoming.band))
      then none
      else if not (option_eq eqb_ℤ track.laser_gun_id incoming.laser_gun_id)
      then none
      else do
        let start =
            if not (text_eq track.band incoming.band)
            then f.add (literal 0 1) (literal 5 10)
            else literal 0 1
        with_frequency ←
            frequency_cost (tolerance incoming.band) start track.frequency_ghz
              incoming.frequency_ghz
        strength_cost (f.add with_frequency (direction_cost track.direction incoming.direction))
            track.strength incoming.strength
