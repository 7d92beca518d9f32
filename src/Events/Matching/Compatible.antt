-- ===== src/Events/Matching/Compatible.antt =====
-- When two readings can be one threat at all.
use unidenr8_bluetooth.Prelude.{◌≡◌, Bool, true, not, ◌&&◌, Option, some, arith, ltb, is_some}
use unidenr8_bluetooth.Prelude.Int.{ℤ, dist_ℤ, eqb_ℤ}
use unidenr8_bluetooth.Runtime.Text.{text_eq}
use unidenr8_bluetooth.Runtime.Float.{Float}
use unidenr8_bluetooth.Runtime.Unicode.{Unicode}
use unidenr8_bluetooth.Telemetry.Alert.{Alert, option_eq}
use unidenr8_bluetooth.Events.Matching.{band_family, tolerance, match_cost, max_strength_jump}

-- the strengths do not jump by more than four bars, where both are known
abbrev pub near_strength : Option ℤ → Option ℤ → Bool
near_strength (some a) (some b) = not (ltb max_strength_jump (dist_ℤ a b))
near_strength _ _ = true

module _ {F : Type 0} ⦃f : Float F⦄ where
  -- the frequencies are within the tolerance, where both are known
  abbrev pub near_frequency : F → Option F → Option F → Bool
  near_frequency tol (some a) (some b) = not (f.lt tol (f.magnitude (f.sub a b)))
  near_frequency tol _ _ = true

module _ {F : Type 0} ⦃f : Float F⦄ ⦃u : Unicode⦄ where
  abbrev pub compatible : Alert F → Alert F → Bool
  compatible a b =
      text_eq (band_family a.band) (band_family b.band)
      && (option_eq eqb_ℤ a.laser_gun_id b.laser_gun_id
          && (near_frequency (tolerance b.band) a.frequency_ghz b.frequency_ghz
              && near_strength a.strength b.strength))

  -- A reading has a score against a track exactly if the band families and the laser guns are the
  -- same, the frequencies are within the band's tolerance, and the strengths are at most four bars
  -- apart, the last two where both readings carry the value. Bands of one family, directions and
  -- all other fields refuse nothing.
  pub match_cost-compatible : (a b : Alert F) → is_some (match_cost a b) ≡ compatible a b
  unfolding match_cost
  match_cost-compatible a b = ground arith
