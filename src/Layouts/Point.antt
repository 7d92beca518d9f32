-- ===== src/Layouts/Point.antt =====
-- `haversine_metres` and `decode_point` of src/uniden_r8/poi_diff.py. No argument is a NaN.
use unidenr8_bluetooth.Prelude.{
  ℕ, Bool, not, ◌&&◌, Option, none, some, List, ltb, if◌then◌else◌, length, take, drop,
}
use unidenr8_bluetooth.Prelude.Int.{pos, neg_ℤ}
use unidenr8_bluetooth.Runtime.Float.{Float, float_eq, min_float}

-- what `math` and `struct` do; `none` is a ValueError of `math`, as for the sine of an infinity
pub record Geometry (F : Type 0) : Type 0 where
  pub radians : F → F
  pub sin : F → Option F
  pub cos : F → Option F
  pub asin : F → Option F
  pub sqrt : F → Option F
  -- `x ** 2`
  pub square : F → F
  -- four bytes as a big-endian float32, with `none` for NaN
  pub float32 : List ℕ → Option F

module _ {F : Type 0} ⦃f : Float F⦄ ⦃g : Geometry F⦄ where
  abbrev whole : ℕ → F
  whole n = f.ratio (pos n) (pos 1)

  -- `h`, of the two sines and the two cosines
  abbrev pub chord : Option F → Option F → Option F → Option F → Option F
  chord (some sin_phi) (some cos_a) (some cos_b) (some sin_lambda) =
      some (f.add (g.square sin_phi) (f.mul (f.mul cos_a cos_b) (g.square sin_lambda)))
  chord _ _ _ _ = none

  abbrev pub root : Option F → Option F
  root none = none
  root (some h) = g.sqrt h

  abbrev pub arc : Option F → Option F
  arc none = none
  arc (some r) = g.asin (min_float (whole 1) r)

  abbrev pub along_earth : Option F → Option F
  along_earth none = none
  along_earth (some a) = some (f.mul (whole 12_742_000) a)

  -- `haversine_metres`; `none` is the ValueError
  unfoldable pub haversine_metres : F → F → F → F → Option F
  haversine_metres lat_a lon_a lat_b lon_b =
      let d_phi = g.radians (f.sub lat_b lat_a) in
      let d_lambda = g.radians (f.sub lon_b lon_a) in
      along_earth (
        arc (
          root (
            chord (g.sin (f.div d_phi (whole 2))) (g.cos (g.radians lat_a))
              (g.cos (g.radians lat_b)) (g.sin (f.div d_lambda (whole 2))))))

  -- `-limit <= x <= limit`
  abbrev within : ℕ → F → Bool
  within limit x = not (f.lt x (f.ratio (neg_ℤ limit) (pos 1))) && not (f.lt (whole limit) x)

  abbrev legal : F → F → Option (F × F)
  legal latitude longitude =
      if not (f.is_finite latitude && f.is_finite longitude)
      then none
      else if not (within 90 latitude && within 180 longitude)
      then none
      else if float_eq latitude (whole 0) && float_eq longitude (whole 0)
      then none
      else some (latitude, longitude)

  abbrev legal_pair : Option F → Option F → Option (F × F)
  legal_pair (some latitude) (some longitude) = legal latitude longitude
  legal_pair _ _ = none

  unfoldable pub decode_point : List ℕ → Option (F × F)
  decode_point bytes =
      if ltb (length bytes) 10
      then none
      else legal_pair (g.float32 (take 4 (drop 2 bytes))) (g.float32 (take 4 (drop 6 bytes)))
