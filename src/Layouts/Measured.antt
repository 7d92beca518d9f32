-- ===== src/Layouts/Measured.antt =====
-- Why `haversine_metres` of src/uniden_r8/poi_diff.py raises.
use unidenr8_bluetooth.Prelude.{◌≡◌, ◌⊎◌, refl, inl, inr, Option, none, some}
use unidenr8_bluetooth.Prelude.Int.{pos}
use unidenr8_bluetooth.Runtime.Float.{Float, min_float}
use unidenr8_bluetooth.Layouts.Point.{Geometry, haversine_metres, chord, root, arc, along_earth}

module _ {F : Type 0} ⦃f : Float F⦄ ⦃g : Geometry F⦄ where
  -- a function of `math` raises on the value
  abbrev pub Fails : F → Type 0
  Fails x = (g.sin x ≡ none) ⊎ ((g.cos x ≡ none) ⊎ ((g.sqrt x ≡ none) ⊎ (g.asin x ≡ none)))

  -- a distance is missing only because one of the five calls of `math` raised
  pub haversine-Fails :
      (lat_a lon_a lat_b lon_b : F)
      → haversine_metres lat_a lon_a lat_b lon_b ≡ none
      → (x : F) × Fails x
  unfolding haversine_metres
  haversine-Fails lat_a lon_a lat_b lon_b h =
      chord_of (g.sin _) (g.cos _) (g.cos _) (g.sin _) refl refl refl refl h
    where
      root_of :
          (x : F) (r : Option F) → g.sqrt x ≡ r → along_earth (arc r) ≡ none → (y : F) × Fails y
      root_of x none e h = (x, inr (inr (inl e)))
      root_of x (some r) e h = arc_of (min_float (f.ratio (pos 1) (pos 1)) r) (g.asin _) refl h
        where
          arc_of : (y : F) (a : Option F) → g.asin y ≡ a → along_earth a ≡ none → (z : F) × Fails z
          arc_of y none e h = (y, inr (inr (inr e)))
          arc_of y (some a) e h = absurd (cc h)

      chord_of :
          {x y z w : F} (a b c d : Option F)
          → g.sin x ≡ a
          → g.cos y ≡ b
          → g.cos z ≡ c
          → g.sin w ≡ d
          → along_earth (arc (root (chord a b c d))) ≡ none
          → (v : F) × Fails v
      chord_of {x = x} none b c d p q r s h = (x, inl p)
      chord_of {y = y} (some a) none c d p q r s h = (y, inr (inl q))
      chord_of {z = z} (some a) (some b) none d p q r s h = (z, inr (inl r))
      chord_of {w = w} (some a) (some b) (some c) none p q r s h = (w, inl s)
      chord_of (some a) (some b) (some c) (some d) p q r s h = root_of _ (g.sqrt _) refl h
