-- ===== src/Events/Matching/Symmetry.antt =====
-- The two directions of `match_cost`.
use unidenr8_bluetooth.Prelude.{
  ℕ, ◌≡◌, refl, false, Option, none, some, arith, [], ◌∷◌, if◌then◌else◌, Bool-cases, inl, inr, ap,
  sym, ◌∙◌, All,
}
use unidenr8_bluetooth.Prelude.Int.{ℤ, eqb_ℤ, dist_ℤ_comm}
use unidenr8_bluetooth.Runtime.Text.{Text, codes, text_eq, text_eq_sound, text_eq_iff}
use unidenr8_bluetooth.Runtime.Float.{Float}
use unidenr8_bluetooth.Runtime.Unicode.{Unicode}
use unidenr8_bluetooth.Telemetry.Tables.{lookup, lookup_or, or_text, lookup-cases, Any-key}
use unidenr8_bluetooth.Telemetry.Alert.{Alert, option_eq}
use unidenr8_bluetooth.Events.Matching.{
  band_family, band_families, band_tolerance_ghz, tolerance, match_cost, direction_cost, axis_cost,
  distance, direction_axis, frequency_cost, strength_cost, literal,
}

text_eq_comm : (s t : Text) → text_eq s t ≡ text_eq t s
text_eq_comm s t = ground (arith, text_eq_iff s t, text_eq_iff t s)

distance_comm : (a b : ℕ) → distance a b ≡ distance b a
distance_comm a b = ground arith

gun_eq_comm : (a b : Option ℤ) → option_eq eqb_ℤ a b ≡ option_eq eqb_ℤ b a
gun_eq_comm a b = ground arith

text_option_eq_comm : (a b : Option Text) → option_eq text_eq a b ≡ option_eq text_eq b a
text_option_eq_comm (some a) (some b) = text_eq_comm a b
text_option_eq_comm (some a) none = refl
text_option_eq_comm none (some b) = refl
text_option_eq_comm none none = refl

module _ {F : Type 0} ⦃f : Float F⦄ where
  axis_cost_comm : (a b : Option ℕ) → axis_cost {F = F} a b ≡ axis_cost b a
  unfolding axis_cost
  axis_cost_comm (some a) (some b) = rw (distance_comm a b)
  axis_cost_comm (some a) none = refl
  axis_cost_comm none (some b) = refl
  axis_cost_comm none none = refl

  direction_cost_comm : (a b : Option Text) → direction_cost {F = F} a b ≡ direction_cost b a
  unfolding direction_cost
  direction_cost_comm a b = rw (text_option_eq_comm a b) (
      ap (λ c. if option_eq text_eq b a then literal 0 1 else c)
        (axis_cost_comm (lookup (or_text a []) direction_axis)
          (lookup (or_text b []) direction_axis)))

module _ (F : Type 0) ⦃f : Float F⦄ where
  -- the tolerance of a band is that of its family
  family_tolerance : Text → F
  family_tolerance family =
      lookup_or family
        ((codes "X", literal 10 1000)
          ∷ (codes "K", literal 10 1000)
          ∷ (codes "KA", literal 50 1000)
          ∷ [])
        (literal 20 1000)

  -- a band that is in no family is in no other table either
  no_family :
      (band : Text)
      → lookup band band_families ≡ none
      → All (λ e. text_eq e.0 band ≡ false) band_families
      → lookup_or band (band_tolerance_ghz {F = F}) (literal 20 1000)
        ≡ family_tolerance (lookup_or band band_families band)
  unfolding lookup family_tolerance
  no_family band missing other = ground arith

  abbrev SameTolerance : Text → Type 0
  SameTolerance band =
      lookup_or band (band_tolerance_ghz {F = F}) (literal 20 1000)
      ≡ family_tolerance (lookup_or band band_families band)

  family_tolerance_lem : (band : Text) → SameTolerance band
  unfolding lookup family_tolerance text_eq
  family_tolerance_lem band = elim (lookup-cases band band_families) [
    | inl found ↦
        Any-key SameTolerance band band_families
          (refl, (refl, (refl, (refl, (refl, (refl, (refl, (refl, (refl, (refl, tt)))))))))) found
    | inr (missing, other) ↦ no_family band missing other
  ]

module _ {F : Type 0} ⦃f : Float F⦄ ⦃u : Unicode⦄ where
  same_tolerance : (a b : Text) → band_family a ≡ band_family b → tolerance {F = F} a ≡ tolerance b
  unfolding tolerance band_family
  same_tolerance a b e =
      family_tolerance_lem F (u.upper a)
      ∙ ap (family_tolerance F) e
      ∙ sym (family_tolerance_lem F (u.upper b))

  frequency_cost_comm :
      ((x y : F) → f.magnitude (f.sub x y) ≡ f.magnitude (f.sub y x))
      → (tol cost : F) (a b : Option F) → frequency_cost tol cost a b ≡ frequency_cost tol cost b a
  unfolding frequency_cost
  frequency_cost_comm comm tol cost (some a) (some b) = rw (comm a b)
  frequency_cost_comm comm tol cost (some a) none = refl
  frequency_cost_comm comm tol cost none (some b) = refl
  frequency_cost_comm comm tol cost none none = refl

  strength_cost_comm : (a b : Option ℤ) (cost : F) → strength_cost cost a b ≡ strength_cost cost b a
  unfolding strength_cost
  strength_cost_comm (some a) (some b) cost = rw (dist_ℤ_comm a b)
  strength_cost_comm (some a) none cost = refl
  strength_cost_comm none (some b) cost = refl
  strength_cost_comm none none cost = refl

  -- If `abs(a - b)` is `abs(b - a)` for floats, the score of a reading against a track is the score
  -- with the two exchanged, refusals included.
  pub match_cost_comm :
      ((x y : F) → f.magnitude (f.sub x y) ≡ f.magnitude (f.sub y x))
      → (a b : Alert F) → match_cost a b ≡ match_cost b a
  unfolding match_cost
  match_cost_comm comm a b = elim (Bool-cases (text_eq (band_family a.band) (band_family b.band))) [
    | inl same ↦
        let tol = same_tolerance a.band b.band (text_eq_sound _ _ same) in
        rw
          (
            text_eq_comm (band_family a.band) (band_family b.band),
            gun_eq_comm a.laser_gun_id b.laser_gun_id,
            text_eq_comm a.band b.band,
            frequency_cost_comm comm (tolerance b.band) _ a.frequency_ghz b.frequency_ghz,
            direction_cost_comm a.direction b.direction,
          )
          (simp (strength_cost_comm a.strength b.strength, tol))
    | inr differ ↦ rw (differ, text_eq_comm (band_family b.band) (band_family a.band), differ)
  ]
