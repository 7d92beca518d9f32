-- ===== src/Telemetry/Packet/Suspect.antt =====
-- When the coordinate tripwire of src/uniden_r8/telemetry.py is set off, against what a coordinate
-- is.
use unidenr8_bluetooth.Prelude.{
  ℕ, ◌≡◌, ◌≢◌, ◌↔◌, inl, inr, refl, sym, ap, ◌∙◌, true, false, ◌&&◌, Option, none, some, List, [],
  ◌∷◌, ◌++◌, map, ◌==◌, ◌≤◌, length, length-append, arith, Bool-cases, Any,
}
use unidenr8_bluetooth.Prelude.Int.{ℤ, pos, negsuc}
use unidenr8_bluetooth.Runtime.Text.{Text, codes, contains, split, text_eq, text_eq_sound}
use unidenr8_bluetooth.Runtime.Float.{Float}
use unidenr8_bluetooth.Runtime.Unicode.{Unicode, strip}
use unidenr8_bluetooth.Telemetry.Fields.{safe_group, at_field, stripped, non_empty}
use unidenr8_bluetooth.Telemetry.Packet.{
  in_range, looks_like_coordinate, has_pair, gps_of_parts, parse_gps_group, poi_of_parts,
  poi_values, with_values, parse_poi_group, PoiWarning, no_poi,
}

contains_iff : (c : ℕ) (s : Text) → (contains c s ≡ true) ↔ Any (λ d. d ≡ c) s
unfolding contains
contains_iff c [] = (λ h. absurd (cc h), λ bad. absurd bad)
contains_iff c (d ∷ s) =
    let (there, back) = contains_iff c s in
    (
      λ h. elim (Bool-cases (d == c)) [
        | inl here ↦ inl (ground arith)
        | inr elsewhere ↦ inr (there (ground arith))
      ],
      λ found. elim found [ inl e ↦ ground arith | inr later ↦ ground (arith, back later) ],
    )

module _ ⦃u : Unicode⦄ where
  with_values-same :
      (o : Option (Text × ℤ × ℤ)) (w : PoiWarning)
      → ((with_values o w).suspect_pair ≡ w.suspect_pair) × ((with_values o w).active ≡ w.active)
  unfolding with_values
  with_values-same none w = (refl, refl)
  with_values-same (some (kind, distance, limit)) w = (refl, refl)

module _ (F : Type 0) ⦃f : Float F⦄ where
  -- a number with a point, from -180 to 180, that is not whole
  abbrev pub IsDegrees : Text → Type 0
  IsDegrees part =
      Any (λ c. c ≡ b'.') part
      × ((n : F) × (f.of_text part ≡ some n)
          × (f.lt n (f.ratio (negsuc 179) (pos 1)) ≡ false)
          × (f.lt (f.ratio (pos 180) (pos 1)) n ≡ false)
          × (f.is_integral n ≡ false))

  -- two neighbours that are such numbers
  abbrev pub HasPlace : List Text → Type 0
  HasPlace parts =
      (before : List Text) × (left : Text) × (right : Text) × (after : List Text) × (parts
        ≡ before ++ (left ∷ right ∷ after))
      × IsDegrees left
      × IsDegrees right

  looks_like_coordinate_iff :
      (part : Text) → (looks_like_coordinate F (some part) ≡ true) ↔ IsDegrees part
  unfolding looks_like_coordinate in_range
  looks_like_coordinate_iff part = (there (f.of_text part) refl, back)
    where
      there :
          (o : Option F)
          → f.of_text part ≡ o
          → (contains b'.' part && in_range F o) ≡ true
          → IsDegrees part
      there none e h = absurd (ground (arith, h))
      there (some n) e h = (
        (contains_iff b'.' part).0 (ground (arith, h)),
        (n, e, ground (arith, h), ground (arith, h), ground (arith, h)),
      )

      back : IsDegrees part → (contains b'.' part && in_range F (f.of_text part)) ≡ true
      back (point, (n, e, low, high, fraction)) =
          rw (e, (contains_iff b'.' part).1 point, low, high, fraction) refl

  too_short : (parts : List Text) → length parts ≤ 1 → HasPlace parts → ⊥
  too_short parts short (before, l, r, after, e, one, two) =
      omega (arith, short, ap length e, length-append before (l ∷ r ∷ after))

  -- from the later neighbours to all
  pair_there :
      (p q : Text) (parts : List Text)
      → (has_pair F (q ∷ parts) ≡ true → HasPlace (q ∷ parts))
      → has_pair F (p ∷ q ∷ parts) ≡ true
      → HasPlace (p ∷ q ∷ parts)
  unfolding has_pair
  pair_there p q parts ih h = elim (Bool-cases (has_pair F (q ∷ parts))) [
    | inl later ↦
        let (before, l, r, after, e, one, two) = ih later in
        (p ∷ before, l, r, after, ap (◌∷◌ p) e, one, two)
    | inr first ↦ (
      [],
      p,
      q,
      parts,
      refl,
      (looks_like_coordinate_iff p).0 (ground (arith, h, first)),
      (looks_like_coordinate_iff q).0 (ground (arith, h, first)),
    )
  ]

  pair_back :
      (p q : Text) (parts : List Text)
      → (HasPlace (q ∷ parts) → has_pair F (q ∷ parts) ≡ true)
      → HasPlace (p ∷ q ∷ parts)
      → has_pair F (p ∷ q ∷ parts) ≡ true
  unfolding has_pair
  pair_back p q parts ih ([], l, r, after, e, one, two) =
      let same : p ≡ l = cc e in
      let same' : q ≡ r = cc e in
      rw (same, same', (looks_like_coordinate_iff l).1 one, (looks_like_coordinate_iff r).1 two)
        refl
  pair_back p q parts ih (b ∷ before, l, r, after, e, one, two) =
      let tail : q ∷ parts ≡ before ++ (l ∷ r ∷ after) = cc e in
      let later = ih (before, l, r, after, tail, one, two) in rw later (ground arith)

  has_pair_iff : (parts : List Text) → (has_pair F parts ≡ true) ↔ HasPlace parts
  unfolding has_pair
  has_pair_iff [] = (λ h. absurd (cc h), λ place. absurd (too_short [] (omega arith) place))
  has_pair_iff (p ∷ []) =
      (λ h. absurd (cc h), λ place. absurd (too_short (p ∷ []) (omega arith) place))
  has_pair_iff (p ∷ q ∷ parts) =
      let (there, back) = has_pair_iff (q ∷ parts) in
      (pair_there p q parts there, pair_back p q parts back)

module _ (F : Type 0) ⦃f : Float F⦄ ⦃u : Unicode⦄ where
  poi-suspect :
      (raw : Text) (parts : List Text)
      → ((poi_of_parts F raw parts).active ≡ true)
        × ((poi_of_parts F raw parts).suspect_pair ≡ has_pair F parts)
  unfolding poi_of_parts
  poi-suspect raw parts = elim (Bool-cases (has_pair F parts)) [
    | inl pair ↦ rw pair (refl, refl)
    | inr plain ↦
        let o = poi_values parts in
        let w : PoiWarning = record no_poi { active = true; raw = safe_group 48 8 (some raw) } in
        rw plain ((with_values-same o w).1, (with_values-same o w).0)
  ]

  -- The first two of four fields, stripped, that are coordinates.
  abbrev pub StartsWithPlace : List Text → Type 0
  StartsWithPlace parts =
      (first : Text) × (second : Text) × (third : Text) × (fourth : Text) × (parts
        ≡ first ∷ second ∷ third ∷ fourth ∷ [])
      × IsDegrees F (strip first)
      × IsDegrees F (strip second)

  field-degrees :
      (s : Text) → looks_like_coordinate F (non_empty s) ≡ looks_like_coordinate F (some s)
  unfolding looks_like_coordinate non_empty contains
  field-degrees [] = refl
  field-degrees (c ∷ s) = refl

  -- four fields
  gps_four :
      (a b c d : Text)
      → (gps_of_parts F (a ∷ b ∷ c ∷ d ∷ [])).suspect_pair
        ≡ (looks_like_coordinate F (some (strip a)) && looks_like_coordinate F (some (strip b)))
  unfolding gps_of_parts at_field stripped
  gps_four a b c d =
      rw (sym (field-degrees (strip a)), sym (field-degrees (strip b)))
        (elim (Bool-cases (
          looks_like_coordinate F (non_empty (strip a))
          && looks_like_coordinate F (non_empty (strip b)))) [
            | inl pair ↦ rw pair refl
            | inr plain ↦ rw plain refl
          ])

  not_four : (parts : List Text) → (length parts == 4) ≡ false → StartsWithPlace parts → ⊥
  not_four parts h (a, b, c, d, e, one, two) =
      let four : length parts ≡ 4 = ap length e in ground (arith, h, four)

  gps-suspect :
      (parts : List Text) → ((gps_of_parts F parts).suspect_pair ≡ true) ↔ StartsWithPlace parts
  unfolding gps_of_parts
  gps-suspect [] = (λ h. absurd (cc h), λ place. absurd (not_four [] refl place))
  gps-suspect (a ∷ []) = (λ h. absurd (cc h), λ place. absurd (not_four (a ∷ []) refl place))
  gps-suspect (a ∷ b ∷ []) =
      (λ h. absurd (cc h), λ place. absurd (not_four (a ∷ b ∷ []) refl place))
  gps-suspect (a ∷ b ∷ c ∷ []) =
      (λ h. absurd (cc h), λ place. absurd (not_four (a ∷ b ∷ c ∷ []) refl place))
  gps-suspect (a ∷ b ∷ c ∷ d ∷ []) =
      let left = looks_like_coordinate_iff F (strip a) in
      let right = looks_like_coordinate_iff F (strip b) in
      (
        λ h.
            let both = sym (gps_four a b c d) ∙ h in
            (a, b, c, d, refl, left.0 (ground (arith, both)), right.0 (ground (arith, both))),
        λ (a', b', c', d', e, one, two).
            let same : a ≡ a' = cc e in
            let same' : b ≡ b' = cc e in
            gps_four a b c d ∙ rw (left.1 (rw same one), right.1 (rw same' two)) refl,
      )
  gps-suspect (a ∷ b ∷ c ∷ d ∷ e ∷ parts) =
      let many : (length (a ∷ b ∷ c ∷ d ∷ e ∷ parts) == 4) ≡ false = ground arith in
      (
        λ h. absurd (cc (rw many at h)),
        λ place. absurd (not_four (a ∷ b ∷ c ∷ d ∷ e ∷ parts) many place),
      )

  -- The tripwire of a group that is neither empty nor `0`. A warning is active, and suspect exactly
  -- if two neighbours of its parts at the commas, stripped, are both coordinates: text with a point
  -- that reads as a number from -180 to 180 that is not whole. A group of the detector's GPS is
  -- suspect exactly if it has four parts of which the first two, stripped, are coordinates.
  pub parse_group-tripwire :
      (raw : Text)
      → raw ≢ codes "0"
      → raw ≢ []
      → ((parse_poi_group F (some raw)).active ≡ true)
        × (((parse_poi_group F (some raw)).suspect_pair ≡ true)
            ↔ HasPlace F (map strip (split b',' raw)))
        × (((parse_gps_group F (some raw)).suspect_pair ≡ true) ↔ StartsWithPlace (split b',' raw))
  unfolding parse_poi_group parse_gps_group
  parse_group-tripwire [] h k = absurd (k refl)
  parse_group-tripwire (c ∷ s) h k =
      let parts = map strip (split b',' (c ∷ s)) in
      elim (Bool-cases (text_eq (c ∷ s) (codes "0"))) [
        | inl idle ↦ absurd (h (text_eq_sound (c ∷ s) (codes "0") idle))
        | inr busy ↦
            let (active, suspect) = poi-suspect (c ∷ s) parts in
            let (there, back) = has_pair_iff F parts in
            rw busy (
              active,
              (λ e. there (sym suspect ∙ e), λ place. suspect ∙ back place),
              gps-suspect (split b',' (c ∷ s)),
            )
      ]
