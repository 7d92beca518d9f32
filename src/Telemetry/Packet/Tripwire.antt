-- ===== src/Telemetry/Packet/Tripwire.antt =====
-- What a telemetry packet lets through of its two groups and its raw fields.
use unidenr8_bluetooth.Prelude.{
  ℕ, ◌≡◌, refl, Bool, true, false, ◌&&◌, Option, none, some, List, [], ◌∷◌, map, ltb, ◌==◌, length,
  is_some, arith, Bool-cases, inl, inr,
}
use unidenr8_bluetooth.Prelude.Int.{ℤ}
use unidenr8_bluetooth.Runtime.Text.{Text, codes, text_eq, mem_text, split}
use unidenr8_bluetooth.Runtime.Float.{Float}
use unidenr8_bluetooth.Runtime.Unicode.{Unicode, strip}
use unidenr8_bluetooth.Telemetry.Tables.{compass_points, poi_kinds}
use unidenr8_bluetooth.Telemetry.Fields.{Payload, text_of, at_field, safe_word, safe_group}
use unidenr8_bluetooth.Telemetry.Fields.Safe.{word_char, group_char, IsWithin, safe_group-IsWithin}
use unidenr8_bluetooth.Telemetry.Snapshot.Public.{Known, safe_word-Known}
use unidenr8_bluetooth.Telemetry.Packet.{
  DetectorGps, PoiWarning, has_pair, looks_like_coordinate, compass, gps_of_parts, parse_gps_group,
  poi_of_parts, poi_values, with_values, parse_poi_group, telemetry_of, read_fields,
  parse_telemetry, no_gps, no_poi,
}

-- A warning that may be kept: plain text of a bounded length, a documented kind, with a distance
-- and a limit exactly if there is a kind; and nothing at all of a group that set off the tripwire.
pub record IsKept ⦃u : Unicode⦄ (w : PoiWarning) : Type 0 where
  pub plain : Known (IsWithin group_char 48) w.raw
  pub documented : Known (λ k. mem_text k poi_kinds ≡ true) w.kind
  pub distance_known : is_some w.distance_ft ≡ is_some w.kind
  pub limit_known : is_some w.speed_limit_mph ≡ is_some w.kind
  pub withheld : w.suspect_pair ≡ true → (w.raw ≡ none) × (w.kind ≡ none)

-- A group of the detector's GPS that may be kept: a compass point, a short plain status; and
-- nothing of a group that set off the tripwire.
pub record IsHeading ⦃u : Unicode⦄ (g : DetectorGps) : Type 0 where
  pub point : Known (λ d. mem_text d compass_points ≡ true) g.direction_8
  pub plain : Known (IsWithin word_char 4) g.status_raw
  pub withheld :
      g.suspect_pair ≡ true
      → (g.direction_8 ≡ none)
        × (g.speed_raw ≡ none)
        × (g.altitude_raw ≡ none)
        × (g.status_raw ≡ none)

module _ ⦃u : Unicode⦄ where
  safe_group-Known :
      (limit max_parts : ℕ) (raw : Text)
      → Known (IsWithin group_char limit) (safe_group limit max_parts (some raw))
  safe_group-Known limit max_parts raw = go (safe_group limit max_parts (some raw)) refl
    where
      go :
          (o : Option Text)
          → safe_group limit max_parts (some raw) ≡ o
          → Known (IsWithin group_char limit) o
      go none e = tt
      go (some g) e = (safe_group-IsWithin limit max_parts raw g e).0

  poi_values-kind :
      (parts : List Text) → Known (λ v. mem_text v.0 poi_kinds ≡ true) (poi_values parts)
  unfolding poi_values
  poi_values-kind parts = ground arith

  with_values-IsKept :
      (o : Option (Text × ℤ × ℤ)) (w : PoiWarning)
      → Known (λ v. mem_text v.0 poi_kinds ≡ true) o
      → w.kind ≡ none
      → w.distance_ft ≡ none
      → w.speed_limit_mph ≡ none
      → w.suspect_pair ≡ false
      → Known (IsWithin group_char 48) w.raw
      → IsKept (with_values o w)
  unfolding with_values
  with_values-IsKept none w k a b c d plain = record {
    plain = plain;
    documented = rw a tt;
    distance_known = rw (a, b) refl;
    limit_known = rw (a, c) refl;
    withheld = λ e. absurd (cc (e, d));
  }
  with_values-IsKept (some (kind, distance, limit)) w k a b c d plain = record {
    plain = plain;
    documented = k;
    distance_known = refl;
    limit_known = refl;
    withheld = λ e. absurd (cc (e, d));
  }

  compass-Known : (o : Option Text) → Known (λ d. mem_text d compass_points ≡ true) (compass o)
  unfolding compass
  compass-Known none = tt
  compass-Known (some d) = ground arith

module _ (F : Type 0) ⦃f : Float F⦄ ⦃u : Unicode⦄ where
  no_poi-IsKept :
      (active suspect : Bool) → IsKept (record no_poi { active = active; suspect_pair = suspect })
  no_poi-IsKept active suspect = record {
    plain = tt;
    documented = tt;
    distance_known = refl;
    limit_known = refl;
    withheld = λ e. (refl, refl);
  }

  poi_of_parts-IsKept : (raw : Text) (parts : List Text) → IsKept (poi_of_parts F raw parts)
  unfolding poi_of_parts
  poi_of_parts-IsKept raw parts = elim (Bool-cases (has_pair F parts)) [
    | inl pair ↦ rw pair (no_poi-IsKept true true)
    | inr plain ↦ rw plain (
        with_values-IsKept (poi_values parts) _ (poi_values-kind parts) refl refl refl refl
          (safe_group-Known 48 8 raw))
  ]

  parse_poi_group-IsKept : (o : Option Text) → IsKept (parse_poi_group F o)
  unfolding parse_poi_group
  parse_poi_group-IsKept none = no_poi-IsKept false false
  parse_poi_group-IsKept (some []) = no_poi-IsKept false false
  parse_poi_group-IsKept (some (c ∷ s)) = elim (Bool-cases (text_eq (c ∷ s) (codes "0"))) [
    | inl idle ↦ rw idle (no_poi-IsKept false false)
    | inr active ↦ rw active (poi_of_parts-IsKept (c ∷ s) (map strip (split b',' (c ∷ s))))
  ]

  no_gps-IsHeading :
      (present evaluated suspect : Bool)
      → IsHeading
          (record no_gps { present = present; evaluated = evaluated; suspect_pair = suspect })
  no_gps-IsHeading present evaluated suspect = record {
    point = tt;
    plain = tt;
    withheld = λ e. (refl, refl, refl, refl);
  }

  gps_of_parts-IsHeading : (parts : List Text) → IsHeading (gps_of_parts F parts)
  unfolding gps_of_parts
  gps_of_parts-IsHeading parts = elim (Bool-cases (length parts == 4)) [
    | inr other ↦ rw other (no_gps-IsHeading false false false)
    | inl four ↦
        rw four
          (elim (Bool-cases (
            looks_like_coordinate F (at_field parts 0)
            && looks_like_coordinate F (at_field parts 1))) [
              | inl pair ↦ rw pair (no_gps-IsHeading true false true)
              | inr plain ↦ rw plain (record {
                point = compass-Known (safe_word 2 (at_field parts 0));
                plain = safe_word-Known 4 (at_field parts 3);
                withheld = λ e. absurd (cc e);
              })
            ])
  ]

  parse_gps_group-IsHeading : (o : Option Text) → IsHeading (parse_gps_group F o)
  unfolding parse_gps_group
  parse_gps_group-IsHeading none = no_gps-IsHeading false true false
  parse_gps_group-IsHeading (some []) = no_gps-IsHeading false true false
  parse_gps_group-IsHeading (some (c ∷ s)) = elim (Bool-cases (text_eq (c ∷ s) (codes "0"))) [
    | inl idle ↦ rw idle (no_gps-IsHeading false true false)
    | inr active ↦ rw active (gps_of_parts-IsHeading (split b',' (c ∷ s)))
  ]

  -- Whatever bytes arrive, the warning and the heading of a telemetry packet may be kept (a group
  -- that set off the coordinate tripwire leaves no text, no number and no kind), and the four
  -- unnamed fields are plain words of at most 16, 16, 4 and 4 characters.
  pub parse_telemetry-IsKept :
      (payload : Payload)
      → IsKept (parse_telemetry F payload).poi
        × IsHeading (parse_telemetry F payload).gps
        × Known (IsWithin word_char 16) (parse_telemetry F payload).field_3_raw
        × Known (IsWithin word_char 16) (parse_telemetry F payload).field_4_raw
        × Known (IsWithin word_char 4) (parse_telemetry F payload).field_5_raw
        × Known (IsWithin word_char 4) (parse_telemetry F payload).field_6_raw
  unfolding parse_telemetry telemetry_of read_fields
  parse_telemetry-IsKept payload =
      let fields = split b'&' (text_of payload) in
      elim (Bool-cases (ltb (length fields) 7)) [
        | inl few ↦
            rw few (no_poi-IsKept false false, no_gps-IsHeading false false false, tt, tt, tt, tt)
        | inr enough ↦ rw enough (
          parse_poi_group-IsKept (at_field fields 1),
          parse_gps_group-IsHeading (at_field fields 2),
          safe_word-Known 16 (at_field fields 3),
          safe_word-Known 16 (at_field fields 4),
          safe_word-Known 4 (at_field fields 5),
          safe_word-Known 4 (at_field fields 6),
        )
      ]
