-- ===== src/Telemetry/Packet.antt =====
-- `DetectorGps`, `PoiWarning`, `Telemetry` and their parsers, of src/uniden_r8/telemetry.py. The
-- text that names a shape (`short-3`) is a constructor with the number of fields.
pub mod Tripwire
pub mod Suspect
pub mod Confirmed
use unidenr8_bluetooth.Prelude.{
  ℕ, suc, ◌+◌, ◌≡◌, Bool, true, false, not, ◌&&◌, ◌||◌, Option, none, some, List, [], ◌∷◌, map, ltb,
  leb, ◌==◌, if◌then◌else◌, length, is_some,
}
use unidenr8_bluetooth.Prelude.Int.{ℤ, pos, negsuc}
use unidenr8_bluetooth.Runtime.Text.{Text, codes, text_eq, mem_text, contains, split}
use unidenr8_bluetooth.Runtime.Float.{Float}
use unidenr8_bluetooth.Runtime.Unicode.{Unicode, strip, all_chars, int_of_text}
use unidenr8_bluetooth.Telemetry.Tables.{compass_points, poi_kinds}
use unidenr8_bluetooth.Telemetry.Alert.{option_eq}
use unidenr8_bluetooth.Telemetry.Fields.{
  Payload, text_of, at_field, int_field, float_field, safe_word, safe_group,
}

pub record DetectorGps : Type 0 where
  pub direction_8 : Option Text
  pub speed_raw : Option ℤ
  pub altitude_raw : Option ℤ
  pub status_raw : Option Text
  pub present : Bool
  pub evaluated : Bool
  pub suspect_pair : Bool

pub record PoiWarning : Type 0 where
  pub active : Bool
  pub raw : Option Text
  pub suspect_pair : Bool
  pub kind : Option Text
  pub distance_ft : Option ℤ
  pub speed_limit_mph : Option ℤ

pub data Shape : Type 0 where
  shape_confirmed shape_unreadable : Shape
  short extended : ℕ → Shape

pub record Telemetry (F : Type 0) : Type 0 where
  pub voltage : Option F
  pub gps : DetectorGps
  pub poi : PoiWarning
  pub field_3_raw : Option Text
  pub field_4_raw : Option Text
  pub field_5_raw : Option Text
  pub field_6_raw : Option Text
  pub field_count : ℕ
  pub shape : Shape
  pub parsed : Bool

-- the defaults of the three classes
abbrev pub no_gps : DetectorGps
no_gps = record {
  direction_8 = none;
  speed_raw = none;
  altitude_raw = none;
  status_raw = none;
  present = false;
  evaluated = false;
  suspect_pair = false;
}

abbrev pub no_poi : PoiWarning
no_poi = record {
  active = false;
  raw = none;
  suspect_pair = false;
  kind = none;
  distance_ft = none;
  speed_limit_mph = none;
}

abbrev pub no_telemetry : {F : Type 0} → ℕ → Shape → Telemetry F
no_telemetry count shape = record {
  voltage = none;
  gps = no_gps;
  poi = no_poi;
  field_3_raw = none;
  field_4_raw = none;
  field_5_raw = none;
  field_6_raw = none;
  field_count = count;
  shape = shape;
  parsed = false;
}

-- `DetectorGps.locked`
unfoldable pub locked : DetectorGps → Option Bool
locked g =
    if not g.evaluated
    then none
    else if not g.present
    then some false
    else if option_eq text_eq g.status_raw (some (codes "C"))
    then some true
    else if option_eq text_eq g.status_raw (some (codes "D"))
    then some false
    else none

-- `PoiWarning.decoded`
unfoldable pub decoded : PoiWarning → Bool
decoded p = is_some p.kind

-- the grade of a number of fields
shape_of : ℕ → Shape
shape_of count =
    if ltb count 7
    then (if leb count 1 then shape_unreadable else short count)
    else if count == 7
    then shape_confirmed
    else extended count

module _ (F : Type 0) ⦃f : Float F⦄ where
  unfoldable pub in_range : Option F → Bool
  in_range none = false
  in_range (some n) =
      not (f.lt n (f.ratio (negsuc 179) (pos 1)))
      && not (f.lt (f.ratio (pos 180) (pos 1)) n)
      && not (f.is_integral n)

  -- `_looks_like_coordinate`
  unfoldable pub looks_like_coordinate : Option Text → Bool
  unfolding in_range
  looks_like_coordinate none = false
  looks_like_coordinate (some value) = contains b'.' value && in_range (f.of_text value)

  -- some two neighbours both look like a coordinate
  unfoldable pub has_pair : List Text → Bool
  has_pair [] = false
  has_pair (left ∷ []) = false
  has_pair (left ∷ right ∷ parts) =
      looks_like_coordinate (some left) && looks_like_coordinate (some right)
      || has_pair (right ∷ parts)

module _ ⦃u : Unicode⦄ where
  -- `_non_negative_int`
  unfoldable pub non_negative_int : Text → Option ℤ
  non_negative_int value = if all_chars u.is_digit value then int_of_text value else none

  compass : Option Text → Option Text
  compass none = none
  compass (some d) = if mem_text d compass_points then some d else none

  -- the three-part form; `none` leaves the warning as it is
  unfoldable pub poi_values : List Text → Option (Text × ℤ × ℤ)
  poi_values (kind ∷ distance ∷ limit ∷ []) =
      if mem_text kind poi_kinds
      then both (non_negative_int distance) (non_negative_int limit)
      else none
    where
      both : Option ℤ → Option ℤ → Option (Text × ℤ × ℤ)
      both (some d) (some l) = some (kind, d, l)
      both _ _ = none
  poi_values _ = none

  with_values : Option (Text × ℤ × ℤ) → PoiWarning → PoiWarning
  with_values none w = w
  with_values (some (kind, distance, limit)) w = record w {
    kind = some kind;
    distance_ft = some distance;
    speed_limit_mph = some limit;
  }

module _ (F : Type 0) ⦃f : Float F⦄ ⦃u : Unicode⦄ where
  -- `_parse_gps_group`, of a group that is neither empty nor `0`
  unfoldable pub gps_of_parts : List Text → DetectorGps
  unfolding compass
  gps_of_parts parts =
      if not (length parts == 4)
      then no_gps
      else if looks_like_coordinate F (at_field parts 0)
          && looks_like_coordinate F (at_field parts 1)
      then record no_gps { present = true; suspect_pair = true }
      else record {
        direction_8 = compass (safe_word 2 (at_field parts 0));
        speed_raw = int_field (at_field parts 1);
        altitude_raw = int_field (at_field parts 2);
        status_raw = safe_word 4 (at_field parts 3);
        present = true;
        evaluated = true;
        suspect_pair = false;
      }

  unfoldable pub parse_gps_group : Option Text → DetectorGps
  parse_gps_group none = record no_gps { evaluated = true }
  parse_gps_group (some []) = record no_gps { evaluated = true }
  parse_gps_group (some (c ∷ s)) =
      let raw = c ∷ s in
      if text_eq raw (codes "0")
      then record no_gps { evaluated = true }
      else gps_of_parts (split b',' raw)

  unfoldable pub poi_of_parts : Text → List Text → PoiWarning
  unfolding with_values
  poi_of_parts raw parts =
      if has_pair F parts
      then record no_poi { active = true; suspect_pair = true }
      else with_values (poi_values parts)
          (record no_poi { active = true; raw = safe_group 48 8 (some raw) })

  -- `_parse_poi_group`
  unfoldable pub parse_poi_group : Option Text → PoiWarning
  parse_poi_group none = no_poi
  parse_poi_group (some []) = no_poi
  parse_poi_group (some (c ∷ s)) =
      let raw = c ∷ s in
      if text_eq raw (codes "0") then no_poi else poi_of_parts raw (map strip (split b',' raw))

  read_fields : List Text → Telemetry F
  unfolding shape_of
  read_fields fields =
      let voltage : Option F = float_field (at_field fields 0) in
      record {
        voltage = voltage;
        gps = parse_gps_group (at_field fields 2);
        poi = parse_poi_group (at_field fields 1);
        field_3_raw = safe_word 16 (at_field fields 3);
        field_4_raw = safe_word 16 (at_field fields 4);
        field_5_raw = safe_word 4 (at_field fields 5);
        field_6_raw = safe_word 4 (at_field fields 6);
        field_count = length fields;
        shape = shape_of (length fields);
        parsed = is_some voltage && length fields == 7;
      }

  -- `parse_telemetry`, of the fields
  unfoldable pub telemetry_of : List Text → Telemetry F
  unfolding shape_of read_fields
  telemetry_of fields =
      if ltb (length fields) 7
      then no_telemetry (length fields) (shape_of (length fields))
      else read_fields fields

  -- `parse_telemetry`
  unfoldable pub parse_telemetry : Payload → Telemetry F
  parse_telemetry payload = telemetry_of (split b'&' (text_of payload))
