-- ===== src/Gnss.antt =====
-- `Fix`, the parsing of reports and `GnssClient` of src/uniden_r8/gnss.py, over the streams of
-- lines that the receiver sends. `json.loads` is an argument, `none` its `ValueError`; it is taken
-- to yield no NaN, and `float` of an integer not to overflow. `run` is left out but for its delay,
-- and so are the host, the port and the error's name.
pub mod Sourced
use unidenr8_bluetooth.Prelude.{
  ℕ, ◌+◌, ◌^◌, Bool, true, false, not, Option, none, some, List, [], ◌∷◌, ◌==◌, ltb, if◌then◌else◌,
  length, arith,
}
use unidenr8_bluetooth.Prelude.Int.{ℤ, pos, sub_ℕ, leb_ℤ, eqb_ℤ}
use unidenr8_bluetooth.Runtime.Float.{Float, max_float, min_float}
use unidenr8_bluetooth.Runtime.Text.{Text, codes, text_eq}
use unidenr8_bluetooth.Runtime.Unicode.{Unicode}
use unidenr8_bluetooth.Runtime.Json.{
  Json, int, float, bool, text, array, object, Members, member, end_members, Items, item, end_items,
  get,
}

pub record Fix (F : Type 0) : Type 0 where
  pub mode : ℤ
  pub lat : Option F
  pub lon : Option F
  pub altitude_m : Option F
  pub speed_mps : Option F
  pub track_deg : Option F
  pub climb_mps : Option F
  pub epx_m : Option F
  pub epy_m : Option F
  pub satellites : Option ℤ
  pub device_time : Option Text
  pub monotonic_ns : ℕ
  pub wall_ns : ℕ

-- what `detailed` returns, less what it copies or rounds
pub record Detailed (F : Type 0) : Type 0 where
  pub fix_mode : ℤ
  pub mode_name : Text
  pub is_valid : Bool
  pub speed_mph : Option F
  pub shown_lat : Option F
  pub shown_lon : Option F
  pub coordinates_withheld : Bool

pub record GnssClient (F : Type 0) : Type 0 where
  pub record_coordinates : Bool
  pub stale_after_seconds : F
  pub last_fix : Option (Fix F)
  pub used_satellites : Option ℤ
  pub connected : Bool
  pub connects : ℕ
  pub reports : ℕ
  pub malformed : ℕ

-- a line of the receiver, with the clocks as they read when it is consumed
pub record Line : Type 0 where
  pub raw : List ℕ
  pub mono : ℕ
  pub wall : ℕ

-- `MAX_LINE_BYTES`
abbrev pub max_line_bytes : ℕ
max_line_bytes = 65536

module _ {F : Type 0} where
  -- `valid`
  unfoldable pub valid : Fix F → Bool
  valid fix = leb_ℤ (pos 2) fix.mode

  -- `mode_name`
  unfoldable pub mode_name : Fix F → Text
  mode_name fix =
      if eqb_ℤ fix.mode (pos 1)
      then codes "no fix"
      else if eqb_ℤ fix.mode (pos 2)
      then codes "2D fix"
      else if eqb_ℤ fix.mode (pos 3)
      then codes "3D fix"
      else codes "unknown"

  -- `GnssClient(...)`
  abbrev pub new_client : Bool → F → GnssClient F
  new_client record_coordinates stale_after_seconds = record {
    record_coordinates = record_coordinates;
    stale_after_seconds = stale_after_seconds;
    last_fix = none;
    used_satellites = none;
    connected = false;
    connects = 0;
    reports = 0;
    malformed = 0;
  }

  -- `parse_sky`
  count_used : Items F → ℕ
  count_used end_items = 0
  count_used (item (object members) items) =
      let rest = count_used items in
      elim (get (codes "used") members) [ some (bool true) ↦ rest + 1 | _ ↦ rest ]
  count_used (item _ items) = count_used items

  abbrev listed : Option (Json F) → Option ℤ
  listed (some (array items)) = some (pos (count_used items))
  listed _ = none

  unfoldable pub parse_sky : Members F → Option ℤ
  unfolding count_used
  parse_sky payload = elim (get (codes "uSat") payload) [
    | some (int used) ↦ some used
    | _ ↦ listed (get (codes "satellites") payload)
  ]

  abbrev pub whole_mode : Option (Json F) → ℤ
  whole_mode (some (int mode)) = mode
  whole_mode _ = pos 0

  abbrev text_value : Option (Json F) → Option Text
  text_value (some (text s)) = some s
  text_value _ = none

module _ {F : Type 0} ⦃f : Float F⦄ where
  -- `_number`
  abbrev pub number_value : Option (Json F) → Option F
  number_value (some (int n)) = some (f.ratio n (pos 1))
  number_value (some (float a)) = some a
  number_value _ = none

  unfoldable pub number : List Text → Members F → Option F
  number [] payload = none
  number (name ∷ names) payload = elim (number_value (get name payload)) [
    | some a ↦ some a
    | none ↦ number names payload
  ]

  -- `speed_mph`
  unfoldable pub speed_mph : Fix F → Option F
  speed_mph fix = elim fix.speed_mps [
    | none ↦ none
    | some speed ↦ some (f.mul speed (f.ratio (pos 2_236_936) (pos 1_000_000)))
  ]

  -- `age_seconds`
  unfoldable pub age_seconds : ℕ → Fix F → F
  age_seconds now fix =
      max_float (f.ratio (pos 0) (pos 1))
        (f.div (f.ratio (sub_ℕ now fix.monotonic_ns) (pos 1)) (f.ratio (pos 1_000_000_000) (pos 1)))

  unfoldable pub detailed : Bool → Fix F → Detailed F
  detailed include_coordinates fix = record {
    fix_mode = fix.mode;
    mode_name = mode_name fix;
    is_valid = valid fix;
    speed_mph = speed_mph fix;
    shown_lat = if include_coordinates then fix.lat else none;
    shown_lon = if include_coordinates then fix.lon else none;
    coordinates_withheld = not include_coordinates;
  }

  unfoldable pub parse_tpv : Members F → ℕ → ℕ → Fix F
  parse_tpv payload mono wall = record {
    mode = whole_mode (get (codes "mode") payload);
    lat = number (codes "lat" ∷ []) payload;
    lon = number (codes "lon" ∷ []) payload;
    altitude_m = number (codes "altMSL" ∷ codes "altHAE" ∷ codes "alt" ∷ []) payload;
    speed_mps = number (codes "speed" ∷ []) payload;
    track_deg = number (codes "track" ∷ codes "magtrack" ∷ []) payload;
    climb_mps = number (codes "climb" ∷ []) payload;
    epx_m = number (codes "epx" ∷ []) payload;
    epy_m = number (codes "epy" ∷ []) payload;
    satellites = none;
    device_time = text_value (get (codes "time") payload);
    monotonic_ns = mono;
    wall_ns = wall;
  }

  -- the property `fix`, at a reading of the clock
  abbrev pub fresh : F → ℕ → Fix F → Option (Fix F)
  fresh stale now fix =
      if not (valid fix) then none else if f.lt stale (age_seconds now fix) then none else some fix

  abbrev pub fresh_of : F → ℕ → Option (Fix F) → Option (Fix F)
  fresh_of stale now none = none
  fresh_of stale now (some fix) = fresh stale now fix

  unfoldable pub current_fix : ℕ → GnssClient F → Option (Fix F)
  current_fix now c = fresh_of c.stale_after_seconds now c.last_fix

  -- the `fix` of `status`
  abbrev pub shown : Bool → Option (Fix F) → Option (Detailed F)
  shown record_coordinates none = none
  shown record_coordinates (some fix) = some (detailed record_coordinates fix)

  unfoldable pub status_fix : ℕ → GnssClient F → Option (Detailed F)
  status_fix now c = shown c.record_coordinates (current_fix now c)

  -- the delay of `run` after an attempt, for a draw of `random.random()`
  unfoldable pub delay : ℕ → F → F
  delay attempt draw =
      let steps = if ltb attempt 5 then attempt else 5 in
      let doubled = f.mul (f.ratio (pos 2) (pos 1)) (f.ratio (pos (2 ^ steps)) (pos 1)) in
      f.mul (min_float (f.ratio (pos 60) (pos 1)) doubled)
        (f.add (f.ratio (pos 8) (pos 10)) (f.mul (f.ratio (pos 4) (pos 10)) draw))

  -- the branches of `_consume` on the report's class
  unfoldable pub take_report : Option (Json F) → Members F → Line → GnssClient F → GnssClient F
  take_report (some (text class)) payload line c =
      if text_eq class (codes "TPV")
      then record c {
        reports = c.reports + 1;
        last_fix =
            some
              (record (parse_tpv payload line.mono line.wall) { satellites = c.used_satellites });
      }
      else if text_eq class (codes "SKY")
      then elim (parse_sky payload) [
        | none ↦ c
        | some used ↦ record c { used_satellites = some used }
      ]
      else c
  take_report _ payload line c = c

  unfoldable pub take_payload : Option (Json F) → Line → GnssClient F → GnssClient F
  take_payload (some (object payload)) line c =
      take_report (get (codes "class") payload) payload line c
  take_payload _ line c = record c { malformed = c.malformed + 1 }

module _ {F : Type 0} ⦃f : Float F⦄ ⦃u : Unicode⦄ (loads : Text → Option (Json F)) where
  -- `_consume`
  unfoldable pub consume : Line → GnssClient F → GnssClient F
  consume line c = take_payload (loads (u.decode line.raw)) line c

  -- the loop of `_session`, over the lines up to the stop event; an empty one is the far end's
  unfoldable pub read_lines : List Line → GnssClient F → GnssClient F
  read_lines [] c = c
  read_lines (line ∷ lines) c =
      let consumed = read_lines lines (consume line c) in
      let skipped = read_lines lines (record c { malformed = c.malformed + 1 }) in
      if length line.raw == 0
      then c
      else if ltb max_line_bytes (length line.raw)
      then skipped
      else consumed

  -- `_session`
  unfoldable pub session : List Line → GnssClient F → GnssClient F
  unfolding read_lines
  session lines c =
      record (read_lines lines (record c { connected = true; connects = c.connects + 1 })) {
        connected = false;
      }
