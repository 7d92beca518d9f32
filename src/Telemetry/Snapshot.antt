-- ===== src/Telemetry/Snapshot.antt =====
-- `Slot`, `AlertSnapshot`, `_parse_slot`, `_describe_unreadable` and `parse_alert_snapshot` of
-- src/uniden_r8/telemetry.py.
pub mod Gate
pub mod Public
pub mod Order
use unidenr8_bluetooth.Prelude.{
  ℕ, zero, suc, ◌+◌, ◌/◌, ◌%◌, ◌≡◌, Bool, true, false, not, ◌&&◌, ◌||◌, Option, none, some, List,
  [], ◌∷◌, ◌++◌, ltb, leb, ◌==◌, if◌then◌else◌, length, any_of,
}
use unidenr8_bluetooth.Prelude.Int.{ℤ, pos, leb_ℤ}
use unidenr8_bluetooth.Runtime.Text.{Text, codes, text_eq, mem_text, contains, split, join}
use unidenr8_bluetooth.Runtime.Float.{Float}
use unidenr8_bluetooth.Runtime.Unicode.{Unicode, strip}
use unidenr8_bluetooth.Telemetry.Tables.{
  lookup, directions, bands, gun_id_bands, no_frequency_bands, mute_states, or_text,
}
use unidenr8_bluetooth.Telemetry.Alert.{Alert, option_eq}
use unidenr8_bluetooth.Telemetry.Fields.{
  Payload, text_of, at_field, int_field, float_field, safe_word, safe_group,
}
use unidenr8_bluetooth.Prelude.{is_some}

-- `SLOT_ACTIVE`, `SLOT_EMPTY` and `SLOT_UNREADABLE`
pub data SlotState : Type 0 where
  slot_active slot_empty slot_unreadable : SlotState

pub record Slot (F : Type 0) : Type 0 where
  pub index : ℕ
  pub state : SlotState
  pub alert : Option (Alert F)
  pub raw : Option Text

pub record AlertSnapshot (F : Type 0) : Type 0 where
  pub slots : List (Slot F)
  pub recognised : Bool
  pub rejected_slots : ℕ
  pub unknown_mute_codes : ℕ

-- the decimal digits of a number; the number itself is fuel enough
digits : ℕ → ℕ → Text → Text
digits zero n rest = rest
digits (suc fuel) n rest =
    let d = n % 10 + b'0' in
    let more = digits fuel (n / 10) (d ∷ rest) in if ltb n 10 then d ∷ rest else more

-- `str(n)`
number_text : ℕ → Text
unfolding digits
number_text n = digits (n + 1) n []

when_text : Bool → Text → List Text
when_text true t = t ∷ []
when_text false t = []

-- `", ".join(texts)`
comma_separated : List Text → Text
comma_separated [] = []
comma_separated (t ∷ []) = t
comma_separated (t ∷ s ∷ ts) = t ++ codes ", " ++ comma_separated (s ∷ ts)

detail : List Text → Text
unfolding comma_separated
detail [] = codes "unexpected characters"
detail (t ∷ ts) = comma_separated (t ∷ ts)

-- the characters `<>&"'{}\`
abbrev markup : Text
markup = b'<' ∷ b'>' ∷ b'&' ∷ b'"' ∷ 39 ∷ b'{' ∷ b'}' ∷ 92 ∷ []

-- what one alert adds to `unknown_mute_codes`
unknown_mute : Option Text → ℕ
unknown_mute none = 1
unknown_mute (some code) = if is_some (lookup code mute_states) then 0 else 1

module _ {F : Type 0} where
  some_alert : Option (Alert F) → List (Alert F)
  some_alert none = []
  some_alert (some a) = a ∷ []

  alerts_of : List (Slot F) → List (Alert F)
  unfolding some_alert
  alerts_of [] = []
  alerts_of (s ∷ slots) = some_alert s.alert ++ alerts_of slots

  -- `AlertSnapshot.alerts`
  unfoldable pub alerts : AlertSnapshot F → List (Alert F)
  unfolding alerts_of
  alerts snapshot = alerts_of snapshot.slots

  -- `AlertSnapshot.uncertain`
  unfoldable pub uncertain : AlertSnapshot F → Bool
  uncertain snapshot = not snapshot.recognised

module _ ⦃u : Unicode⦄ where
  classes : Text → List Text
  unfolding when_text
  classes segment =
      when_text (any_of u.is_space segment) (codes "whitespace")
      ++ when_text (any_of (λ c. not (u.is_printable c)) segment) (codes "control")
      ++ when_text (any_of (λ c. contains c markup) segment) (codes "markup")
      ++ when_text (ltb 80 (length segment)) (codes "over-length")

  described : Option Text → Text → Option Text
  unfolding detail number_text
  described (some safe) segment = some safe
  described none segment = some (
      codes "<"
      ++ number_text (length (split b',' segment))
      ++ codes " fields, not printable: "
      ++ detail (classes segment)
      ++ codes ">")

  -- `_describe_unreadable`
  unfoldable pub describe_unreadable : Text → Option Text
  unfolding described classes
  describe_unreadable segment = described (safe_group 80 12 (some segment)) segment

  -- the band or the direction of a slot, normalised
  unfoldable pub normalised : Option Text → Text
  normalised value = u.upper (strip (or_text value []))

  strength_in_range : Option ℤ → Bool
  strength_in_range none = false
  strength_in_range (some n) = leb_ℤ (pos 1) n && leb_ℤ n (pos 8)

  -- the structural gate of `_parse_slot`
  unfoldable pub passes_gate : List Text → Bool
  unfolding strength_in_range
  passes_gate fields =
      not (ltb (length fields) 8)
      && (option_eq text_eq (at_field fields 0) (some (codes "1"))
          && strength_in_range (int_field (at_field fields 3)))

  -- the band as it is published: known, or sanitised
  unfoldable pub published_band : Text → Option Text
  published_band band = if mem_text band bands then some band else safe_word 16 (some band)

module _ {F : Type 0} ⦃f : Float F⦄ ⦃u : Unicode⦄ where
  -- field 5, read by the band
  unfoldable pub frequency_of : Text → Option Text → Option F
  frequency_of band info =
      if not (mem_text band bands)
      then none
      else if mem_text band gun_id_bands
      then none
      else if mem_text band no_frequency_bands
      then none
      else float_field info

module _ ⦃u : Unicode⦄ where
  unfoldable pub gun_id_of : Text → Option Text → Option ℤ
  gun_id_of band info =
      if not (mem_text band bands)
      then none
      else if mem_text band gun_id_bands
      then int_field info
      else none

module _ {F : Type 0} ⦃f : Float F⦄ ⦃u : Unicode⦄ where
  -- the alert of a slot that passed the gate, of the band as sent and as published
  unfoldable pub slot_alert : List Text → ℕ → Text → Option Text → Option (Alert F)
  slot_alert fields slot band none = none
  slot_alert fields slot band (some shown) =
      let direction = normalised (at_field fields 6) in
      some (record {
        band = shown;
        strength = int_field (at_field fields 3);
        signal = int_field (at_field fields 4);
        frequency_ghz = frequency_of band (at_field fields 5);
        direction = if is_some (lookup direction directions) then some direction else none;
        mute_code = safe_word 4 (at_field fields 7);
        parsed = true;
        alert_id_raw = safe_word 8 (at_field fields 1);
        laser_gun_id = gun_id_of band (at_field fields 5);
        field_5_raw = safe_word 12 (at_field fields 5);
        receive_mode_raw = safe_word 8 (at_field fields 8);
        slot = slot;
        field_count = length fields;
        band_recognised = mem_text band bands;
        direction_raw = safe_word 4 (some direction);
      })

  -- `_parse_slot`
  unfoldable pub parse_slot : Text → ℕ → Option (Alert F)
  unfolding passes_gate published_band slot_alert
  parse_slot segment slot =
      let fields = split b',' segment in
      let band = normalised (at_field fields 2) in
      if passes_gate fields then slot_alert fields slot band (published_band band) else none

  -- a slot's reading, by what the parser returned
  unfoldable pub read_slot : ℕ → Text → Option (Alert F) → Slot F
  unfolding describe_unreadable
  read_slot index segment none = record {
    index = index;
    state = slot_unreadable;
    alert = none;
    raw = describe_unreadable segment;
  }
  read_slot index segment (some a) = record {
    index = index;
    state = slot_active;
    alert = some a;
    raw = none;
  }

  -- one round of the loop, by what the parser returned
  unfoldable pub enter_slot : ℕ → Text → Option (Alert F) → AlertSnapshot F → AlertSnapshot F
  unfolding read_slot unknown_mute
  enter_slot index segment none s = record s {
    slots = s.slots ++ (read_slot index segment none ∷ []);
    recognised = false;
    rejected_slots = s.rejected_slots + 1;
  }
  enter_slot index segment (some a) s = record s {
    slots = s.slots ++ (read_slot index segment (some a) ∷ []);
    unknown_mute_codes = s.unknown_mute_codes + unknown_mute a.mute_code;
  }

  unfoldable pub enter_segment : ℕ → Text → AlertSnapshot F → AlertSnapshot F
  unfolding enter_slot
  enter_segment index raw_segment s =
      let segment = strip raw_segment in
      let empty : Slot F = record { index = index; state = slot_empty; alert = none; raw = none } in
      if text_eq segment (codes "0")
      then record s { slots = s.slots ++ (empty ∷ []) }
      else enter_slot index segment (parse_slot segment index) s

  -- the loop, from an index on
  unfoldable pub enter_segments : ℕ → List Text → AlertSnapshot F → AlertSnapshot F
  unfolding enter_segment
  enter_segments index [] s = s
  enter_segments index (segment ∷ segments) s =
      enter_segments (index + 1) segments (enter_segment index segment s)

  snapshot_of : Text → AlertSnapshot F
  unfolding enter_segments
  snapshot_of [] = record {
    slots = [];
    recognised = false;
    rejected_slots = 0;
    unknown_mute_codes = 0;
  }
  snapshot_of (c ∷ text) =
      enter_segments 0 (split b'&' (c ∷ text))
        (record { slots = []; recognised = true; rejected_slots = 0; unknown_mute_codes = 0 })

  -- `parse_alert_snapshot`
  unfoldable pub parse_alert_snapshot : Payload → AlertSnapshot F
  unfolding snapshot_of
  parse_alert_snapshot payload = snapshot_of (text_of payload)
