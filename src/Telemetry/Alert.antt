-- ===== src/Telemetry/Alert.antt =====
-- `Alert` of src/uniden_r8/telemetry.py: the record, its properties, and the schema-1 view.
use unidenr8_bluetooth.Prelude.{
  ℕ, Bool, true, false, ◌&&◌, not, Option, none, some, [], if◌then◌else◌, is_some, get_elem?,
}
use unidenr8_bluetooth.Prelude.Int.{ℤ, pos, negsuc, eqb_ℤ}
use unidenr8_bluetooth.Runtime.Text.{Text, text_eq, mem_text}
use unidenr8_bluetooth.Runtime.Float.{Float, float_eq}
use unidenr8_bluetooth.Telemetry.Tables.{
  lookup, lookup_or, or_text, unknown, directions, mute_states, muted_codes, laser_guns,
}

pub record Alert (F : Type 0) : Type 0 where
  pub band : Text
  pub strength : Option ℤ
  pub signal : Option ℤ
  pub frequency_ghz : Option F
  pub direction : Option Text
  pub mute_code : Option Text
  pub parsed : Bool
  pub alert_id_raw : Option Text
  pub laser_gun_id : Option ℤ
  pub field_5_raw : Option Text
  pub receive_mode_raw : Option Text
  pub slot : ℕ
  pub field_count : ℕ
  pub band_recognised : Bool
  pub direction_raw : Option Text

-- what `publishable()` returns
pub record Published (F : Type 0) : Type 0 where
  pub band : Text
  pub strength : Option ℤ
  pub frequency_ghz : Option F
  pub direction : Text
  pub muted : Option Bool

-- `a == b` of two optional values
abbrev pub option_eq : {A : Type 0} → (A → A → Bool) → Option A → Option A → Bool
option_eq eq none none = true
option_eq eq (some a) (some b) = eq a b
option_eq eq _ _ = false

abbrev pub bool_eq : Bool → Bool → Bool
bool_eq true b = b
bool_eq false b = not b

known_mute : Option Text → Option Bool
known_mute none = none
known_mute (some code) =
    if is_some (lookup code mute_states) then some (mem_text code muted_codes) else none

-- the bounds check, and the index
gun_name : Option ℤ → Option Text
gun_name none = none
gun_name (some (negsuc n)) = none
gun_name (some (pos n)) = get_elem? laser_guns n

module _ {F : Type 0} where
  unfoldable pub direction_name : Alert F → Text
  direction_name a = lookup_or (or_text a.direction []) directions (or_text a.direction unknown)

  unfoldable pub muted : Alert F → Option Bool
  unfolding known_mute
  muted a = known_mute a.mute_code

  unfoldable pub mute_status : Alert F → Text
  mute_status a = lookup_or (or_text a.mute_code []) mute_states unknown

  unfoldable pub laser_gun : Alert F → Option Text
  unfolding gun_name
  laser_gun a = gun_name a.laser_gun_id

  unfoldable pub band_name : Alert F → Text
  band_name a = if a.band_recognised then a.band else unknown

  unfoldable pub publishable : Alert F → Published F
  unfolding band_name direction_name muted
  publishable a = record {
    band = band_name a;
    strength = a.strength;
    frequency_ghz = a.frequency_ghz;
    direction = direction_name a;
    muted = muted a;
  }

module _ {F : Type 0} ⦃f : Float F⦄ where
  -- `==` of two dictionaries that `publishable` returned
  unfoldable pub published_eq : Published F → Published F → Bool
  published_eq p q =
      text_eq p.band q.band
      && option_eq eqb_ℤ p.strength q.strength
      && option_eq float_eq p.frequency_ghz q.frequency_ghz
      && text_eq p.direction q.direction
      && option_eq bool_eq p.muted q.muted
