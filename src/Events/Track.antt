-- ===== src/Events/Track.antt =====
-- `AlertKey` and `AlertTrack` of src/uniden_r8/events.py, with `absorb`; `_material_change`. The
-- clocks' readings are natural numbers, and their difference is an integer.
pub mod Aggregates
use unidenr8_bluetooth.Prelude.{
  ℕ, ◌+◌, ◌-◌, ◌≡◌, Bool, true, false, not, ◌&&◌, ◌||◌, Option, none, some, List, [], ◌∷◌, ◌++◌,
  arith, leb, if◌then◌else◌, length, drop,
}
use unidenr8_bluetooth.Prelude.Int.{ℤ, pos, max_ℤ, sub_ℕ, eqb_ℤ}
use unidenr8_bluetooth.Runtime.Text.{Text, text_eq}
use unidenr8_bluetooth.Runtime.Float.{Float, max_float, min_float}
use unidenr8_bluetooth.Runtime.Unicode.{Unicode}
use unidenr8_bluetooth.Telemetry.Alert.{Alert, option_eq, publishable, published_eq}
use unidenr8_bluetooth.Events.Matching.{band_family}

pub record AlertKey : Type 0 where
  pub family : Text
  pub laser_gun_id : Option ℤ

pub record AlertTrack (F : Type 0) : Type 0 where
  pub track_id : ℕ
  pub key : AlertKey
  pub alert : Alert F
  pub first_monotonic_ns : ℕ
  pub first_wall_ns : ℕ
  pub last_monotonic_ns : ℕ
  pub last_wall_ns : ℕ
  pub samples : ℕ
  pub max_strength : Option ℤ
  pub max_raw_signal : Option ℤ
  pub min_frequency_ghz : Option F
  pub max_frequency_ghz : Option F
  pub directions : Text
  pub misses : ℕ
  pub ambiguous : Bool

-- the new extreme of an optional aggregate, from an optional reading
abbrev pub widest : {A : Type 0} → (A → A → A) → Option A → Option A → Option A
widest pick seen none = seen
widest pick none (some b) = some b
widest pick (some a) (some b) = some (pick a b)

-- `text.endswith(suffix)`
ends_with : Text → Text → Bool
ends_with text suffix =
    leb (length suffix) (length text) && text_eq (drop (length text - length suffix) text) suffix

-- the letter of a new direction is added, if it is not the last one
walked : Text → Option Text → Text
walked directions none = directions
walked directions (some []) = directions
walked directions (some (c ∷ d)) =
    if ends_with directions (c ∷ d) then directions else directions ++ (c ∷ d)

or_empty : Option Text → Text
or_empty none = []
or_empty (some d) = d

module _ {F : Type 0} ⦃u : Unicode⦄ where
  unfoldable pub key_of : Alert F → AlertKey
  key_of a = record { family = band_family a.band; laser_gun_id = a.laser_gun_id }

  -- the constructor's call in `_start`, with `__post_init__`
  unfoldable pub new_track : ℕ → Alert F → ℕ → ℕ → AlertTrack F
  unfolding or_empty
  new_track id a mono wall = record {
    track_id = id;
    key = key_of a;
    alert = a;
    first_monotonic_ns = mono;
    first_wall_ns = wall;
    last_monotonic_ns = mono;
    last_wall_ns = wall;
    samples = 1;
    max_strength = a.strength;
    max_raw_signal = a.signal;
    min_frequency_ghz = a.frequency_ghz;
    max_frequency_ghz = a.frequency_ghz;
    directions = or_empty a.direction;
    misses = 0;
    ambiguous = false;
  }

module _ {F : Type 0} where
  -- `_material_change`
  unfoldable pub material_change : Alert F → Alert F → Bool
  material_change before after =
      not (text_eq before.band after.band)
      || not (option_eq text_eq before.direction after.direction)
      || not (option_eq eqb_ℤ before.strength after.strength)
      || not (option_eq text_eq before.mute_code after.mute_code)

module _ {F : Type 0} ⦃f : Float F⦄ where
  -- `duration_s`
  unfoldable pub duration_s : AlertTrack F → F
  duration_s t =
      f.div (f.ratio (sub_ℕ t.last_monotonic_ns t.first_monotonic_ns) (pos 1))
        (f.ratio (pos 1_000_000_000) (pos 1))

  -- `absorb`: whether the published view changed, and the track
  unfoldable pub absorb : Alert F → ℕ → ℕ → AlertTrack F → Bool × AlertTrack F
  unfolding walked ends_with
  absorb a mono wall t = (
    not (published_eq (publishable a) (publishable t.alert)),
    record t {
      alert = a;
      last_monotonic_ns = mono;
      last_wall_ns = wall;
      samples = t.samples + 1;
      max_strength = widest max_ℤ t.max_strength a.strength;
      max_raw_signal = widest max_ℤ t.max_raw_signal a.signal;
      min_frequency_ghz = widest min_float t.min_frequency_ghz a.frequency_ghz;
      max_frequency_ghz = widest max_float t.max_frequency_ghz a.frequency_ghz;
      directions = walked t.directions a.direction;
      misses = 0;
    },
  )
