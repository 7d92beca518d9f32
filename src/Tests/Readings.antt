-- ===== src/Tests/Readings.antt =====
-- Readings of the tests: two K sources, one Ka source, and a laser gun.
use unidenr8_bluetooth.Prelude.{ℕ, ◌+◌, ◌*◌, true, Option, none, some, String}
use unidenr8_bluetooth.Prelude.Int.{ℤ, pos}
use unidenr8_bluetooth.Runtime.Text.{Text, codes}
use unidenr8_bluetooth.Telemetry.Alert.{Alert}
use unidenr8_bluetooth.Events.Track.Aggregates.{Observation}

abbrev pub reading : String → ℕ → Option ℤ → Option Text → Option ℤ → Alert ℤ
reading band strength frequency direction gun = record {
  band = codes band;
  strength = some (pos strength);
  signal = some (pos (strength * 10));
  frequency_ghz = frequency;
  direction = direction;
  mute_code = some (codes "1");
  parsed = true;
  alert_id_raw = none;
  laser_gun_id = gun;
  field_5_raw = none;
  receive_mode_raw = none;
  slot = 0;
  field_count = 8;
  band_recognised = true;
  direction_raw = direction;
}

abbrev pub k_front : Alert ℤ
k_front = reading "K" 3 (some (pos 24_150_000)) (some (codes "F")) none

abbrev pub k_side : Alert ℤ
k_side = reading "K" 4 (some (pos 24_152_000)) (some (codes "S")) none

abbrev pub k_far : Alert ℤ
k_far = reading "K" 1 (some (pos 24_300_000)) (some (codes "R")) none

abbrev pub ka_front : Alert ℤ
ka_front = reading "KA" 6 (some (pos 34_700_000)) (some (codes "F")) none

abbrev pub laser_front : Alert ℤ
laser_front = reading "LASER" 8 none (some (codes "F")) (some (pos 2))

abbrev pub seen_at : ℕ → Alert ℤ → Observation ℤ
seen_at time a = record { alert = a; monotonic_ns = time; wall_ns = time + 1000 }
