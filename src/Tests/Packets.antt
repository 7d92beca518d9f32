-- ===== src/Tests/Packets.antt =====
-- Runs of the parsers.
use unidenr8_bluetooth.Prelude.{
  ◌≡◌, ◌≢◌, ◌↔◌, ◌<◌, refl, true, false, ◌&&◌, ◌==◌, some, [], map, arith, length, is_some, All,
  ◌≤◌, ap,
}
use unidenr8_bluetooth.Prelude.Int.{ℤ, pos}
use unidenr8_bluetooth.Runtime.Text.{
  Text, codes, text_eq, mem_text, contains, strip_by, split, join,
}
use unidenr8_bluetooth.Runtime.Unicode.{ascii, strip, int_of_text}
use unidenr8_bluetooth.Telemetry.Alert.{Alert}
use unidenr8_bluetooth.Telemetry.Fields.{
  Payload, bytes, str, text_of, at_field, int_field, non_empty, safe_word, safe_group,
  safe_pieces_of, safe_pieces, safe_piece, safe_candidate, joined,
}
use unidenr8_bluetooth.Telemetry.Fields.Safe.{word_char, group_char, IsWithin, safe_group-IsWithin}
use unidenr8_bluetooth.Telemetry.Snapshot.{alerts, normalised, parse_slot, parse_alert_snapshot}
use unidenr8_bluetooth.Telemetry.Snapshot.Gate.{parse_slot-accepts}
use unidenr8_bluetooth.Telemetry.Snapshot.Public.{Known, IsPublic}
use unidenr8_bluetooth.Telemetry.Snapshot.Order.{
  Mirrors, unreadable_count, parse_alert_snapshot-Mirrors, parse_alert_snapshot-IsPublic,
}
use unidenr8_bluetooth.Telemetry.Packet.{
  has_pair, looks_like_coordinate, parse_poi_group, parse_gps_group, parse_telemetry, no_telemetry,
}
use unidenr8_bluetooth.Telemetry.Packet.Tripwire.{IsKept, IsHeading, parse_telemetry-IsKept}
use unidenr8_bluetooth.Telemetry.Packet.Suspect.{HasPlace, StartsWithPlace, parse_group-tripwire}
use unidenr8_bluetooth.Telemetry.Packet.Confirmed.{Graded, parse_telemetry-Graded}
use unidenr8_bluetooth.Tests.Fixed.{fixed}
use unidenr8_bluetooth.Telemetry.Tables.{bands}

-- a K alert with an unknown direction, an empty slot, and one that cannot be read
abbrev k_slot : Text
k_slot = codes "1,00, k,3,120,24.150,Q,1"

abbrev packet : Payload
packet = str (codes "1,00, k,3,120,24.150,Q,1&0&1,00,K,9,1,24.1,F,1")

packet_size : length (text_of packet) ≡ 46
unfolding text_of strip strip_by ascii
packet_size = refl

packet_filled : text_of packet ≢ []
packet_filled e = absurd (omega (arith, packet_size, ap length e))

parse_alert_snapshot-Mirrors_example :
    Mirrors 0 (split b'&' (text_of packet)) (parse_alert_snapshot {F = ℤ} packet).slots
    × ((parse_alert_snapshot {F = ℤ} packet).rejected_slots
        ≡ unreadable_count (parse_alert_snapshot {F = ℤ} packet).slots)
    × ((parse_alert_snapshot {F = ℤ} packet).recognised
        ≡ unreadable_count (parse_alert_snapshot {F = ℤ} packet).slots == 0)
parse_alert_snapshot-Mirrors_example = parse_alert_snapshot-Mirrors ℤ packet packet_filled

parse_alert_snapshot-IsPublic_example :
    All IsPublic (alerts (parse_alert_snapshot {F = ℤ} packet))
    × (text_of packet ≡ []
        → ((parse_alert_snapshot {F = ℤ} packet).slots ≡ [])
          × ((parse_alert_snapshot {F = ℤ} packet).recognised ≡ false))
parse_alert_snapshot-IsPublic_example = parse_alert_snapshot-IsPublic ℤ packet

k_marker : at_field (split b',' k_slot) 0 ≡ some (codes "1")
unfolding at_field split strip ascii non_empty strip_by
k_marker = refl

k_strength : int_field (at_field (split b',' k_slot) 3) ≡ some (pos 3)
unfolding at_field split strip ascii int_field non_empty strip_by int_of_text
k_strength = refl

k_band : mem_text (normalised (at_field (split b',' k_slot) 2)) bands ≡ true
unfolding at_field split strip ascii mem_text normalised text_eq non_empty strip_by
k_band = refl

k_fields : length (split b',' k_slot) ≡ 8
unfolding split
k_fields = refl

parse_slot-accepts_example :
    (a : Alert ℤ) × (parse_slot k_slot 4 ≡ some a)
    × (a.band ≡ normalised (at_field (split b',' k_slot) 2))
    × (a.strength ≡ some (pos 3))
    × (a.slot ≡ 4)
    × (a.band_recognised ≡ true)
parse_slot-accepts_example =
    parse_slot-accepts k_slot 4 (pos 3) (omega (arith, k_fields)) k_marker k_strength (omega arith)
      (omega arith) k_band

abbrev camera : Text
camera = codes "SPEEDCAM, 500,35"

camera_group : safe_group 48 8 (some camera) ≡ some (codes "SPEEDCAM,500,35")
unfolding safe_group strip ascii strip_by safe_pieces_of split safe_pieces safe_piece safe_word
    safe_candidate joined join
camera_group = refl

safe_group-IsWithin_example :
    IsWithin group_char 48 (codes "SPEEDCAM,500,35")
    × (length (split b',' (codes "SPEEDCAM,500,35")) ≤ 8)
    × (length (split b',' (codes "SPEEDCAM,500,35")) ≡ length (split b',' (strip camera)))
safe_group-IsWithin_example = safe_group-IsWithin 48 8 camera (codes "SPEEDCAM,500,35") camera_group

abbrev telemetry : Payload
telemetry = bytes (codes "13.2&SPEEDCAM,500,35&N,35,700,C&A&12&1&2")

parse_telemetry-IsKept_example :
    IsKept (parse_telemetry ℤ telemetry).poi
    × IsHeading (parse_telemetry ℤ telemetry).gps
    × Known (IsWithin word_char 16) (parse_telemetry ℤ telemetry).field_3_raw
    × Known (IsWithin word_char 16) (parse_telemetry ℤ telemetry).field_4_raw
    × Known (IsWithin word_char 4) (parse_telemetry ℤ telemetry).field_5_raw
    × Known (IsWithin word_char 4) (parse_telemetry ℤ telemetry).field_6_raw
parse_telemetry-IsKept_example = parse_telemetry-IsKept ℤ telemetry

parse_telemetry-Graded_example :
    ((parse_telemetry ℤ telemetry).field_count ≡ length (split b'&' (text_of telemetry)))
    × Graded (parse_telemetry ℤ telemetry).field_count (parse_telemetry ℤ telemetry).shape
    × ((parse_telemetry ℤ telemetry).field_count < 7
        → parse_telemetry ℤ telemetry
          ≡ no_telemetry
              (parse_telemetry ℤ telemetry).field_count
              (parse_telemetry ℤ telemetry).shape)
    × Known (λ (x : ℤ). fixed.is_finite x ≡ true) (parse_telemetry ℤ telemetry).voltage
    × ((parse_telemetry ℤ telemetry).parsed
        ≡ is_some (parse_telemetry ℤ telemetry).voltage
          && (parse_telemetry ℤ telemetry).field_count == 7)
parse_telemetry-Graded_example = parse_telemetry-Graded ℤ telemetry

-- the position of a camera, in place of its distance and limit
abbrev position : Text
position = codes "SPEEDCAM,47.61,122.33"

position_active : position ≢ codes "0"
position_active e = absurd (cc e)

position_filled : position ≢ []
position_filled e = absurd (cc e)

parse_group-tripwire_example :
    ((parse_poi_group ℤ (some position)).active ≡ true)
    × (((parse_poi_group ℤ (some position)).suspect_pair ≡ true)
        ↔ HasPlace ℤ (map strip (split b',' position)))
    × (((parse_gps_group ℤ (some position)).suspect_pair ≡ true)
        ↔ StartsWithPlace ℤ (split b',' position))
parse_group-tripwire_example = parse_group-tripwire ℤ position position_active position_filled

position_suspect : has_pair ℤ (map strip (split b',' position)) ≡ true
unfolding has_pair strip split ascii strip_by looks_like_coordinate contains
position_suspect = refl
