-- ===== src/Tests/Gates.antt =====
-- Runs of the gates, on the Unicode tables restricted to ASCII.
use unidenr8_bluetooth.Prelude.{◌≡◌, ◌↔◌, refl, true, [], ◌∷◌, map, all_of, arith}
use unidenr8_bluetooth.Runtime.Text.{Text, codes, text_eq, mem_text, strip_by}
use unidenr8_bluetooth.Runtime.Unicode.{ascii, ascii_lower, strip}
use unidenr8_bluetooth.Gatt.Catalogue.{
  catalogue, readable_uuids, telemetry_uuid, poi_uuid, identity_read_plan,
}
use unidenr8_bluetooth.Gatt.{
  returned, write_refused, unknown_characteristic, and_then, by_uuid, normalize_uuid, describe,
  assert_not_forbidden, allowed_in, assert_readable, assert_live_readable, assert_inspect_readable,
  narrowed_to,
}
use unidenr8_bluetooth.Gatt.Passed.{KeepsMarks, is_mark}
use unidenr8_bluetooth.Gatt.Gates.{gate, gate-Safe, Safe, live_read, inspect_read, planned}
use unidenr8_bluetooth.Gatt.Plans.{Kinds, assert_readable-Kinds, gate-planned}

-- the telemetry characteristic, as a library may spell it
abbrev loud : Text
loud = codes " 6C290D2E-1C03-ACA1-AB48-A9B908BAE79E "

abbrev loud_command : Text
loud_command = codes "2C86686A-53DC-25B3-0C4A-F0E10C8DEE20"

ascii_kept : (s : Text) → all_of is_mark s ≡ true → map ascii_lower s ≡ s
unfolding ascii_lower
ascii_kept [] h = refl
ascii_kept (c ∷ s) h = ground (arith, ascii_kept s)

pub ascii-KeepsMarks : KeepsMarks
unfolding ascii
ascii-KeepsMarks = record { kept = ascii_kept; no_space = λ c h. ground arith }

loud_read : assert_readable loud ≡ returned telemetry_uuid
unfolding assert_readable allowed_in and_then by_uuid normalize_uuid describe assert_not_forbidden
    text_eq mem_text strip_by ascii strip ascii_lower readable_uuids catalogue
loud_read = refl

loud_live : gate live_read loud ≡ returned telemetry_uuid
unfolding assert_live_readable assert_readable allowed_in narrowed_to and_then by_uuid
    normalize_uuid describe assert_not_forbidden text_eq mem_text strip_by ascii strip ascii_lower
    readable_uuids catalogue
loud_live = refl

command_refused : assert_readable loud_command ≡ write_refused
unfolding assert_readable allowed_in and_then by_uuid normalize_uuid describe assert_not_forbidden
    text_eq mem_text strip_by ascii strip ascii_lower readable_uuids catalogue
command_refused = refl

stranger_unknown : assert_readable (codes "2a00") ≡ unknown_characteristic
unfolding assert_readable allowed_in and_then by_uuid normalize_uuid describe assert_not_forbidden
    text_eq mem_text strip_by ascii strip ascii_lower readable_uuids catalogue
stranger_unknown = refl

gate-Safe_example : Safe live_read loud telemetry_uuid
gate-Safe_example = gate-Safe live_read loud telemetry_uuid loud_live

assert_readable-Kinds_example :
    Kinds
      (assert_live_readable loud)
      (assert_inspect_readable loud)
      (mem_text telemetry_uuid identity_read_plan)
      telemetry_uuid
assert_readable-Kinds_example = assert_readable-Kinds loud telemetry_uuid loud_read

gate-planned_example :
    (gate inspect_read (codes "15005991-B131-3396-014C-664C9867B917") ≡ returned poi_uuid) ↔ (
      (poi_uuid ≡ normalize_uuid (codes "15005991-B131-3396-014C-664C9867B917"))
      × (mem_text poi_uuid (planned inspect_read) ≡ true))
gate-planned_example =
    gate-planned ascii-KeepsMarks inspect_read (codes "15005991-B131-3396-014C-664C9867B917")
      poi_uuid
