-- ===== src/Telemetry/Snapshot/Gate.antt =====
-- The gate of `_parse_slot`.
use unidenr8_bluetooth.Prelude.{ℕ, ◌≤◌, ◌≡◌, refl, true, some, length, arith}
use unidenr8_bluetooth.Prelude.Int.{ℤ, pos, ◌≤ℤ◌}
use unidenr8_bluetooth.Runtime.Text.{Text, codes, text_eq_refl, mem_text, split}
use unidenr8_bluetooth.Runtime.Float.{Float}
use unidenr8_bluetooth.Runtime.Unicode.{Unicode}
use unidenr8_bluetooth.Telemetry.Tables.{bands}
use unidenr8_bluetooth.Telemetry.Alert.{Alert}
use unidenr8_bluetooth.Telemetry.Fields.{at_field, int_field}
use unidenr8_bluetooth.Telemetry.Snapshot.{
  passes_gate, strength_in_range, published_band, slot_alert, parse_slot, normalised,
}

module _ {F : Type 0} ⦃f : Float F⦄ ⦃u : Unicode⦄ where
  -- A slot with at least eight fields, the active marker, a strength of 1 to 8 and a documented
  -- band is always decoded, whatever its other fields hold: to an alert of that band and strength.
  pub parse_slot-accepts :
      (segment : Text) (slot : ℕ) (n : ℤ)
      → 8 ≤ length (split b',' segment)
      → at_field (split b',' segment) 0 ≡ some (codes "1")
      → int_field (at_field (split b',' segment) 3) ≡ some n
      → pos 1 ≤ℤ n
      → n ≤ℤ pos 8
      → mem_text (normalised (at_field (split b',' segment) 2)) bands ≡ true
      → (a : Alert F) × (parse_slot segment slot ≡ some a)
        × (a.band ≡ normalised (at_field (split b',' segment) 2))
        × (a.strength ≡ some n)
        × (a.slot ≡ slot)
        × (a.band_recognised ≡ true)
  unfolding parse_slot passes_gate strength_in_range published_band slot_alert
  parse_slot-accepts segment slot n long marker strength low high known =
      let fields = split b',' segment in
      let gate : passes_gate fields ≡ true =
        rw (marker, strength) (ground (arith, text_eq_refl (codes "1"))) in
      let shown : published_band (normalised (at_field fields 2))
          ≡ some (normalised (at_field fields 2)) =
        rw known refl in
      let accepted : parse_slot {F = F} segment slot
          ≡ slot_alert fields slot (normalised (at_field fields 2))
              (some (normalised (at_field fields 2))) =
        rw (gate, shown, parse_slot) refl in
      (_, accepted, refl, strength, refl, known)
