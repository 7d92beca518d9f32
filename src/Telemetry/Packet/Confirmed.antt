-- ===== src/Telemetry/Packet/Confirmed.antt =====
-- The shape that a telemetry packet is graded with, and what the grade says.
use unidenr8_bluetooth.Prelude.{
  ℕ, ◌≡◌, ◌<◌, ◌≤◌, refl, true, false, ◌&&◌, List, ltb, leb, ◌==◌, if◌then◌else◌, length, is_some,
  arith, Bool-cases, inl, inr, ap,
}
use unidenr8_bluetooth.Runtime.Text.{Text, split}
use unidenr8_bluetooth.Runtime.Float.{Float}
use unidenr8_bluetooth.Runtime.Unicode.{Unicode}
use unidenr8_bluetooth.Telemetry.Fields.{Payload, text_of, at_field}
use unidenr8_bluetooth.Telemetry.Snapshot.Public.{Known, float_field-finite}
use unidenr8_bluetooth.Telemetry.Packet.{
  Shape, shape_confirmed, shape_unreadable, short, extended, shape_of, no_telemetry, telemetry_of,
  read_fields, parse_telemetry,
}

-- what a grade says of the number of fields
abbrev pub Graded : ℕ → Shape → Type 0
Graded count shape_confirmed = count ≡ 7
Graded count shape_unreadable = count ≤ 1
Graded count (short n) = (n ≡ count) × (1 < count) × (count < 7)
Graded count (extended n) = (n ≡ count) × (7 < count)

shape_of-Graded : (count : ℕ) → Graded count (shape_of count)
unfolding shape_of
shape_of-Graded count = elim (Bool-cases (ltb count 7)) [
  | inl few ↦ rw few (elim (Bool-cases (leb count 1)) [
    | inl none_at_all ↦ rw none_at_all (ground arith)
    | inr some_of_them ↦ rw some_of_them (refl, ground arith, ground arith)
  ])
  | inr enough ↦ rw enough (elim (Bool-cases (count == 7)) [
    | inl seven ↦ rw seven (ground arith)
    | inr more ↦ rw more (refl, ground arith)
  ])
]

module _ (F : Type 0) ⦃f : Float F⦄ ⦃u : Unicode⦄ where
  few_fields :
      (fields : List Text)
      → ltb (length fields) 7 ≡ true
      → telemetry_of F fields ≡ no_telemetry (length fields) (shape_of (length fields))
  unfolding telemetry_of
  few_fields fields few =
      ap
        (λ b.
          if b
          then no_telemetry (length fields) (shape_of (length fields))
          else read_fields F fields)
        few

  enough_fields :
      (fields : List Text)
      → ltb (length fields) 7 ≡ false
      → telemetry_of F fields ≡ read_fields F fields
  unfolding telemetry_of
  enough_fields fields enough =
      ap
        (λ b.
          if b
          then no_telemetry (length fields) (shape_of (length fields))
          else read_fields F fields)
        enough

  -- Any payload is parsed, and counted as its fields between `&`s. The grade says how many these
  -- are; with fewer than seven nothing is decoded; the voltage is finite if there is one; and the
  -- packet counts as parsed exactly if there is one and there are seven fields.
  pub parse_telemetry-Graded :
      (payload : Payload)
      → ((parse_telemetry F payload).field_count ≡ length (split b'&' (text_of payload)))
        × Graded (parse_telemetry F payload).field_count (parse_telemetry F payload).shape
        × ((parse_telemetry F payload).field_count < 7
            → parse_telemetry F payload
              ≡ no_telemetry
                  (parse_telemetry F payload).field_count
                  (parse_telemetry F payload).shape)
        × Known (λ (x : F). f.is_finite x ≡ true) (parse_telemetry F payload).voltage
        × ((parse_telemetry F payload).parsed
            ≡ is_some (parse_telemetry F payload).voltage
              && (parse_telemetry F payload).field_count == 7)
  unfolding parse_telemetry read_fields
  parse_telemetry-Graded payload =
      let fields = split b'&' (text_of payload) in
      elim (Bool-cases (ltb (length fields) 7)) [
        | inl few ↦
            rw (few_fields fields few) (refl, shape_of-Graded (length fields), λ h. refl, tt, refl)
        | inr enough ↦ rw (enough_fields fields enough) (
          refl,
          shape_of-Graded (length fields),
          λ h. absurd (ground arith),
          float_field-finite F (at_field fields 0),
          refl,
        )
      ]
