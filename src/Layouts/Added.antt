-- ===== src/Layouts/Added.antt =====
-- `diff_payloads` of src/uniden_r8/poi_diff.py: when it raises, and what it says was added was.
use unidenr8_bluetooth.Prelude.{
  ◌⊎◌, none, is_some, ℕ, ◌≡◌, false, Option, some, List, ◌∷◌, length, take, drop, All,
}
use unidenr8_bluetooth.Runtime.Float.{Float}
use unidenr8_bluetooth.Runtime.Text.{mem_text}
use unidenr8_bluetooth.Layouts.{Table, find_candidate, candidate_layouts}
use unidenr8_bluetooth.Layouts.Exact.{IsTiled}
use unidenr8_bluetooth.Layouts.Point.{Geometry, haversine_metres, decode_point}
use unidenr8_bluetooth.Layouts.Measured.{Fails}
use unidenr8_bluetooth.Layouts.Judged.{Judged}
use unidenr8_bluetooth.Layouts.Diff.{RecordCandidate, PoiDiff, layout_table, walk}

-- a record of the later payload under a layout that is exact for it, whose bytes are no record of
-- the earlier payload under that layout
abbrev pub IsNew : List ℕ → List ℕ → Table → ℕ → List ℕ → Type 0
IsNew before after table offset bytes =
    IsTiled table after
    × (take (length bytes) (drop offset after) ≡ bytes)
    × (mem_text bytes (walk before table) ≡ false)

module _ {F : Type 0} ⦃f : Float F⦄ ⦃g : Geometry F⦄ where
  -- the distance of a point from the reference, where both are known
  abbrev pub IsDistance : Option (F × F) → Option (F × F) → Option F → Type 0
  IsDistance (some (lat_a, lon_a)) (some (lat_b, lon_b)) (some distance) =
      haversine_metres lat_a lon_a lat_b lon_b ≡ some distance
  IsDistance (some point) (some reference) none = ⊥
  IsDistance (some point) none distance = distance ≡ none
  IsDistance none reference distance = distance ≡ none

  -- an entry tells of such a record: its layout, offset, kind and length, whether it decodes, and how
  -- far it is from the reference
  abbrev pub Added : Option (F × F) → List ℕ → List ℕ → RecordCandidate F → Type 0
  Added reference before after e =
      (table : Table) × (body : List ℕ) × (layout_table e.layout candidate_layouts ≡ some table)
      × IsNew before after table e.offset (e.type_byte ∷ body)
      × (find_candidate e.type_byte table ≡ some (e.kind, e.record_length))
      × (length (e.type_byte ∷ body) ≡ e.record_length)
      × (e.decodes ≡ is_some (decode_point {F = F} (e.type_byte ∷ body)))
      × IsDistance (decode_point (e.type_byte ∷ body)) reference e.metres_from_reference

  -- such a record decodes to a point that has no distance from the reference
  abbrev pub IsUnmeasured : Option (F × F) → List ℕ → List ℕ → Type 0
  IsUnmeasured reference before after =
      (table : Table) × (offset : ℕ) × (bytes : List ℕ) × (lat_a : F) × (lon_a : F) × (lat_b : F)
      × (lon_b : F) × IsNew before after table offset bytes
      × ((decode_point bytes ≡ some (lat_a, lon_a))
          × (reference ≡ some (lat_b, lon_b))
          × (haversine_metres lat_a lon_a lat_b lon_b ≡ none)
          × ((x : F) × Fails x))

module _ {F : Type 0} ⦃f : Float F⦄ ⦃g : Geometry F⦄ (reference : Option (F × F))
    (before after : List ℕ) where
  -- a result of which the value has a property, or a ValueError for the one reason
  abbrev Results : {A : Type 0} → (A → Type 0) → Option A → Type 0
  Results {A} P o =
      ((x : A) × (o ≡ some x) × P x) ⊎ ((o ≡ none) × IsUnmeasured reference before after)

  -- a comparison with such records
  abbrev Tells : PoiDiff F → Type 0
  Tells d = All (Added reference before after) d.records_added
