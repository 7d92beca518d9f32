-- ===== src/Layouts/Diff.antt =====
-- `diff_payloads` of src/uniden_r8/poi_diff.py. A note is a
-- constructor; an exception is `none`. `summary` and `render` only format.
use unidenr8_bluetooth.Prelude.{
  ℕ, ◌+◌, Bool, not, ◌&&◌, ◌||◌, Option, none, some, List, [], ◌∷◌, ◌++◌, map, String, ltb, ◌==◌,
  if◌then◌else◌, length, take, keep, is_some, str_eq,
}
use unidenr8_bluetooth.Prelude.Int.{ℤ, sub_ℕ}
use unidenr8_bluetooth.Runtime.Text.{text_eq, mem_text}
use unidenr8_bluetooth.Runtime.Float.{Float}
use unidenr8_bluetooth.Layouts.{
  Table, find_candidate, candidate_layouts, Verdict, evaluate_layouts, walk_with_offsets,
}
use unidenr8_bluetooth.Layouts.Point.{Geometry, haversine_metres, decode_point}

pub record RecordCandidate (F : Type 0) : Type 0 where
  pub layout : String
  pub offset : ℕ
  pub type_byte : ℕ
  pub kind : String
  pub record_length : ℕ
  pub decodes : Bool
  pub metres_from_reference : Option F

pub data Note : Type 0 where
  no_clean_append : Note
  no_exact_layout : Note
  several_exact_layouts : Note
  no_new_record : Note

pub record PoiDiff (F : Type 0) : Type 0 where
  pub before_length : ℕ
  pub after_length : ℕ
  pub first_difference : Option ℕ
  pub appended_only : Bool
  pub added_bytes : ℤ
  pub layouts : List Verdict
  pub records_added : List (RecordCandidate F)
  pub notes : List Note

unfoldable pub changed : {F : Type 0} → PoiDiff F → Bool
changed d = is_some d.first_difference || not (d.before_length == d.after_length)

-- the loop over `range(limit)`
unfoldable pub first_mismatch : ℕ → List ℕ → List ℕ → Option ℕ
first_mismatch index [] after = none
first_mismatch index (b ∷ before) [] = none
first_mismatch index (b ∷ before) (a ∷ after) =
    let later = first_mismatch (index + 1) before after in if b == a then later else some index

-- `result.first_difference`
abbrev pub or_limit : Option ℕ → ℕ → ℕ → Option ℕ
or_limit (some index) m n = some index
or_limit none m n = if m == n then none else some (if ltb n m then n else m)

unfoldable pub first_difference : List ℕ → List ℕ → Option ℕ
first_difference before after =
    or_limit (first_mismatch 0 before after) (length before) (length after)

unfoldable pub appended_only : List ℕ → List ℕ → Bool
appended_only before after =
    ltb (length before) (length after) && text_eq (take (length before) after) before

-- `CANDIDATE_LAYOUTS[name]`
unfoldable pub layout_table : String → List (String × Table) → Option Table
layout_table name [] = none
layout_table name ((n, table) ∷ layouts) =
    if str_eq n name then some table else layout_table name layouts

-- the records of a walk, for membership tests
abbrev pub walk : List ℕ → Table → List (List ℕ)
walk payload table = map (λ e. e.1) (walk_with_offsets table payload)

-- the next item of a list that may fail
unfoldable pub cons_some : {A : Type 0} → Option A → Option (List A) → Option (List A)
cons_some (some x) (some xs) = some (x ∷ xs)
cons_some _ _ = none

unfoldable pub append_some : {A : Type 0} → Option (List A) → Option (List A) → Option (List A)
append_some (some xs) (some ys) = some (xs ++ ys)
append_some _ _ = none

module _ {F : Type 0} ⦃f : Float F⦄ ⦃g : Geometry F⦄ where
  -- `entry.metres_from_reference`, of a point and the reference; `none` is a ValueError
  abbrev pub some_metres : Option F → Option (Option F)
  some_metres none = none
  some_metres (some metres) = some (some metres)

  abbrev pub metres : Option (F × F) → Option (F × F) → Option (Option F)
  metres (some (lat_a, lon_a)) (some (lat_b, lon_b)) =
      some_metres (haversine_metres lat_a lon_a lat_b lon_b)
  metres _ _ = some none

  -- `RecordCandidate(...)`, of a record with its first byte
  abbrev pub new_entry : String → String → ℕ → ℕ → List ℕ → Option F → RecordCandidate F
  new_entry name kind offset marker body distance = record {
    layout = name;
    offset = offset;
    type_byte = marker;
    kind = kind;
    record_length = length (marker ∷ body);
    decodes = is_some (decode_point {F = F} (marker ∷ body));
    metres_from_reference = distance;
  }

  abbrev pub measured :
      (Option F → RecordCandidate F) → Option (Option F) → Option (RecordCandidate F)
  measured entry none = none
  measured entry (some distance) = some (entry distance)

  unfoldable pub entry_of :
      String → Table → Option (F × F) → ℕ → List ℕ → Option (RecordCandidate F)
  entry_of name table reference offset [] = none
  entry_of name table reference offset (marker ∷ body) = elim (find_candidate marker table) [
    | none ↦ none
    | some (kind, n) ↦
        measured (new_entry name kind offset marker body)
          (metres (decode_point (marker ∷ body)) reference)
  ]

  -- the inner loop: what is new is told by content
  unfoldable pub new_entries :
      String
      → Table
      → Option (F × F)
      → List (List ℕ)
      → List (ℕ × List ℕ)
      → Option (List (RecordCandidate F))
  new_entries name table reference earlier [] = some []
  new_entries name table reference earlier ((offset, bytes) ∷ walked) =
      let later = new_entries name table reference earlier walked in
      if mem_text bytes earlier
      then later
      else cons_some (entry_of name table reference offset bytes) later

  unfoldable pub under_table :
      Option Table → String → Option (F × F) → List ℕ → List ℕ → Option (List (RecordCandidate F))
  under_table none name reference before after = none
  under_table (some table) name reference before after =
      new_entries name table reference (walk before table) (walk_with_offsets table after)

  -- the outer loop
  unfoldable pub added_under :
      Option (F × F) → List ℕ → List ℕ → List Verdict → Option (List (RecordCandidate F))
  unfolding under_table
  added_under reference before after [] = some []
  added_under reference before after (v ∷ exact) =
      append_some
        (under_table (layout_table v.layout candidate_layouts) v.layout reference before after)
        (added_under reference before after exact)

  -- the comparison up to the early return
  unfoldable pub structure : List ℕ → List ℕ → PoiDiff F
  structure before after = record {
    before_length = length before;
    after_length = length after;
    first_difference = first_difference before after;
    appended_only = appended_only before after;
    added_bytes = sub_ℕ (length after) (length before);
    layouts = evaluate_layouts after;
    records_added = [];
    notes = [];
  }

  unfoldable pub with_records :
      PoiDiff F → List Note → Option (List (RecordCandidate F)) → Option (PoiDiff F)
  with_records d notes none = none
  with_records d notes (some []) =
      some (record d { records_added = []; notes = notes ++ (no_new_record ∷ []) })
  with_records d notes (some (e ∷ es)) = some (record d { records_added = e ∷ es; notes = notes })

  abbrev pub append_note : PoiDiff F → List Note
  append_note d = if d.appended_only then [] else no_clean_append ∷ []

  -- what is decoded under the exact layouts
  unfoldable pub under_exact :
      Option (F × F) → List ℕ → List ℕ → PoiDiff F → List Verdict → Option (PoiDiff F)
  unfolding with_records
  under_exact reference before after d [] =
      some (record d { notes = append_note d ++ (no_exact_layout ∷ []) })
  under_exact reference before after d (v ∷ []) =
      with_records d (append_note d) (added_under reference before after (v ∷ []))
  under_exact reference before after d (v ∷ w ∷ exact) =
      with_records d (append_note d ++ (several_exact_layouts ∷ []))
        (added_under reference before after (v ∷ w ∷ exact))

  unfoldable pub diff_payloads : List ℕ → List ℕ → Option (F × F) → Option (PoiDiff F)
  unfolding under_exact
  diff_payloads before after reference =
      let d = structure before after in
      if not (changed d)
      then some d
      else under_exact reference before after d (keep (λ v. v.exact) d.layouts)
