-- ===== src/Layouts.antt =====
-- `CANDIDATE_LAYOUTS`, `record_boundaries` and `evaluate_layouts` of src/uniden_r8/inspection.py,
-- and `_walk_with_offsets` of src/uniden_r8/poi_diff.py. A walk is over what the payload holds from
-- its offset on. The text `record_lengths` of a verdict is left out.
pub mod Exact
pub mod Point
pub mod Diff
pub mod Walked
pub mod Judged
pub mod Measured
pub mod Added
pub mod Changed
use unidenr8_bluetooth.Prelude.{
  ℕ, zero, suc, ◌+◌, ◌-◌, ◌≡◌, Bool, true, false, not, ◌&&◌, ◌||◌, Option, none, some, List, [],
  ◌∷◌, ◌++◌, map, String, ltb, leb, ◌==◌, if◌then◌else◌, length, take, drop, all_of, keep,
}

-- a marker, with the kind and the length of its records
abbrev pub Table : Type 0
Table = List (ℕ × String × ℕ)

abbrev pub whole_record : Table
whole_record = (1, "speed camera", 13) ∷ (2, "red-light camera", 12) ∷ (3, "user mark", 10) ∷ []

abbrev pub payload_plus_header : Table
payload_plus_header =
    (1, "speed camera", 15) ∷ (2, "red-light camera", 14) ∷ (3, "user mark", 12) ∷ []

abbrev pub candidate_layouts : List (String × Table)
candidate_layouts =
    ("whole-record", whole_record) ∷ ("payload-plus-header", payload_plus_header) ∷ []

-- `table.get(marker)`
unfoldable pub find_candidate : ℕ → Table → Option (String × ℕ)
find_candidate marker [] = none
find_candidate marker ((m, kind, n) ∷ table) =
    if m == marker then some (kind, n) else find_candidate marker table

-- one suggestion of a walk
pub data Boundary : Type 0 where
  unrecognised : (offset marker : ℕ) → Boundary
  candidate : (offset marker : ℕ) (kind : String) (record_length : ℕ) (fits : Bool) → Boundary

-- the rest of a round, by what the table says of the marker
unfoldable pub at_marker :
    Option (String × ℕ) → ℕ → ℕ → List ℕ → (ℕ → List Boundary) → List Boundary
at_marker none offset marker rest go_on = unrecognised offset marker ∷ []
at_marker (some (kind, n)) offset marker rest go_on =
    let later = go_on n in
    if leb n (length rest)
    then candidate offset marker kind n true ∷ later
    else candidate offset marker kind n false ∷ []

-- the loop; a round for each byte is enough where no record has length 0
unfoldable pub boundaries : ℕ → Table → ℕ → List ℕ → List Boundary
unfolding at_marker
boundaries zero table offset rest = []
boundaries (suc fuel) table offset [] = []
boundaries (suc fuel) table offset (marker ∷ rest) =
    at_marker (find_candidate marker table) offset marker (marker ∷ rest)
      (λ n. boundaries fuel table (offset + n) (drop n (marker ∷ rest)))

unfoldable pub record_boundaries : Table → List ℕ → List Boundary
record_boundaries table payload = boundaries (length payload) table 0 payload

abbrev pub is_recognised : Boundary → Bool
is_recognised (unrecognised offset marker) = false
is_recognised (candidate offset marker kind n fits) = true

-- `entry.get("fits")`
abbrev pub fits : Boundary → Bool
fits (unrecognised offset marker) = false
fits (candidate offset marker kind n fitting) = fitting

abbrev pub offset_of : Boundary → ℕ
offset_of (unrecognised offset marker) = offset
offset_of (candidate offset marker kind n fits) = offset

unfoldable pub bytes_consumed : List Boundary → ℕ
bytes_consumed [] = 0
bytes_consumed (unrecognised offset marker ∷ walk) = bytes_consumed walk
bytes_consumed (candidate offset marker kind n fitting ∷ walk) =
    let later = bytes_consumed walk in if fitting then n + later else later

-- `walk[-1]["offset"] if walk else 0`
last_offset : List Boundary → ℕ
last_offset [] = 0
last_offset (b ∷ []) = offset_of b
last_offset (b ∷ c ∷ walk) = last_offset (c ∷ walk)

pub record Verdict : Type 0 where
  pub layout : String
  pub records : ℕ
  pub all_fit : Bool
  pub consumed : ℕ
  pub bytes_total : ℕ
  pub complete : Bool
  pub exact : Bool
  pub stopped_at : Option ℕ

-- `complete`, of a walk: there is a record, none is unrecognised, and all fit
unfoldable pub is_complete : List Boundary → Bool
is_complete walk =
    let recognised = keep is_recognised walk in
    not (length recognised == 0) && length recognised == length walk && all_of fits recognised

unfoldable pub verdict : List ℕ → String × Table → Verdict
unfolding last_offset is_complete bytes_consumed
verdict payload (name, table) =
    let walk = record_boundaries table payload in
    let recognised = keep is_recognised walk in
    record {
      layout = name;
      records = length recognised;
      all_fit = all_of fits recognised;
      consumed = bytes_consumed recognised;
      bytes_total = length payload;
      complete = is_complete walk;
      exact = is_complete walk && bytes_consumed recognised == length payload;
      stopped_at = if is_complete walk then none else some (last_offset walk);
    }

-- the order of the keys `(not exact, -bytes_consumed)`
unfoldable pub ranks_before : Verdict → Verdict → Bool
ranks_before v w =
    if v.exact
    then not w.exact || ltb w.consumed v.consumed
    else not w.exact && ltb w.consumed v.consumed

unfoldable pub insert_verdict : Verdict → List Verdict → List Verdict
unfolding ranks_before
insert_verdict v [] = v ∷ []
insert_verdict v (w ∷ verdicts) =
    let later = insert_verdict v verdicts in
    if ranks_before w v then w ∷ later else v ∷ w ∷ verdicts

-- `verdicts.sort(...)`, a stable sort
unfoldable pub sort_verdicts : List Verdict → List Verdict
unfolding insert_verdict
sort_verdicts [] = []
sort_verdicts (v ∷ verdicts) = insert_verdict v (sort_verdicts verdicts)

unfoldable pub evaluate_layouts : List ℕ → List Verdict
unfolding sort_verdicts
evaluate_layouts payload = sort_verdicts (map (verdict payload) candidate_layouts)

-- a round of `_walk_with_offsets`
unfoldable pub at_record :
    Option (String × ℕ) → ℕ → List ℕ → (ℕ → List (ℕ × List ℕ)) → List (ℕ × List ℕ)
at_record none offset rest go_on = []
at_record (some (kind, n)) offset rest go_on =
    let later = go_on n in if leb n (length rest) then (offset, take n rest) ∷ later else []

unfoldable pub walk_from : ℕ → Table → ℕ → List ℕ → List (ℕ × List ℕ)
unfolding at_record
walk_from zero table offset rest = []
walk_from (suc fuel) table offset [] = []
walk_from (suc fuel) table offset (marker ∷ rest) =
    at_record (find_candidate marker table) offset (marker ∷ rest)
      (λ n. walk_from fuel table (offset + n) (drop n (marker ∷ rest)))

-- `_walk_with_offsets`
unfoldable pub walk_with_offsets : Table → List ℕ → List (ℕ × List ℕ)
walk_with_offsets table payload = walk_from (length payload) table 0 payload
