-- ===== src/Tests/Diffs.antt =====
-- Runs of the comparison of two payloads of POI records.
use unidenr8_bluetooth.Prelude.{
  ℕ, ◌+◌, ◌*◌, ◌≡◌, ◌↔◌, if◌then◌else◌, refl, true, Option, none, some, List, [], ◌∷◌, ◌++◌,
}
use unidenr8_bluetooth.Prelude.Int.{ℤ, pos, ltb_ℤ}
use unidenr8_bluetooth.Layouts.{whole_record, find_candidate}
use unidenr8_bluetooth.Layouts.Point.{Geometry, haversine_metres}
use unidenr8_bluetooth.Layouts.Diff.{walk, first_difference, first_mismatch, appended_only}
use unidenr8_bluetooth.Layouts.Walked.{concat, walk-concat}
use unidenr8_bluetooth.Layouts.Added.{Added}
use unidenr8_bluetooth.Layouts.Changed.{Compared, first_difference-Compared, appended_only_iff}
use unidenr8_bluetooth.Tests.Fixed.{fixed}

-- a flat world, with two bytes to a number; what lies far out has no sine
abbrev two_bytes : List ℕ → Option ℤ
two_bytes (a ∷ b ∷ rest) = some (pos ((a * 256 + b) * 1000))
two_bytes _ = none

instance abbrev flat : Geometry ℤ
flat = record {
  radians = λ a. a;
  sin = λ a. if ltb_ℤ (pos 1_000_000_000) a then none else some a;
  cos = λ a. some a;
  asin = λ a. some a;
  sqrt = λ a. some a;
  square = λ a. fixed.mul a a;
  float32 = two_bytes;
}

abbrev home : List ℕ
home = 3 ∷ 0 ∷ 66 ∷ 40 ∷ 0 ∷ 0 ∷ 194 ∷ 240 ∷ 0 ∷ 0 ∷ []

abbrev work : List ℕ
work = 3 ∷ 0 ∷ 66 ∷ 41 ∷ 0 ∷ 0 ∷ 194 ∷ 241 ∷ 0 ∷ 0 ∷ []

walk-concat_example : walk (concat (home ∷ work ∷ [])) whole_record ≡ home ∷ work ∷ []
unfolding find_candidate
walk-concat_example =
    walk-concat whole_record (home ∷ work ∷ []) (("user mark", refl), (("user mark", refl), tt))

-- a new mark that is sorted first
reordered_difference : first_difference home (work ++ home) ≡ some 3
unfolding first_difference first_mismatch
reordered_difference = refl

far_out_unmeasured :
    haversine_metres (pos 16_936_000) (pos 0) (pos 10_000_000_000_000) (pos 0) ≡ none
unfolding haversine_metres
far_out_unmeasured = refl

first_difference-Compared_example :
    Compared (first_difference home (work ++ home)) 0 home (work ++ home)
first_difference-Compared_example = first_difference-Compared home (work ++ home)

appended_only_iff_example :
    (appended_only home (home ++ work) ≡ true)
    ↔ ((byte : ℕ) × (more : List ℕ) × (home ++ work ≡ home ++ (byte ∷ more)))
appended_only_iff_example = appended_only_iff home (home ++ work)
