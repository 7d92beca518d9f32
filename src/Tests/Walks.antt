-- ===== src/Tests/Walks.antt =====
-- Runs of the layouts of POI records.
use unidenr8_bluetooth.Prelude.{ℕ, ◌≡◌, ◌≢◌, ◌↔◌, refl, true, false, List, [], ◌∷◌, arith}
use unidenr8_bluetooth.Layouts.{
  whole_record, find_candidate, boundaries, record_boundaries, bytes_consumed, is_complete, verdict,
}
use unidenr8_bluetooth.Layouts.Exact.{IsTiled, verdict-exact}

-- a user mark of ten bytes, cut to nine in the second payload
abbrev mark : List ℕ
mark = 3 ∷ 0 ∷ 66 ∷ 40 ∷ 0 ∷ 0 ∷ 194 ∷ 240 ∷ 0 ∷ 0 ∷ []

abbrev cut_mark : List ℕ
cut_mark = 3 ∷ 0 ∷ 66 ∷ 40 ∷ 0 ∷ 0 ∷ 194 ∷ 240 ∷ 0 ∷ []

mark_exact : (verdict mark ("whole-record", whole_record)).exact ≡ true
unfolding verdict is_complete record_boundaries boundaries find_candidate bytes_consumed
mark_exact = refl

cut_mark_incomplete : (verdict cut_mark ("whole-record", whole_record)).complete ≡ false
unfolding verdict is_complete record_boundaries boundaries find_candidate bytes_consumed
cut_mark_incomplete = refl

verdict-exact_example :
    ((verdict mark ("whole-record", whole_record)).exact ≡ true)
    ↔ ((mark ≢ []) × IsTiled whole_record mark)
verdict-exact_example =
    verdict-exact "whole-record" whole_record mark (omega arith, (omega arith, (omega arith, tt)))
