-- ===== src/Layouts/Judged.antt =====
-- What is known of the verdicts of `evaluate_layouts` of src/uniden_r8/inspection.py.
use unidenr8_bluetooth.Prelude.{
  ℕ, ◌≡◌, refl, Bool, true, some, List, [], ◌∷◌, String, keep, All, arith, Bool-cases, inl, inr,
}
use unidenr8_bluetooth.Layouts.{
  Table, candidate_layouts, whole_record, payload_plus_header, Verdict, verdict, evaluate_layouts,
  sort_verdicts, insert_verdict, ranks_before,
}
use unidenr8_bluetooth.Layouts.Exact.{IsTiled, Positive, verdict-exact}
use unidenr8_bluetooth.Layouts.Diff.{layout_table}

-- what is known of a verdict on a payload
abbrev pub Judged : List ℕ → Verdict → Type 0
Judged after v =
    (table : Table) × (layout_table v.layout candidate_layouts ≡ some table)
    × Positive table
    × (v.exact ≡ true → IsTiled table after)

insert_verdict-All :
    (P : Verdict → Type 0) (v : Verdict) (vs : List Verdict)
    → P v
    → All P vs
    → All P (insert_verdict v vs)
unfolding insert_verdict
insert_verdict-All P v [] h all = (h, tt)
insert_verdict-All P v (w ∷ vs) h all = elim (Bool-cases (ranks_before w v)) [
  | inl first ↦ rw first (all.0, insert_verdict-All P v vs h all.1)
  | inr last ↦ rw last (h, all)
]

whole-Positive : Positive whole_record
whole-Positive = (omega arith, (omega arith, (omega arith, tt)))

plus-Positive : Positive payload_plus_header
plus-Positive = (omega arith, (omega arith, (omega arith, tt)))

pub evaluate_layouts-Judged : (after : List ℕ) → All (Judged after) (evaluate_layouts after)
unfolding evaluate_layouts sort_verdicts verdict layout_table
evaluate_layouts-Judged after =
    let short : String × Table = ("whole-record", whole_record) in
    let long : String × Table = ("payload-plus-header", payload_plus_header) in
    insert_verdict-All (Judged after) (verdict after short) (verdict after long ∷ [])
      (
        whole_record,
        refl,
        whole-Positive,
        λ on. ((verdict-exact "whole-record" whole_record after whole-Positive).0 on).1,
      )
      (
        (
          payload_plus_header,
          refl,
          plus-Positive,
          λ on.
              ((verdict-exact "payload-plus-header" payload_plus_header after plus-Positive).0
                on).1,
        ),
        tt,
      )

pub keep-All :
    {A : Type 0} (P : A → Type 0) (test : A → Bool) (xs : List A)
    → All P xs
    → All (λ x. P x × (test x ≡ true)) (keep test xs)
keep-All P test [] all = tt
keep-All P test (x ∷ xs) all = elim (Bool-cases (test x)) [
  | inl on ↦ rw on ((all.0, on), keep-All P test xs all.1)
  | inr off ↦ rw off (keep-All P test xs all.1)
]
