-- ===== src/Layouts/Walked.antt =====
-- What `_walk_with_offsets` yields, and the walk of records laid end to end.
use unidenr8_bluetooth.Prelude.{
  length-take, drop-append, drop-drop, take-append, ℕ, zero, suc, ◌+◌, ◌-◌, ◌≤◌, ◌≡◌, refl, true,
  Option, none, some, List, [], ◌∷◌, ◌++◌, map, String, leb, length, length-append, take, drop, All,
  arith, Bool-cases, inl, inr, ap, sym, ◌∙◌,
}
use unidenr8_bluetooth.Layouts.{Table, find_candidate, at_record, walk_from, walk_with_offsets}
use unidenr8_bluetooth.Layouts.Exact.{Positive, found_length}
use unidenr8_bluetooth.Layouts.Diff.{walk}

-- a record of a table: its first byte is a marker, which says its length
abbrev pub IsRecord : Table → List ℕ → Type 0
IsRecord table [] = ⊥
IsRecord table (marker ∷ body) =
    (kind : String) × (find_candidate marker table ≡ some (kind, length (marker ∷ body)))

-- `b"".join(records)`
unfoldable pub concat : List (List ℕ) → List ℕ
concat [] = []
concat (bytes ∷ records) = bytes ++ concat records

-- an entry of a walk that began at `base` with what the payload holds from there
abbrev pub Recorded : Table → ℕ → List ℕ → ℕ × List ℕ → Type 0
Recorded table base rest (offset, bytes) =
    (base ≤ offset)
    × (take (length bytes) (drop (offset - base) rest) ≡ bytes)
    × IsRecord table bytes

module _ (table : Table) where
  shifted :
      (base n : ℕ) (rest : List ℕ) (walked : List (ℕ × List ℕ))
      → All (Recorded table (base + n) (drop n rest)) walked
      → All (Recorded table base rest) walked
  shifted base n rest [] h = tt
  shifted base n rest ((offset, bytes) ∷ walked) ((after, taken, known), later) =
      let gap : n + (offset - (base + n)) ≡ offset - base = omega (arith, after) in
      (
        (
          omega (arith, after),
          ap (λ k. take (length bytes) (drop k rest)) (sym gap)
              ∙ ap (take (length bytes)) (sym (drop-drop (offset - (base + n)) n rest))
              ∙ taken,
          known,
        ),
        shifted base n rest walked later,
      )

  round-Recorded :
      (marker offset : ℕ) (rest : List ℕ) (o : Option (String × ℕ)) (go_on : ℕ → List (ℕ × List ℕ))
      → Positive table
      → find_candidate marker table ≡ o
      → ((n : ℕ) → All (Recorded table (offset + n) (drop n (marker ∷ rest))) (go_on n))
      → All (Recorded table offset (marker ∷ rest)) (at_record o offset (marker ∷ rest) go_on)
  unfolding at_record
  round-Recorded marker offset rest none go_on p e later = tt
  round-Recorded marker offset rest (some (kind, zero)) go_on p e later =
      absurd (omega (arith, found_length marker table kind zero p e))
  round-Recorded marker offset rest (some (kind, suc m)) go_on p e later =
      elim (Bool-cases (leb (suc m) (length (marker ∷ rest)))) [
        | inr over ↦ rw over tt
        | inl within ↦
            let here : offset - offset ≡ 0 = omega arith in
            let long : length (take m rest) ≡ m = length-take m rest (ground arith) in
            rw within (
              (
                omega arith,
                ap (λ k. take (suc (length (take m rest))) (drop k (marker ∷ rest))) here
                    ∙ ap (λ k. marker ∷ take k rest) long,
                (kind, e ∙ ap (λ n. some (kind, suc n)) (sym long)),
              ),
              shifted offset (suc m) (marker ∷ rest) (go_on (suc m)) (later (suc m)),
            )
      ]

  walk_from-Recorded :
      (fuel offset : ℕ) (rest : List ℕ)
      → Positive table
      → All (Recorded table offset rest) (walk_from fuel table offset rest)
  unfolding walk_from
  walk_from-Recorded zero offset rest p = tt
  walk_from-Recorded (suc fuel) offset [] p = tt
  walk_from-Recorded (suc fuel) offset (marker ∷ rest) p =
      round-Recorded marker offset rest (find_candidate marker table)
        (λ n. walk_from fuel table (offset + n) (drop n (marker ∷ rest))) p refl
        (λ n. walk_from-Recorded fuel (offset + n) (drop n (marker ∷ rest)) p)

  walk_from-concat :
      (fuel offset : ℕ) (records : List (List ℕ))
      → length (concat records) ≤ fuel
      → All (IsRecord table) records
      → map (λ e. e.1) (walk_from fuel table offset (concat records)) ≡ records
  unfolding walk_from at_record concat
  walk_from-concat zero offset [] h all = refl
  walk_from-concat (suc fuel) offset [] h all = refl
  walk_from-concat zero offset ([] ∷ records) h (bad, all) = absurd bad
  walk_from-concat (suc fuel) offset ([] ∷ records) h (bad, all) = absurd bad
  walk_from-concat zero offset ((marker ∷ body) ∷ records) h (known, all) = absurd (omega arith)
  walk_from-concat (suc fuel) offset ((marker ∷ body) ∷ records) h ((kind, found), all) =
      let total = length-append body (concat records) in
      let fitting : leb (suc (length body)) (suc (length (body ++ concat records))) ≡ true =
        ground (arith, total) in
      rw (found, fitting, drop-append body (concat records))
        (ap (◌∷◌ (marker ∷ take (length body) (body ++ concat records)))
            (walk_from-concat fuel (offset + suc (length body)) records (omega (arith, total)) all)
          ∙ ap (λ t. (marker ∷ t) ∷ records) (take-append body (concat records)))

  pub walk_with_offsets-Recorded :
      (payload : List ℕ)
      → Positive table
      → All (Recorded table 0 payload) (walk_with_offsets table payload)
  unfolding walk_with_offsets
  walk_with_offsets-Recorded payload p = walk_from-Recorded (length payload) 0 payload p

  -- Records of a table, each as long as its first byte says, are what the walk yields of them laid
  -- end to end.
  pub walk-concat :
      (records : List (List ℕ))
      → All (IsRecord table) records
      → walk (concat records) table ≡ records
  unfolding walk_with_offsets
  walk-concat records all = walk_from-concat (length (concat records)) 0 records (omega arith) all
