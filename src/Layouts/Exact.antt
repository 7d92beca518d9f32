-- ===== src/Layouts/Exact.antt =====
-- The exactness of a layout (`evaluate_layouts`), against payloads that are sequences of records.
use unidenr8_bluetooth.Prelude.{
  take-drop, length-take, length-drop, drop-append, ℕ, zero, suc, ◌+◌, ◌≤◌, ◌≡◌, ◌≢◌, ◌↔◌, refl,
  Bool, true, false, ◌&&◌, Option, none, some, List, [], ◌∷◌, ◌++◌, String, leb, ◌==◌, length,
  length-append, take, drop, all_of, keep, All, arith, Bool-cases, inl, inr, ap, sym, ◌∙◌, subst,
}
use unidenr8_bluetooth.Layouts.{
  Table, find_candidate, Boundary, unrecognised, candidate, at_marker, boundaries,
  record_boundaries, is_recognised, fits, bytes_consumed, is_complete, verdict,
}

-- a payload that is records of the table, one after the other, each of the length of its marker
pub data IsTiled (table : Table) : List ℕ → Type 0 where
  tiled_end : IsTiled table []
  tiled_record :
      (marker : ℕ) (body later : List ℕ) (kind : String)
      → find_candidate marker table ≡ some (kind, length (marker ∷ body))
      → IsTiled table later
      → IsTiled table ((marker ∷ body) ++ later)

-- every entry of a walk is a record that fits
unfoldable all_good : List Boundary → Bool
all_good [] = true
all_good (b ∷ walk) = fits b && all_good walk

length-keep : (walk : List Boundary) → length (keep is_recognised walk) ≤ length walk
length-keep [] = omega arith
length-keep (unrecognised offset marker ∷ walk) = omega (arith, length-keep walk)
length-keep (candidate offset marker kind n fitting ∷ walk) = omega (arith, length-keep walk)

-- a walk is complete if it has an entry and every entry is good
complete_good :
    (walk : List Boundary)
    → length (keep is_recognised walk) == length walk && all_of fits (keep is_recognised walk)
      ≡ all_good walk
unfolding all_good
complete_good [] = refl
complete_good (unrecognised offset marker ∷ walk) = ground (arith, length-keep walk)
complete_good (candidate offset marker kind n fitting ∷ walk) = ground (arith, complete_good walk)

-- no record has length 0
abbrev pub Positive : Table → Type 0
Positive table = All (λ e. 1 ≤ e.2) table

pub found_length :
    (marker : ℕ) (table : Table) (kind : String) (n : ℕ)
    → Positive table
    → find_candidate marker table ≡ some (kind, n)
    → 1 ≤ n
unfolding find_candidate
found_length marker [] kind n p h = absurd (cc h)
found_length marker ((m, k, l) ∷ table) kind n p h =
    ground (arith, found_length marker table kind n p.1, p.0)

module _ (table : Table) where
  -- what a good walk says of what it was over
  abbrev Holds : List Boundary → List ℕ → Type 0
  Holds walk rest =
      all_good walk ≡ true
      → IsTiled table rest × (bytes_consumed (keep is_recognised walk) ≡ length rest)

  round-Holds :
      (marker : ℕ) (rest : List ℕ) (offset : ℕ) (o : Option (String × ℕ))
      (go_on : ℕ → List Boundary)
      → Positive table
      → find_candidate marker table ≡ o
      → ((m : ℕ) → Holds (go_on (suc m)) (drop m rest))
      → Holds (at_marker o offset marker (marker ∷ rest) go_on) (marker ∷ rest)
  unfolding at_marker all_good bytes_consumed
  round-Holds marker rest offset none go_on p e later k = absurd (cc k)
  round-Holds marker rest offset (some (kind, zero)) go_on p e later k =
      absurd (omega (arith, found_length marker table kind zero p e))
  round-Holds marker rest offset (some (kind, suc m)) go_on p e later k =
      elim (Bool-cases (leb (suc m) (length (marker ∷ rest)))) [
        | inr over ↦ absurd (ground arith)
        | inl within ↦
            let small : m ≤ length rest = ground arith in
            let good : all_good (go_on (suc m)) ≡ true = rw within at k in
            let (tiled, consumed) = later m good in
            let long : length (marker ∷ take m rest) ≡ suc m =
              omega (arith, length-take m rest small) in
            (
              subst (λ l. IsTiled table (marker ∷ l)) (take-drop m rest)
                  (tiled_record marker (take m rest) (drop m rest) kind
                    (e ∙ ap (λ n. some (kind, n)) (sym long)) tiled),
              rw within (omega (arith, consumed, length-drop m rest, small)),
            )
      ]

  boundaries-Holds :
      (fuel offset : ℕ) (rest : List ℕ)
      → Positive table
      → length rest ≤ fuel
      → Holds (boundaries fuel table offset rest) rest
  unfolding boundaries bytes_consumed
  boundaries-Holds zero offset [] p h k = (tiled_end, refl)
  boundaries-Holds zero offset (marker ∷ rest) p h k = absurd (omega arith)
  boundaries-Holds (suc fuel) offset [] p h k = (tiled_end, refl)
  boundaries-Holds (suc fuel) offset (marker ∷ rest) p h k =
      round-Holds marker rest offset (find_candidate marker table)
        (λ n. boundaries fuel table (offset + n) (drop n (marker ∷ rest))) p refl
        (λ m.
          boundaries-Holds fuel (offset + suc m) (drop m rest) p
            (omega (arith, length-drop m rest)))
        k

  -- a sequence of records is walked to its end
  tiled-good :
      (fuel offset : ℕ) (rest : List ℕ)
      → length rest ≤ fuel
      → IsTiled table rest
      → all_good (boundaries fuel table offset rest) ≡ true
  unfolding boundaries at_marker all_good
  tiled-good zero offset _ h tiled_end = refl
  tiled-good (suc fuel) offset _ h tiled_end = refl
  tiled-good zero offset _ h (tiled_record marker body later kind e t) = absurd (omega arith)
  tiled-good (suc fuel) offset _ h (tiled_record marker body later kind e t) =
      let total = length-append body later in
      let fitting : leb (suc (length body)) (suc (length (body ++ later))) ≡ true =
        ground (arith, total) in
      rw (e, fitting, drop-append body later)
        (tiled-good fuel (offset + suc (length body)) later (omega (arith, total)) t)

some-consumed : (walk : List Boundary) → 1 ≤ bytes_consumed walk → length walk == 0 ≡ false
unfolding bytes_consumed
some-consumed [] h = absurd (omega arith)
some-consumed (b ∷ walk) h = ground arith

-- A layout without empty records is exact on a payload exactly if the payload is not empty and is a
-- sequence of records of the layout, one after the other, each as long as its first byte says.
pub verdict-exact :
    (name : String) (table : Table) (payload : List ℕ)
    → Positive table
    → ((verdict payload (name, table)).exact ≡ true) ↔ ((payload ≢ []) × IsTiled table payload)
unfolding verdict is_complete record_boundaries boundaries
verdict-exact name table [] p = (λ e. absurd (cc e), λ (filled, tiled). absurd (filled refl))
verdict-exact name table (marker ∷ rest) p =
    let payload = marker ∷ rest in
    let walk = boundaries (length payload) table 0 payload in
    let graded = complete_good walk in
    (
      λ e.
          let good : all_good walk ≡ true = ground (arith, graded) in
          (
            λ empty. absurd (omega (arith, ap length empty)),
            (boundaries-Holds table (length payload) 0 payload p (omega arith) good).0,
          ),
      λ (filled, tiled).
          let good = tiled-good table (length payload) 0 payload (omega arith) tiled in
          let consumed =
            (boundaries-Holds table (length payload) 0 payload p (omega arith) good).1 in
          let present = some-consumed (keep is_recognised walk) (omega (arith, consumed)) in
          let exact : bytes_consumed (keep is_recognised walk) == length payload ≡ true =
            ground (arith, consumed) in
          let complete : is_complete walk ≡ true = rw present (graded ∙ good) in
          rw (complete, exact) refl,
    )
