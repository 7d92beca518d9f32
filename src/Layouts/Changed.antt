-- ===== src/Layouts/Changed.antt =====
-- The comparison of two payloads at the head of `diff_payloads` of src/uniden_r8/poi_diff.py.
use unidenr8_bluetooth.Prelude.{
  take-drop, length-drop, take-append, ℕ, suc, ◌+◌, ◌<◌, ◌≡◌, ◌≢◌, ◌↔◌, ◌⊎◌, refl, true, Option,
  none, some, List, [], ◌∷◌, ◌++◌, ◌==◌, ltb→lt, length, length-append, take, drop, get_elem?,
  arith, Bool-cases, inl, inr, ap, sym, ◌∙◌, subst,
}
use unidenr8_bluetooth.Runtime.Text.{text_eq_sound, text_eq_refl}
use unidenr8_bluetooth.Layouts.Diff.{or_limit, first_mismatch, first_difference, appended_only}

-- the two payloads are the same, or differ first at an index
abbrev pub Compared : Option ℕ → ℕ → List ℕ → List ℕ → Type 0
Compared o base before after =
    ((o ≡ none) × (before ≡ after))
    ⊎ ((i : ℕ) × (o ≡ some (base + i))
        × (take i before ≡ take i after)
        × (get_elem? before i ≢ get_elem? after i))

step-Compared :
    (o o' : Option ℕ) (base a : ℕ) (before after : List ℕ)
    → o' ≡ o
    → Compared o (base + 1) before after
    → Compared o' base (a ∷ before) (a ∷ after)
step-Compared o o' base a before after e (inl (same, equal)) = inl (e ∙ same, ap (◌∷◌ a) equal)
step-Compared o o' base a before after e (inr (i, found, prefix, differs)) =
    inr (suc i, e ∙ found ∙ ap some (omega arith), ap (◌∷◌ a) prefix, differs)

first_mismatch-Compared :
    (base : ℕ) (before after : List ℕ)
    → Compared
        (or_limit (first_mismatch base before after) (base + length before) (base + length after))
        base
        before
        after
unfolding first_mismatch
first_mismatch-Compared base [] [] = inl (ground arith, refl)
first_mismatch-Compared base [] (a ∷ after) = inr (0, ground arith, refl, λ e. absurd (cc e))
first_mismatch-Compared base (b ∷ before) [] = inr (0, ground arith, refl, λ e. absurd (cc e))
first_mismatch-Compared base (b ∷ before) (a ∷ after) = elim (Bool-cases (b == a)) [
  | inl same ↦
      let e : b ≡ a = ground arith in
      let later = first_mismatch (base + 1) before after in
      let m : base + suc (length before) ≡ base + 1 + length before = omega arith in
      let n : base + suc (length after) ≡ base + 1 + length after = omega arith in
      let o' =
        or_limit (first_mismatch base (b ∷ before) (a ∷ after)) (base + suc (length before))
          (base + suc (length after)) in
      subst (λ x. Compared o' base (x ∷ before) (a ∷ after)) (sym e)
        (step-Compared (or_limit later (base + 1 + length before) (base + 1 + length after)) o' base
          a before after (rw (same, m, n) refl) (first_mismatch-Compared (base + 1) before after))
  | inr other ↦ inr (0, rw other (ap some (omega arith)), refl, λ e. absurd (ground arith))
]

-- The first difference is none exactly if the payloads are the same; otherwise it is the index up to
-- which they agree and at which they differ, where a payload that has ended counts as differing.
pub first_difference-Compared :
    (before after : List ℕ) → Compared (first_difference before after) 0 before after
unfolding first_difference
first_difference-Compared before after =
    let m : 0 + length before ≡ length before = omega arith in
    let n : 0 + length after ≡ length after = omega arith in
    let same : or_limit (first_mismatch 0 before after) (0 + length before) (0 + length after)
        ≡ first_difference before after =
      rw (m, n) refl in
    subst (λ o. Compared o 0 before after) same (first_mismatch-Compared 0 before after)

filled : (xs : List ℕ) → 0 < length xs → (x : ℕ) × (more : List ℕ) × (xs ≡ x ∷ more)
filled [] h = absurd (omega arith)
filled (x ∷ more) h = (x, more, refl)

-- A change is an append exactly if the later payload is the earlier one with at least one more byte
-- behind it.
pub appended_only_iff :
    (before after : List ℕ)
    → (appended_only before after ≡ true)
      ↔ ((byte : ℕ) × (more : List ℕ) × (after ≡ before ++ (byte ∷ more)))
unfolding appended_only
appended_only_iff before after =
    let n = length before in
    (
      λ h.
          let whole : take n after ≡ before = text_eq_sound (take n after) before (ground arith) in
          let (byte, more, e) =
            filled (drop n after)
              (omega (arith, length-drop n after, ltb→lt n (length after) (ground arith))) in
          (
            byte,
            more,
            sym (take-drop n after) ∙ ap (λ t. t ++ drop n after) whole ∙ ap (λ t. before ++ t) e,
          ),
      λ (byte, more, e).
          let total = length-append before (byte ∷ more) in
          rw (e, take-append before (byte ∷ more), text_eq_refl before) (ground (arith, total)),
    )
