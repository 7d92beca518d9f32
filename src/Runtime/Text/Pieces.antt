-- ===== src/Runtime/Text/Pieces.antt =====
-- How often a separator occurs in a text, and how many pieces it splits into.
use mathlib.Core.List.{reverse-cons}
use unidenr8_bluetooth.Prelude.{
  ℕ, suc, ◌+◌, ◌≤◌, ◌≡◌, refl, List, [], ◌∷◌, ◌++◌, reverse, arith, length, All, ap, sym, subst,
  ◌∙◌, ◌==◌, Bool, if◌then◌else◌, Bool-cases, inl, inr,
}
use unidenr8_bluetooth.Runtime.Text.{Text, drop_while, strip_by, push_first, split, split_ne, join}

abbrev pub occurrences : ℕ → Text → ℕ
occurrences sep [] = 0
occurrences sep (c ∷ s) = (if c == sep then 1 else 0) + occurrences sep s

occurrences-append :
    (sep : ℕ) (s t : Text) → occurrences sep (s ++ t) ≡ occurrences sep s + occurrences sep t
occurrences-append sep [] t = omega arith
occurrences-append sep (c ∷ s) t = ground (arith, occurrences-append sep s t)

occurrences-reverse : (sep : ℕ) (s : Text) → occurrences sep (reverse s) ≡ occurrences sep s
occurrences-reverse sep [] = refl
occurrences-reverse sep (c ∷ s) =
    ap (occurrences sep) (reverse-cons c s)
    ∙ ground (arith, occurrences-append sep (reverse s) (c ∷ []), occurrences-reverse sep s)

occurrences-drop_while :
    (sep : ℕ) (test : ℕ → Bool) (s : Text) → occurrences sep (drop_while test s) ≤ occurrences sep s
unfolding drop_while
occurrences-drop_while sep test [] = omega arith
occurrences-drop_while sep test (c ∷ s) = ground (arith, occurrences-drop_while sep test s)

-- Stripping adds none.
pub occurrences-strip_by :
    (sep : ℕ) (test : ℕ → Bool) (s : Text) → occurrences sep (strip_by test s) ≤ occurrences sep s
unfolding strip_by
occurrences-strip_by sep test s =
    let front = drop_while test s in
    omega (
      arith,
      occurrences-reverse sep (drop_while test (reverse front)),
      occurrences-drop_while sep test (reverse front),
      occurrences-reverse sep front,
      occurrences-drop_while sep test s,
    )

-- A text splits into one more piece than it has separators.
pub length-split : (sep : ℕ) (s : Text) → length (split sep s) ≡ suc (occurrences sep s)
unfolding split push_first
length-split sep [] = refl
length-split sep (c ∷ s) =
    let (p, ps, e) = split_ne sep s in
    let more : suc (length ps) ≡ suc (occurrences sep s) = ap length (sym e) ∙ length-split sep s in
    elim (Bool-cases (c == sep)) [
      | inl h ↦ rw (h, e) (omega (arith, more))
      | inr h ↦ rw (h, e) (omega (arith, more))
    ]

-- The pieces have no separator.
pub split-free : (sep : ℕ) (s : Text) → All (λ p. occurrences sep p ≡ 0) (split sep s)
unfolding split push_first
split-free sep [] = (refl, tt)
split-free sep (c ∷ s) =
    let (p, ps, e) = split_ne sep s in
    let free : All (λ q. occurrences sep q ≡ 0) (p ∷ ps) =
      subst (All (λ q. occurrences sep q ≡ 0)) e (split-free sep s) in
    elim (Bool-cases (c == sep)) [
      | inl h ↦ rw (h, e) (refl, free)
      | inr h ↦ rw (h, e) (ground (arith, h, free.0), free.1)
    ]

-- Pieces without a separator, joined, split into as many again.
pub length-split-join :
    (sep : ℕ) (p : Text) (ps : List Text)
    → All (λ q. occurrences sep q ≡ 0) (p ∷ ps)
    → length (split sep (join sep (p ∷ ps))) ≡ suc (length ps)
unfolding join
length-split-join sep p ps free = length-split sep (join sep (p ∷ ps)) ∙ ap suc (between p ps free)
  where
    between :
        (p : Text) (ps : List Text)
        → All (λ q. occurrences sep q ≡ 0) (p ∷ ps)
        → occurrences sep (join sep (p ∷ ps)) ≡ length ps
    between p [] (none, rest) = none
    between p (q ∷ ps) (none, rest) =
        ground (arith, none, occurrences-append sep p (sep ∷ join sep (q ∷ ps)), between q ps rest)
