-- ===== src/Runtime/Text/Lengths.antt =====
-- Stripping, splitting and joining: the lengths, and the characters.
use mathlib.Core.List.{reverse-cons, reverse-reverse}
use unidenr8_bluetooth.Prelude.{
  ℕ, ◌+◌, ◌-◌, ◌≤◌, sym, ◌≡◌, refl, Bool, true, not, List, [], ◌∷◌, ◌++◌, reverse, arith, length,
  length-append, all_of, All, ap, ◌∙◌,
}
use unidenr8_bluetooth.Runtime.Text.{Text, drop_while, strip_by, split, split_ne, join, join-split}

length-reverse : (s : Text) → length (reverse s) ≡ length s
length-reverse [] = refl
length-reverse (c ∷ s) =
    ap length (reverse-cons c s)
    ∙ omega (arith, length-append (reverse s) (c ∷ []), length-reverse s)

length-drop_while : (test : ℕ → Bool) (s : Text) → length (drop_while test s) ≤ length s
unfolding drop_while
length-drop_while test [] = omega arith
length-drop_while test (c ∷ s) = ground (arith, length-drop_while test s)

-- Stripping does not lengthen.
pub length-strip_by : (test : ℕ → Bool) (s : Text) → length (strip_by test s) ≤ length s
unfolding strip_by
length-strip_by test s =
    let front = drop_while test s in
    omega (
      arith,
      length-reverse (drop_while test (reverse front)),
      length-drop_while test (reverse front),
      length-reverse front,
      length-drop_while test s,
    )

-- the length of the pieces, with one separator after each
abbrev pub weight : List Text → ℕ
weight [] = 0
weight (p ∷ ps) = length p + 1 + weight ps

pub length-join :
    (sep : ℕ) (p : Text) (ps : List Text) → length (join sep (p ∷ ps)) + 1 ≡ weight (p ∷ ps)
unfolding join
length-join sep p [] = omega arith
length-join sep p (q ∷ ps) =
    omega (arith, length-append p (sep ∷ join sep (q ∷ ps)), length-join sep q ps)

pub all_of-append :
    (test : ℕ → Bool) (s t : Text)
    → all_of test s ≡ true
    → all_of test t ≡ true
    → all_of test (s ++ t) ≡ true
all_of-append test [] t h k = k
all_of-append test (c ∷ s) t h k = ground (arith, all_of-append test s t)

-- A joined text has the characters of its pieces, and the separator.
pub all_of-join :
    (test : ℕ → Bool) (sep : ℕ) (ps : List Text)
    → test sep ≡ true
    → All (λ p. all_of test p ≡ true) ps
    → all_of test (join sep ps) ≡ true
unfolding join
all_of-join test sep [] h k = refl
all_of-join test sep (p ∷ []) h k = k.0
all_of-join test sep (p ∷ q ∷ ps) h k =
    all_of-append test p (sep ∷ join sep (q ∷ ps)) k.0
      (ground (arith, h, all_of-join test sep (q ∷ ps) h k.1))

pub length-join_le : (sep : ℕ) (ps : List Text) → length (join sep ps) ≤ weight ps - 1
unfolding join
length-join_le sep [] = omega arith
length-join_le sep (p ∷ ps) = omega (arith, length-join sep p ps)

pub weight-split : (sep : ℕ) (s : Text) → weight (split sep s) ≡ length s + 1
weight-split sep s =
    let (p, ps, e) = split_ne sep s in
    ap weight e
    ∙ sym (length-join sep p ps)
    ∙ ap (λ t. length t + 1) (ap (join sep) (sym e) ∙ join-split sep s)

all_of-reverse :
    (test : ℕ → Bool) (s : Text) → all_of test s ≡ true → all_of test (reverse s) ≡ true
all_of-reverse test [] h = refl
all_of-reverse test (c ∷ s) h =
    rw (reverse-cons c s) (
      all_of-append test (reverse s) (c ∷ []) (all_of-reverse test s (ground arith)) (ground arith))

drop_while-none :
    (test : ℕ → Bool) (s : Text) → all_of (λ c. not (test c)) s ≡ true → drop_while test s ≡ s
unfolding drop_while
drop_while-none test [] h = refl
drop_while-none test (c ∷ s) h = ground arith

-- Stripping leaves a text that has none of the characters.
pub strip_by-none :
    (test : ℕ → Bool) (s : Text) → all_of (λ c. not (test c)) s ≡ true → strip_by test s ≡ s
unfolding strip_by
strip_by-none test s h =
    let back = all_of-reverse (λ c. not (test c)) s h in
    rw (drop_while-none test s h, drop_while-none test (reverse s) back) (reverse-reverse s)
