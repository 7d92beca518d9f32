-- ===== src/Tests/Fixed.antt =====
-- A model of the float interface: fixed-point numbers, in millionths.
use unidenr8_bluetooth.Prelude.{
  ℕ, ◌+◌, ◌-◌, ◌*◌, ◌/◌, ◌%◌, ◌≡◌, true, ◌&&◌, Option, none, some, [], ◌∷◌, arith, ◌==◌, leb,
  if◌then◌else◌,
}
use unidenr8_bluetooth.Prelude.Int.{ℤ, pos, negsuc, pos_part, neg_part, sub_ℕ, ltb_ℤ}
use unidenr8_bluetooth.Runtime.Text.{Text}
use unidenr8_bluetooth.Runtime.Float.{Float, IsOrdered}

abbrev size : ℤ → ℕ
size a = pos_part a + neg_part a

abbrev with_sign : ℤ → ℤ → ℕ → ℤ
with_sign (pos a) (pos b) n = pos n
with_sign (negsuc a) (negsuc b) n = pos n
with_sign _ _ n = sub_ℕ 0 n

abbrev one : ℕ
one = 1_000_000

-- the digits after the point, with the weight of the first
abbrev fraction : ℕ → Text → Option ℕ
fraction weight [] = some 0
fraction weight (c ∷ s) = elim (fraction (weight / 10) s) [
  | none ↦ none
  | some n ↦ if leb b'0' c && leb c b'9' then some ((c - b'0') * weight + n) else none
]

-- digits with at most one point
abbrev decimal_text : ℕ → Text → Option ℕ
decimal_text value [] = some (value * one)
decimal_text value (c ∷ s) =
    let rest = decimal_text (value * 10 + (c - b'0')) s in
    if c == b'.'
    then elim (fraction 100_000 s) [ none ↦ none | some n ↦ some (value * one + n) ]
    else if leb b'0' c && leb c b'9'
    then rest
    else none

abbrev as_positive : Option ℕ → Option ℤ
as_positive none = none
as_positive (some n) = some (pos n)

instance abbrev pub fixed : Float ℤ
fixed = record {
  lt = ltb_ℤ;
  add = λ a b. sub_ℕ (pos_part a + pos_part b) (neg_part a + neg_part b);
  sub = λ a b. sub_ℕ (pos_part a + neg_part b) (neg_part a + pos_part b);
  mul = λ a b. with_sign a b (size a * size b / one);
  div = λ a b. with_sign a b (size a * one / size b);
  magnitude = λ a. pos (size a);
  ratio = λ a b. with_sign a b (size a * one / size b);
  of_text = λ s. as_positive (decimal_text 0 s);
  is_finite = λ a. true;
  is_integral = λ a. size a % one == 0;
}

pub fixed-IsOrdered : IsOrdered ℤ
fixed-IsOrdered = record {
  irreflexive = λ a. ground arith;
  transitive = λ a b c h k. ground arith;
  negatively_transitive = λ a b c h k. ground arith;
}

pub fixed_magnitude : (x y : ℤ) → fixed.magnitude (fixed.sub x y) ≡ fixed.magnitude (fixed.sub y x)
fixed_magnitude x y = ground arith
