-- ===== src/Runtime/Float.antt =====
-- Python floats as an interface: `F` stands for the float values other than NaN. No theorem
-- assumes more of the arithmetic than the laws that it names.
use unidenr8_bluetooth.Prelude.{◌≡◌, Bool, true, false, ◌&&◌, not, Option, if◌then◌else◌}
use unidenr8_bluetooth.Prelude.Int.{ℤ}
use unidenr8_bluetooth.Runtime.Text.{Text}

pub record Float (F : Type 0) : Type 0 where
  -- `a < b`
  pub lt : F → F → Bool
  pub add : F → F → F
  pub sub : F → F → F
  pub mul : F → F → F
  pub div : F → F → F
  -- `abs(a)`
  pub magnitude : F → F
  -- `n / m` on two `int`s, correctly rounded: the literal `0.25` is `ratio 1 4`
  pub ratio : ℤ → ℤ → F
  -- `float(text)`, with `none` for the `ValueError` and for NaN
  pub of_text : Text → Option F
  -- `math.isfinite`
  pub is_finite : F → Bool
  -- `a == int(a)`
  pub is_integral : F → Bool

module _ {F : Type 0} ⦃f : Float F⦄ where
  -- `a == b`, of floats that are no NaN
  unfoldable pub float_eq : F → F → Bool
  float_eq a b = not (f.lt a b) && not (f.lt b a)

  -- `max(a, b)` and `min(a, b)` keep the first argument of two equal ones
  unfoldable pub max_float : F → F → F
  max_float a b = if f.lt a b then b else a

  unfoldable pub min_float : F → F → F
  min_float a b = if f.lt b a then b else a

-- `<` on floats other than NaN is a strict weak order.
pub record IsOrdered (F : Type 0) ⦃f : Float F⦄ : Type 0 where
  pub irreflexive : (a : F) → f.lt a a ≡ false
  pub transitive : (a b c : F) → f.lt a b ≡ true → f.lt b c ≡ true → f.lt a c ≡ true
  -- not `a < b` and not `b < c` exclude `a < c`
  pub negatively_transitive : (a b c : F) → f.lt a b ≡ false → f.lt b c ≡ false → f.lt a c ≡ false
