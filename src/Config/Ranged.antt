-- ===== src/Config/Ranged.antt =====
-- What `_coerce` and `_ranged` of src/uniden_r8/config.py accept.
use unidenr8_bluetooth.Prelude.{
  ◌≡◌, refl, subst, false, not, ◌&&◌, Option, none, some, if◌then◌else◌, arith,
}
use unidenr8_bluetooth.Prelude.Int.{ℤ, pos, leb_ℤ, ◌≤ℤ◌}
use unidenr8_bluetooth.Runtime.Float.{Float}
use unidenr8_bluetooth.Runtime.Text.{Text}
use unidenr8_bluetooth.Config.Schema.{
  Toml, bool, int, float, nan, text, other, Setting, flag, whole, number, word, Kind, as_bool,
  as_int, as_float, as_str, whole_ranges, float_ranges, range_of,
}
use unidenr8_bluetooth.Config.{ranged_int, ranged_float, coerce}

-- a value of a range
abbrev InRange : Option (ℤ × ℤ) → ℤ → Type 0
InRange none n = Unit {0}
InRange (some (low, high)) n = (low ≤ℤ n) × (n ≤ℤ high)

module _ {F : Type 0} ⦃f : Float F⦄ where
  abbrev InFloatRange : Option (F × F) → F → Type 0
  InFloatRange none a = Unit {0}
  InFloatRange (some (low, high)) a = (f.lt a low ≡ false) × (f.lt high a ≡ false)

  -- within the range of the setting, if it has one
  abbrev pub Within : Text → Text → Setting F → Type 0
  Within section key (whole n) = InRange (range_of section key whole_ranges) n
  Within section key (number a) = InFloatRange (range_of section key float_ranges) a
  Within section key _ = Unit {0}

  -- the value of the file, as a setting of its kind
  abbrev pub Given : Kind → Toml F → Setting F → Type 0
  Given as_bool (bool b) (flag c) = b ≡ c
  Given as_int (int n) (whole m) = n ≡ m
  Given as_float (int n) (number a) = f.ratio n (pos 1) ≡ a
  Given as_float (float b) (number a) = b ≡ a
  Given as_str (text s) (word t) = s ≡ t
  Given _ _ _ = ⊥

  int_range-Within :
      (range : Option (ℤ × ℤ)) (n : ℤ) (t : Setting F)
      → elim range [
        | none ↦ some (whole n)
        | some (low, high) ↦ if leb_ℤ low n && leb_ℤ n high then some (whole n) else none
      ]
        ≡ some t
      → (whole n ≡ t) × InRange range n
  int_range-Within none n t h = (ground arith, tt)
  int_range-Within (some (low, high)) n t h = ground arith

  float_range-Within :
      (range : Option (F × F)) (a : F) (t : Setting F)
      → elim range [
        | none ↦ some (number a)
        | some (low, high) ↦ if not (f.lt a low) && not (f.lt high a) then some (number a) else none
      ]
        ≡ some t
      → (number a ≡ t) × InFloatRange range a
  float_range-Within none a t h = (ground arith, tt)
  float_range-Within (some (low, high)) a t h = ground arith

  ranged_int-Within :
      (section key : Text) (n : ℤ) (t : Setting F)
      → ranged_int section key n ≡ some t
      → (whole n ≡ t) × Within section key t
  unfolding ranged_int
  ranged_int-Within section key n t h =
      let (e, k) = int_range-Within (range_of section key whole_ranges) n t h in
      (e, subst (Within section key) e k)

  ranged_float-Within :
      (section key : Text) (a : F) (t : Setting F)
      → ranged_float section key a ≡ some t
      → (number a ≡ t) × Within section key t
  unfolding ranged_float
  ranged_float-Within section key a t h =
      let (e, k) = float_range-Within (range_of section key float_ranges) a t h in
      (e, subst (Within section key) e k)

  -- what is accepted of a kind
  accepted :
      (kind : Kind) (v : Toml F) (section key : Text) (s t : Setting F)
      → Given kind v s
      → (s ≡ t) × Within section key t
      → Given kind v t × Within section key t
  accepted kind v section key s t given (e, within) = (subst (Given kind v) e given, within)

  pub coerce-Given :
      (section key : Text) (kind : Kind) (v : Toml F) (t : Setting F)
      → coerce section key kind v ≡ some t
      → Given kind v t × Within section key t
  unfolding coerce
  coerce-Given section key as_bool (bool b) t h =
      let e : flag b ≡ t = ground arith in
      subst (λ s. Given as_bool (bool b) s × Within section key s) e (refl, tt)
  coerce-Given section key as_bool (int n) t h = absurd (cc h)
  coerce-Given section key as_bool (float a) t h = absurd (cc h)
  coerce-Given section key as_bool nan t h = absurd (cc h)
  coerce-Given section key as_bool (text s) t h = absurd (cc h)
  coerce-Given section key as_bool other t h = absurd (cc h)
  coerce-Given section key as_int (bool b) t h = absurd (cc h)
  coerce-Given section key as_int (int n) t h =
      accepted as_int (int n) section key (whole n) t refl (ranged_int-Within section key n t h)
  coerce-Given section key as_int (float a) t h = absurd (cc h)
  coerce-Given section key as_int nan t h = absurd (cc h)
  coerce-Given section key as_int (text s) t h = absurd (cc h)
  coerce-Given section key as_int other t h = absurd (cc h)
  coerce-Given section key as_float (bool b) t h = absurd (cc h)
  coerce-Given section key as_float (int n) t h =
      accepted as_float (int n) section key (number (f.ratio n (pos 1))) t refl
        (ranged_float-Within section key (f.ratio n (pos 1)) t h)
  coerce-Given section key as_float (float a) t h =
      accepted as_float (float a) section key (number a) t refl
        (ranged_float-Within section key a t h)
  coerce-Given section key as_float nan t h = absurd (cc h)
  coerce-Given section key as_float (text s) t h = absurd (cc h)
  coerce-Given section key as_float other t h = absurd (cc h)
  coerce-Given section key as_str (bool b) t h = absurd (cc h)
  coerce-Given section key as_str (int n) t h = absurd (cc h)
  coerce-Given section key as_str (float a) t h = absurd (cc h)
  coerce-Given section key as_str nan t h = absurd (cc h)
  coerce-Given section key as_str (text s) t h =
      let e : word s ≡ t = ground arith in
      subst (λ r. Given as_str (text s) r × Within section key r) e (refl, tt)
  coerce-Given section key as_str other t h = absurd (cc h)
