-- ===== src/Runtime/Unicode.antt =====
-- The methods of `str` that read the Unicode tables, over those tables as an interface, and the
-- parts of `int(text)`.
use unidenr8_bluetooth.Prelude.{
  ℕ, ◌+◌, ◌-◌, ◌*◌, Bool, true, false, ◌&&◌, ◌||◌, List, [], ◌∷◌, map, Option, none, some, ◌==◌,
  ltb, leb, if◌then◌else◌, all_of,
}
use unidenr8_bluetooth.Prelude.Int.{ℤ, pos, neg_ℤ}
use unidenr8_bluetooth.Runtime.Text.{Text, strip_by}

pub record Unicode : Type 0 where
  -- `str.upper`, which may change the number of characters
  pub upper : Text → Text
  -- `str.lower`
  pub lower : Text → Text
  -- `isspace`, `isalnum`, `isdigit`, `isprintable` of one character
  pub is_space : ℕ → Bool
  pub is_alnum : ℕ → Bool
  pub is_digit : ℕ → Bool
  pub is_printable : ℕ → Bool
  -- the value of a decimal digit, as `int` reads it
  pub digit_value : ℕ → Option ℕ
  -- `bytes.decode("utf-8", "replace")`
  pub decode : List ℕ → Text

module _ ⦃u : Unicode⦄ where
  -- `s.strip()`
  unfoldable pub strip : Text → Text
  strip s = strip_by u.is_space s

  -- `s.isalnum()` and `s.isdigit()`: false of the empty text
  abbrev pub all_chars : (ℕ → Bool) → Text → Bool
  all_chars test [] = false
  all_chars test (c ∷ s) = test c && all_of test s

  -- the digits of an `int` literal, single underscores between them: the value, and how many
  int_digits : ℕ → ℕ → Bool → Text → Option (ℕ × ℕ)
  int_digits value count after [] = if after then some (value, count) else none
  int_digits value count after (c ∷ s) = elim (u.digit_value c) [
    | some d ↦ int_digits (value * 10 + d) (count + 1) true s
    | none ↦ elim (c == b'_' && after) [ true ↦ int_digits value count false s | false ↦ none ]
  ]

  -- a text of more than 4300 digits is a `ValueError`
  bounded : Option (ℕ × ℕ) → Option ℕ
  bounded none = none
  bounded (some (value, count)) = if ltb 4300 count then none else some value

  negated : Option ℕ → Option ℤ
  negated none = none
  negated (some n) = some (neg_ℤ n)

  positive : Option ℕ → Option ℤ
  positive none = none
  positive (some n) = some (pos n)

  signed : Text → Option ℤ
  signed [] = none
  signed (c ∷ s) =
      if c == b'-'
      then negated (bounded (int_digits 0 0 false s))
      else if c == b'+'
      then positive (bounded (int_digits 0 0 false s))
      else positive (bounded (int_digits 0 0 false (c ∷ s)))

  -- `int(text)`, with `none` for the `ValueError`
  unfoldable pub int_of_text : Text → Option ℤ
  unfolding strip signed positive negated bounded int_digits neg_ℤ
  int_of_text s = signed (strip s)

-- The tables restricted to ASCII: tests run on these.
ascii_upper : ℕ → ℕ
ascii_upper c = if leb b'a' c && leb c b'z' then c - 32 else c

unfoldable pub ascii_lower : ℕ → ℕ
ascii_lower c = if leb b'A' c && leb c b'Z' then c + 32 else c

abbrev decimal : ℕ → Bool
decimal c = leb b'0' c && leb c b'9'

abbrev letter : ℕ → Bool
letter c = leb b'a' c && leb c b'z' || leb b'A' c && leb c b'Z'

instance unfoldable pub ascii : Unicode
unfolding ascii_upper ascii_lower
ascii = record {
  upper = map ascii_upper;
  lower = map ascii_lower;
  is_space = λ c. leb 9 c && leb c 13 || leb 28 c && leb c 32;
  is_alnum = λ c. decimal c || letter c;
  is_digit = decimal;
  is_printable = λ c. leb 32 c && leb c 126;
  digit_value = λ c. if decimal c then some (c - b'0') else none;
  decode = λ s. s;
}
