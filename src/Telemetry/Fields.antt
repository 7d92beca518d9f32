-- ===== src/Telemetry/Fields.antt =====
-- `_text`, `_at`, `_float`, `_int`, `_safe_word` and `_safe_group` of
-- src/uniden_r8/telemetry.py: one field of a packet.
pub mod Safe
use unidenr8_bluetooth.Prelude.{
  ℕ, ◌+◌, ◌-◌, ◌≡◌, Bool, true, false, not, ◌&&◌, ◌||◌, Option, none, some, List, [], ◌∷◌, ltb,
  ◌==◌, if◌then◌else◌, length, get_elem?, keep,
}
use unidenr8_bluetooth.Prelude.Int.{ℤ}
use unidenr8_bluetooth.Runtime.Text.{Text, split, join, strip_by}
use unidenr8_bluetooth.Runtime.Float.{Float}
use unidenr8_bluetooth.Runtime.Unicode.{Unicode, strip, all_chars, int_of_text}

-- what a notification hands over
pub data Payload : Type 0 where
  bytes : List ℕ → Payload
  str : Text → Payload

abbrev is_nul : ℕ → Bool
is_nul c = c == 0

-- a character that `_safe_word` takes out before the test
abbrev pub is_filler : ℕ → Bool
is_filler c = c == b' ' || c == b'.' || c == b'-'

-- `value or None`
unfoldable pub non_empty : Text → Option Text
non_empty [] = none
non_empty (c ∷ s) = some (c ∷ s)

module _ ⦃u : Unicode⦄ where
  -- `_text`
  unfoldable pub text_of : Payload → Text
  text_of (bytes b) = strip (strip_by is_nul (u.decode b))
  text_of (str s) = strip s

  unfoldable pub stripped : Option Text → Option Text
  stripped none = none
  stripped (some s) = non_empty (strip s)

  -- `_at`
  unfoldable pub at_field : List Text → ℕ → Option Text
  unfolding stripped
  at_field parts index = stripped (get_elem? parts index)

  -- `_int`
  unfoldable pub int_field : Option Text → Option ℤ
  int_field none = none
  int_field (some s) = int_of_text s

  -- the tests of `_safe_word`, on the stripped text
  unfoldable pub safe_candidate : ℕ → Text → Option Text
  safe_candidate limit [] = none
  safe_candidate limit (c ∷ s) =
      if ltb limit (length (c ∷ s))
      then none
      else if all_chars u.is_alnum (keep (λ d. not (is_filler d)) (c ∷ s))
      then some (c ∷ s)
      else none

  -- `_safe_word`
  unfoldable pub safe_word : ℕ → Option Text → Option Text
  safe_word limit none = none
  safe_word limit (some value) = safe_candidate limit (strip value)

  -- one sub-field of a group: an empty one stays
  unfoldable pub safe_piece : ℕ → Text → Option Text
  safe_piece limit [] = some []
  safe_piece limit (c ∷ s) = safe_word limit (some (c ∷ s))

  cons_piece : Option Text → Option (List Text) → Option (List Text)
  cons_piece (some p) (some ps) = some (p ∷ ps)
  cons_piece _ _ = none

  -- the loop of `_safe_group`: one bad sub-field refuses the group
  unfoldable pub safe_pieces : ℕ → List Text → Option (List Text)
  unfolding cons_piece
  safe_pieces limit [] = some []
  safe_pieces limit (p ∷ ps) = cons_piece (safe_piece limit (strip p)) (safe_pieces limit ps)

  unfoldable pub joined : Option (List Text) → Option Text
  joined none = none
  joined (some ps) = some (join b',' ps)

  unfoldable pub safe_pieces_of : ℕ → ℕ → Text → Option Text
  safe_pieces_of limit max_parts [] = none
  safe_pieces_of limit max_parts (c ∷ s) =
      let pieces = split b',' (c ∷ s) in
      if ltb limit (length (c ∷ s))
      then none
      else if ltb max_parts (length pieces)
      then none
      else joined (safe_pieces limit pieces)

  -- `_safe_group`
  unfoldable pub safe_group : ℕ → ℕ → Option Text → Option Text
  safe_group limit max_parts none = none
  safe_group limit max_parts (some value) = safe_pieces_of limit max_parts (strip value)

module _ {F : Type 0} ⦃f : Float F⦄ where
  unfoldable pub finite : Option F → Option F
  finite none = none
  finite (some x) = if f.is_finite x then some x else none

  -- `_float`
  unfoldable pub float_field : Option Text → Option F
  unfolding finite
  float_field none = none
  float_field (some s) = finite (f.of_text s)
