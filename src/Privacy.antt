-- ===== src/Privacy.antt =====
-- The tokens of src/uniden_r8/privacy.py, and its test for positions. The keyed hash of `hmac` and
-- `hashlib` under the salt is an argument, and so is the search for `_DECIMAL_PAIR_RE`. `scrub`,
-- which searches text for patterns, and the file of the salt are left out.
pub mod Position
use unidenr8_bluetooth.Prelude.{
  ℕ, zero, suc, ◌+◌, Bool, true, false, not, ◌&&◌, ◌||◌, Option, none, some, List, [], ◌∷◌, ◌++◌,
  ◌==◌, leb, ltb, if◌then◌else◌, length, take, keep, all_of, has,
}
use unidenr8_bluetooth.Prelude.Int.{ℤ}
use unidenr8_bluetooth.Runtime.Text.{Text, codes, mem_text}
use unidenr8_bluetooth.Runtime.Unicode.{Unicode, strip, all_chars}
use unidenr8_bluetooth.Runtime.Json.{
  Json, null, bool, int, float, text, array, object, Items, item, end_items, Members, member,
  end_members,
}

-- `TOKEN_HEX_LEN`
abbrev token_hex_len : ℕ
token_hex_len = 12

-- `COORDINATE_KEYS`
abbrev pub coordinate_keys : List Text
coordinate_keys =
    codes "lat"
    ∷ codes "latitude"
    ∷ codes "lon"
    ∷ codes "long"
    ∷ codes "lng"
    ∷ codes "longitude"
    ∷ codes "coord"
    ∷ codes "coords"
    ∷ codes "coordinate"
    ∷ codes "coordinates"
    ∷ codes "position"
    ∷ codes "gps_lat"
    ∷ codes "gps_lon"
    ∷ []

-- `[0-9a-z]`, and `[A-Za-z0-9]`
abbrev lower_alnum : ℕ → Bool
lower_alnum c = leb b'0' c && leb c b'9' || leb b'a' c && leb c b'z'

abbrev ascii_alnum : ℕ → Bool
ascii_alnum c = lower_alnum c || leb b'A' c && leb c b'Z'

-- `_NAME_SPLIT_RE`, with so many characters left for the first group: the two groups
split_name : ℕ → Text → Option (Text × Text)
split_name n [] = none
split_name zero (c ∷ s) = if has (b'@' ∷ b'-' ∷ b'_' ∷ []) c then some ([], c ∷ s) else none
split_name (suc n) (c ∷ s) =
    let rest = split_name n s in
    if has (b'@' ∷ b'-' ∷ b'_' ∷ []) c
    then some ([], c ∷ s)
    else if ascii_alnum c
    then elim rest [ none ↦ none | some (first, second) ↦ some (c ∷ first, second) ]
    else none

module _ ⦃u : Unicode⦄ (digest : Text → Text) where
  -- `token`; the salt is not empty
  unfoldable pub token : Text → Text → Text
  token value prefix =
      prefix ++ (b':' ∷ take token_hex_len (digest (keep lower_alnum (u.lower value))))

  unfoldable pub redact_address : Text → Text
  redact_address address = token address (codes "ble")

  -- the rest of a name behind its model
  abbrev with_remainder : Text → Text → Text
  with_remainder first [] = first
  with_remainder first (c ∷ remainder) = first ++ (c ∷ token remainder (codes "nam"))

  -- a name that is not split: the pattern asks for a character before the separator
  abbrev whole_name : Text → Text
  whole_name name =
      if all_chars u.is_alnum name && leb (length name) 12 then name else token name (codes "nam")

  redact_stripped : Text → Option (Text × Text) → Text
  redact_stripped [] parts = codes "<unnamed>"
  redact_stripped (c ∷ name) none = whole_name (c ∷ name)
  redact_stripped (c ∷ name) (some ([], second)) = whole_name (c ∷ name)
  redact_stripped (c ∷ name) (some (d ∷ first, second)) = with_remainder (d ∷ first) second

  -- `redact_name`, of a name without line breaks
  unfoldable pub redact_name : Option Text → Text
  unfolding redact_stripped split_name
  redact_name none = codes "<unnamed>"
  redact_name (some name) = redact_stripped (strip name) (split_name 12 (strip name))

module _ {F : Type 0} ⦃u : Unicode⦄ where
  -- a number, or an array that is not empty, under the name of a coordinate
  abbrev pub is_located : Json F → Bool
  is_located (int n) = true
  is_located (float a) = true
  is_located (array (item j items)) = true
  is_located _ = false

  abbrev pub names_position : Text → Json F → Bool
  names_position key j = mem_text (u.lower (strip key)) coordinate_keys && is_located j

module _ {F : Type 0} ⦃u : Unicode⦄ (decimal_pair : Text → Bool) where
  -- `looks_like_position`, at a depth
  unfoldable mutual
    pub position_at : ℕ → Json F → Bool
    position_at depth null = ltb 12 depth
    position_at depth (bool b) = ltb 12 depth
    position_at depth (int n) = ltb 12 depth
    position_at depth (float a) = ltb 12 depth
    position_at depth (text s) = ltb 12 depth || decimal_pair s
    position_at depth (array items) = ltb 12 depth || items_at (depth + 1) items
    position_at depth (object members) = ltb 12 depth || members_at (depth + 1) members

    pub items_at : ℕ → Items F → Bool
    items_at depth end_items = false
    items_at depth (item j items) = position_at depth j || items_at depth items

    pub members_at : ℕ → Members F → Bool
    members_at depth end_members = false
    members_at depth (member key j members) =
        names_position key j || position_at depth j || members_at depth members

  -- `looks_like_position`
  unfoldable pub looks_like_position : Json F → Bool
  looks_like_position j = position_at 0 j
