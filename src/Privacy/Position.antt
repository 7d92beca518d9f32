-- ===== src/Privacy/Position.antt =====
-- The test for positions of src/uniden_r8/privacy.py, against what it is to find.
use unidenr8_bluetooth.Prelude.{
  ℕ, suc, ◌+◌, ◌≤◌, ◌≡◌, ◌≢◌, ◌↔◌, ◌⊎◌, inl, inr, List, [], ◌∷◌, All, Bool-cases, refl, Bool, false,
  ◌&&◌, ◌||◌, if◌then◌else◌, leb, arith,
}
use unidenr8_bluetooth.Runtime.Text.{Text, codes, mem_text, mem_text-none}
use unidenr8_bluetooth.Runtime.Unicode.{Unicode, strip}
use unidenr8_bluetooth.Runtime.Json.{
  Json, null, bool, int, float, text, array, object, Items, item, end_items, Members, member,
  end_members,
}
use unidenr8_bluetooth.Privacy.{
  is_located, names_position, position_at, items_at, members_at, looks_like_position,
}

abbrev larger : ℕ → ℕ → ℕ
larger m n = if leb m n then n else m

-- the names under which a place is told
abbrev pub places : List Text
places =
    codes "lat"
    ∷ codes "latitude"
    ∷ codes "lon"
    ∷ codes "long"
    ∷ codes "lng"
    ∷ codes "longitude"
    ∷ codes "coord"
    ∷ codes "coords"
    ∷ codes "coordinate"
    ∷ codes "coordinates"
    ∷ codes "position"
    ∷ codes "gps_lat"
    ∷ codes "gps_lon"
    ∷ []

or_none : {a b c : Bool} → a ≡ false → b ≡ false → c ≡ false → (a || b || c) ≡ false
or_none h k l = rw (h, k, l) refl

module _ ⦃u : Unicode⦄ where
  -- a key that, without the space around it and in lower case, is the name of no place
  abbrev pub IsElsewhere : Text → Type 0
  IsElsewhere key = All (λ name. u.lower (strip key) ≢ name) places

module _ {F : Type 0} ⦃u : Unicode⦄ where
  -- neither a number nor an array with an item
  abbrev pub IsPlain : Json F → Type 0
  IsPlain (int n) = ⊥
  IsPlain (float a) = ⊥
  IsPlain (array (item j items)) = ⊥
  IsPlain _ = Unit {0}

  named_none :
      (key : Text) (j : Json F) → (names_position key j ≡ false) ↔ (IsElsewhere key ⊎ IsPlain j)
  named_none key j =
      let (there, back) = mem_text-none (u.lower (strip key)) places in
      (
        λ h. elim (Bool-cases (mem_text (u.lower (strip key)) places)) [
          | inr out ↦ inl (there out)
          | inl named ↦ inr (plain j (cc (rw named at h)))
        ],
        λ o. elim o [
          | inl elsewhere ↦ rw (back elsewhere) refl
          | inr kind ↦ plain_none j (mem_text (u.lower (strip key)) places) kind
        ],
      )
    where
      plain : (j : Json F) → is_located j ≡ false → IsPlain j
      plain null h = tt
      plain (bool b) h = tt
      plain (int n) h = absurd (cc h)
      plain (float a) h = absurd (cc h)
      plain (text s) h = tt
      plain (array end_items) h = tt
      plain (array (item i items)) h = absurd (cc h)
      plain (object members) h = tt

      plain_none : (j : Json F) (b : Bool) → IsPlain j → (b && is_located j) ≡ false
      plain_none null b h = ground arith
      plain_none (bool b') b h = ground arith
      plain_none (int n) b h = absurd h
      plain_none (float a) b h = absurd h
      plain_none (text s) b h = ground arith
      plain_none (array end_items) b h = ground arith
      plain_none (array (item i items)) b h = absurd h
      plain_none (object members) b h = ground arith

module _ {F : Type 0} ⦃u : Unicode⦄ (decimal_pair : Text → Bool) where
  -- no text of the document holds a decimal pair, and no place is told under a name of one
  mutual
    pub IsFree : Json F → Type 0
    IsFree null = Unit {0}
    IsFree (bool b) = Unit {0}
    IsFree (int n) = Unit {0}
    IsFree (float a) = Unit {0}
    IsFree (text s) = decimal_pair s ≡ false
    IsFree (array items) = AreFree items
    IsFree (object members) = MembersFree members

    AreFree : Items F → Type 0
    AreFree end_items = Unit {0}
    AreFree (item j items) = IsFree j × AreFree items

    MembersFree : Members F → Type 0
    MembersFree end_members = Unit {0}
    MembersFree (member key j members) =
        (IsElsewhere key ⊎ IsPlain j) × IsFree j × MembersFree members

  -- how deep the values of the document are nested
  mutual
    pub height : Json F → ℕ
    height null = 0
    height (bool b) = 0
    height (int n) = 0
    height (float a) = 0
    height (text s) = 0
    height (array items) = item_height items
    height (object members) = member_height members

    item_height : Items F → ℕ
    item_height end_items = 0
    item_height (item j items) = larger (suc (height j)) (item_height items)

    member_height : Members F → ℕ
    member_height end_members = 0
    member_height (member key j members) = larger (suc (height j)) (member_height members)

  -- within the depth that the test walks
  Clear : ℕ → Json F → Type 0
  Clear d j = (d + height j ≤ 12) × IsFree j

  mutual
    unfolding position_at items_at members_at height item_height member_height IsFree AreFree
        MembersFree Clear

    found_none : (d : ℕ) (j : Json F) → position_at decimal_pair d j ≡ false → Clear d j
    found_none d null h = (ground arith, tt)
    found_none d (bool b) h = (ground arith, tt)
    found_none d (int n) h = (ground arith, tt)
    found_none d (float a) h = (ground arith, tt)
    found_none d (text s) h = (ground arith, ground arith)
    found_none d (array items) h = none_of_items d items (ground arith) (ground arith)
    found_none d (object members) h = none_of_members d members (ground arith) (ground arith)

    none_of_items :
        (d : ℕ) (items : Items F)
        → d ≤ 12
        → items_at decimal_pair (d + 1) items ≡ false
        → (d + item_height items ≤ 12) × AreFree items
    none_of_items d end_items k h = (omega arith, tt)
    none_of_items d (item j items) k h =
        let (low, free) = found_none (d + 1) j (ground arith) in
        let (later, rest) = none_of_items d items k (ground arith) in
        (ground (arith, low, later), (free, rest))

    none_of_members :
        (d : ℕ) (members : Members F)
        → d ≤ 12
        → members_at decimal_pair (d + 1) members ≡ false
        → (d + member_height members ≤ 12) × MembersFree members
    none_of_members d end_members k h = (omega arith, tt)
    none_of_members d (member key j members) k h =
        let (low, free) = found_none (d + 1) j (ground arith) in
        let (later, rest) = none_of_members d members k (ground arith) in
        (ground (arith, low, later), ((named_none key j).0 (ground arith), free, rest))

  mutual
    unfolding position_at items_at members_at height item_height member_height IsFree AreFree
        MembersFree Clear

    nothing_found : (d : ℕ) (j : Json F) → Clear d j → position_at decimal_pair d j ≡ false
    nothing_found d null (k, free) = ground arith
    nothing_found d (bool b) (k, free) = ground arith
    nothing_found d (int n) (k, free) = ground arith
    nothing_found d (float a) (k, free) = ground arith
    nothing_found d (text s) (k, free) = ground arith
    nothing_found d (array items) (k, free) = ground (arith, nothing_in_items d items k free)
    nothing_found d (object members) (k, free) = ground (arith, nothing_in_members d members k free)

    nothing_in_items :
        (d : ℕ) (items : Items F)
        → d + item_height items ≤ 12
        → AreFree items
        → items_at decimal_pair (d + 1) items ≡ false
    nothing_in_items d end_items k free = refl
    nothing_in_items d (item j items) k (free, rest) =
        let here = nothing_found (d + 1) j (ground arith, free) in
        let later = nothing_in_items d items (ground arith) rest in ground (arith, here, later)

    nothing_in_members :
        (d : ℕ) (members : Members F)
        → d + member_height members ≤ 12
        → MembersFree members
        → members_at decimal_pair (d + 1) members ≡ false
    nothing_in_members d end_members k free = refl
    nothing_in_members d (member key j members) k (named, free, rest) =
        let here = nothing_found (d + 1) j (ground arith, free) in
        let later = nothing_in_members d members (ground arith) rest in
        or_none ((named_none key j).1 named) here later

  -- A document passes the test for positions exactly if its values are nested at most twelve deep, no
  -- text in it holds a decimal pair, and nowhere in it a name of a coordinate, in any case or
  -- spacing, has a number or an array that is not empty.
  pub looks_like_position_iff :
      (j : Json F) → (looks_like_position decimal_pair j ≡ false) ↔ ((height j ≤ 12) × IsFree j)
  unfolding looks_like_position Clear
  looks_like_position_iff j = (
    λ h. let (low, free) = found_none 0 j h in (omega (arith, low), free),
    λ (low, free). nothing_found 0 j (omega (arith, low), free),
  )
