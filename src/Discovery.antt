-- ===== src/Discovery.antt =====
-- The scan report of src/uniden_r8/discovery.py: the bounds of the window, the tiers, and
-- `summarise`. `int(text, 16)` and the keyed hash of the tokens are arguments. The scan itself and
-- the texts of a report are left out.
pub mod Listed
pub mod Window
use unidenr8_bluetooth.Prelude.{
  ℕ, ◌/◌, ◌%◌, ◌++◌, Bool, true, false, not, ◌&&◌, ◌||◌, Option, none, some, List, [], ◌∷◌, map,
  ◌==◌, ltb, if◌then◌else◌, length, take, keep, any_of,
}
use unidenr8_bluetooth.Prelude.Int.{ℤ, pos, negsuc, ltb_ℤ, eqb_ℤ, sub_ℕ, pos_part, neg_part}
use unidenr8_bluetooth.Runtime.Float.{Float, max_float, min_float}
use unidenr8_bluetooth.Runtime.Text.{Text, codes, text_eq, mem_text}
use unidenr8_bluetooth.Runtime.Unicode.{Unicode, strip}
use unidenr8_bluetooth.Gatt.Catalogue.{
  data_service_uuid, command_service_uuid, device_information_service_uuid,
}
use unidenr8_bluetooth.Privacy.{redact_address, redact_name}

pub record Advertisement : Type 0 where
  pub address : Text
  pub name : Option Text
  pub rssi : Option ℤ
  pub service_uuids : List Text

pub data Tier : Type 0 where
  strong possible unnamed other : Tier

pub record Candidate : Type 0 where
  pub token : Text
  pub shown_name : Text
  pub tier : Tier
  pub strength : Option ℤ
  pub random_static : Bool
  pub known : List Text

pub record ScanReport : Type 0 where
  pub total_seen : ℕ
  pub candidates : List Candidate
  pub timed_out : Bool

-- `_STRONG_PREFIXES`, `_POSSIBLE_SUBSTRINGS` and `KNOWN_SERVICES`
abbrev strong_prefixes : List Text
strong_prefixes =
    codes "R8W" ∷ codes "R8" ∷ codes "R9W" ∷ codes "R9" ∷ codes "R4W" ∷ codes "R4" ∷ []

abbrev possible_substrings : List Text
possible_substrings = codes "UNIDEN" ∷ codes "R/TACH" ∷ codes "RTACH" ∷ []

abbrev known_services : List (Text × Text)
known_services =
    (data_service_uuid, codes "uniden-data")
    ∷ (command_service_uuid, codes "uniden-command")
    ∷ (device_information_service_uuid, codes "device-information")
    ∷ []

-- `s.startswith(prefix)`, and `needle in s`
starts_with : Text → Text → Bool
starts_with [] s = true
starts_with (p ∷ prefix) [] = false
starts_with (p ∷ prefix) (c ∷ s) = p == c && starts_with prefix s

contains : Text → Text → Bool
unfolding starts_with
contains needle [] = starts_with needle []
contains needle (c ∷ s) = starts_with needle (c ∷ s) || contains needle s

-- `a < b` of two texts
unfoldable pub text_before : Text → Text → Bool
text_before s [] = false
text_before [] (b ∷ t) = true
text_before (a ∷ s) (b ∷ t) = ltb a b || a == b && text_before s t

module _ {F : Type 0} ⦃f : Float F⦄ where
  -- `MIN_SCAN_SECONDS`, `MAX_SCAN_SECONDS` and `DEFAULT_SCAN_SECONDS`
  abbrev pub min_scan_seconds : F
  min_scan_seconds = f.ratio (pos 3) (pos 1)

  abbrev pub max_scan_seconds : F
  max_scan_seconds = f.ratio (pos 60) (pos 1)

  abbrev pub default_scan_seconds : F
  default_scan_seconds = f.ratio (pos 20) (pos 1)

  -- `bounded_seconds`; `none` is what is no number, or NaN
  unfoldable pub bounded_seconds : Option F → F
  bounded_seconds none = default_scan_seconds
  bounded_seconds (some value) = max_float min_scan_seconds (min_float max_scan_seconds value)

module _ ⦃u : Unicode⦄ where
  abbrev tier_of : Text → Tier
  tier_of upper =
      if any_of
        (λ p.
          text_eq upper p
          || starts_with (p ++ codes "@") upper
          || starts_with (p ++ codes "-") upper)
        strong_prefixes
      then strong
      else if any_of (λ needle. contains needle upper) possible_substrings
      then possible
      else other

  classify_stripped : Text → Tier
  unfolding starts_with contains
  classify_stripped [] = unnamed
  classify_stripped (c ∷ name) = tier_of (u.upper (c ∷ name))

  unfoldable pub classify : Option Text → Tier
  unfolding classify_stripped
  classify none = unnamed
  classify (some name) = classify_stripped (strip name)

module _ ⦃u : Unicode⦄ (int_16 : Text → Option ℕ) where
  -- `first_octet & 0xC0 == 0xC0`
  abbrev two_bits : Option ℕ → Bool
  two_bits none = false
  two_bits (some n) = n / 64 % 4 == 3

  unfoldable pub is_random_static : Text → Bool
  is_random_static address =
      let cleaned = strip (keep (λ c. not (c == b':' || c == b'-')) address) in
      if ltb (length cleaned) 2 then false else two_bits (int_16 (take 2 cleaned))

-- the two `continue`s, of a tier and whether the address is random static
abbrev pub lists_tier : Tier → Bool → Bool
lists_tier other random_static = false
lists_tier unnamed random_static = random_static
lists_tier _ random_static = true

module _ ⦃u : Unicode⦄ (int_16 : Text → Option ℕ) (digest : Text → Text) where
  abbrev services_of : Advertisement → List Text
  services_of a =
      map (λ e. e.1) (keep (λ e. mem_text e.0 (map u.lower a.service_uuids)) known_services)

  -- the `Candidate(...)` of an advertisement
  unfoldable pub candidate_of : Advertisement → Candidate
  candidate_of a = record {
    token = redact_address digest a.address;
    shown_name = redact_name digest a.name;
    tier = classify a.name;
    strength = a.rssi;
    random_static = is_random_static int_16 a.address;
    known = services_of a;
  }

  unfoldable pub is_listed : Advertisement → Bool
  is_listed a = lists_tier (classify a.name) (is_random_static int_16 a.address)

-- `rank`
unfoldable pub rank : Tier → ℕ
rank strong = 0
rank possible = 1
rank unnamed = 2
rank other = 3

-- `-(c.rssi or -999)`
weakness : Option ℤ → ℤ
weakness none = pos 999
weakness (some n) = if eqb_ℤ n (pos 0) then pos 999 else sub_ℕ (neg_part n) (pos_part n)

-- the order of the keys
unfoldable pub key_before : Candidate → Candidate → Bool
unfolding weakness
key_before a b =
    let x = weakness a.strength in
    let y = weakness b.strength in
    if ltb (rank a.tier) (rank b.tier)
    then true
    else if ltb (rank b.tier) (rank a.tier)
    then false
    else if ltb_ℤ x y
    then true
    else if ltb_ℤ y x
    then false
    else text_before a.token b.token

unfoldable pub insert_candidate : Candidate → List Candidate → List Candidate
insert_candidate c [] = c ∷ []
insert_candidate c (d ∷ candidates) =
    let later = insert_candidate c candidates in
    if key_before d c then d ∷ later else c ∷ d ∷ candidates

-- `candidates.sort(...)`, a stable sort
unfoldable pub sort_candidates : List Candidate → List Candidate
sort_candidates [] = []
sort_candidates (c ∷ candidates) = insert_candidate c (sort_candidates candidates)

module _ ⦃u : Unicode⦄ (int_16 : Text → Option ℕ) (digest : Text → Text) where
  unfoldable pub summarise : List Advertisement → Bool → ScanReport
  unfolding sort_candidates
  summarise seen timed_out = record {
    total_seen = length seen;
    candidates =
        sort_candidates (map (candidate_of int_16 digest) (keep (is_listed int_16 digest) seen));
    timed_out = timed_out;
  }
