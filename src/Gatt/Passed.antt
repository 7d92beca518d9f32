-- ===== src/Gatt/Passed.antt =====
-- Canonical UUIDs, and what a gate has checked when it returns.
use unidenr8_bluetooth.Prelude.{
  ℕ, ◌≡◌, ◌⊎◌, refl, Bool, true, false, not, ◌&&◌, ◌||◌, Option, none, some, List, [], ◌∷◌, map,
  leb, ◌==◌, if◌then◌else◌, all_of, keep, Any, arith, Bool-cases, inl, inr, ap, sym, ◌∙◌, subst,
}
use unidenr8_bluetooth.Runtime.Text.{Text, text_eq, text_eq_sound, mem_text}
use unidenr8_bluetooth.Runtime.Text.Lengths.{strip_by-none}
use unidenr8_bluetooth.Runtime.Unicode.{Unicode, strip}
use unidenr8_bluetooth.Gatt.Catalogue.{Characteristic, catalogue, forbidden_uuids}
use unidenr8_bluetooth.Gatt.{
  Outcome, returned, unknown_characteristic, write_refused, and_then, by_uuid, normalize_uuid,
  known, describe, assert_not_forbidden, allowed_in, narrowed_to,
}

-- what is tested of every text of a list holds of one that is in it
pub listed-test :
    (test : Text → Bool) (s : Text) (xs : List Text)
    → all_of test xs ≡ true
    → mem_text s xs ≡ true
    → test s ≡ true
unfolding mem_text
listed-test test s [] h k = absurd (cc k)
listed-test test s (x ∷ xs) h k = elim (Bool-cases (text_eq s x)) [
  | inl here ↦ rw (text_eq_sound s x here) (ground arith)
  | inr other ↦ listed-test test s xs (ground arith) (rw other at k)
]

pub by_uuid-Any :
    (s : Text) (test offered : Characteristic → Bool)
    → ((c : Characteristic) → test c ≡ true → offered c ≡ true)
    → (cs : List Characteristic) → mem_text s (map (λ c. c.uuid) (keep test cs)) ≡ true
    → Any (λ c. (s ≡ c.uuid) × (offered c ≡ true)) cs
unfolding mem_text
by_uuid-Any s test offered w [] h = absurd (cc h)
by_uuid-Any s test offered w (c ∷ cs) h = elim (Bool-cases (test c)) [
  | inr off ↦ inr (by_uuid-Any s test offered w cs (rw off at h))
  | inl on ↦ elim (Bool-cases (text_eq s c.uuid)) [
    | inl e ↦ inl (text_eq_sound s c.uuid e, w c on)
    | inr e ↦ inr (by_uuid-Any s test offered w cs (ground arith))
  ]
]

-- a character of a canonical UUID
abbrev pub is_mark : ℕ → Bool
is_mark c = leb b'0' c && leb c b'9' || leb b'a' c && leb c b'f' || c == b'-'

-- `str.lower` leaves a text of decimal digits, letters a to f and hyphens as it is, and none of
-- these is white space.
pub record KeepsMarks ⦃u : Unicode⦄ : Type 0 where
  pub kept : (s : Text) → all_of is_mark s ≡ true → u.lower s ≡ s
  pub no_space : (c : ℕ) → is_mark c ≡ true → u.is_space c ≡ false

-- a UUID that a catalogue lists is found in it, and is of these characters if all of them are
by_uuid-found :
    (s : Text) (cs : List Characteristic)
    → mem_text s (map (λ c. c.uuid) cs) ≡ true
    → (e : Characteristic) × (by_uuid s cs ≡ some e)
unfolding mem_text by_uuid
by_uuid-found s [] h = absurd (cc h)
by_uuid-found s (c ∷ cs) h = elim (Bool-cases (text_eq s c.uuid)) [
  | inl here ↦ (c, rw here refl)
  | inr other ↦ let (e, found) = by_uuid-found s cs (rw other at h) in (e, rw other found)
]

listed-marks :
    (s : Text) (cs : List Characteristic)
    → all_of (λ c. all_of is_mark c.uuid) cs ≡ true
    → mem_text s (map (λ c. c.uuid) cs) ≡ true
    → all_of is_mark s ≡ true
unfolding mem_text
listed-marks s [] m h = absurd (cc h)
listed-marks s (c ∷ cs) m h = elim (Bool-cases (text_eq s c.uuid)) [
  | inl here ↦ rw (text_eq_sound s c.uuid here) (ground arith)
  | inr other ↦ listed-marks s cs (ground arith) (rw other at h)
]

catalogue-marks : all_of (λ c. all_of is_mark c.uuid) catalogue ≡ true
unfolding catalogue
catalogue-marks = refl

module _ ⦃u : Unicode⦄ where
  marks-no_space :
      KeepsMarks → (s : Text) → all_of is_mark s ≡ true → all_of (λ c. not (u.is_space c)) s ≡ true
  marks-no_space k [] h = refl
  marks-no_space k (c ∷ s) h = ground (arith, k.no_space c, marks-no_space k s)

  pub normalize_uuid-marks :
      KeepsMarks → (s : Text) → all_of is_mark s ≡ true → normalize_uuid s ≡ s
  unfolding normalize_uuid strip
  normalize_uuid-marks k s h =
      ap u.lower (strip_by-none u.is_space s (marks-no_space k s h)) ∙ k.kept s h

  -- what a successful gate has checked
  pub record Passed (uuids : List Text) (uuid c : Text) : Type 0 where
    pub normal : c ≡ normalize_uuid uuid
    pub allowed : mem_text c forbidden_uuids ≡ false
    pub listed : mem_text c uuids ≡ true
    pub described : (e : Characteristic) × (describe c ≡ returned e)

  known-cases :
      (uuid : Text)
      → (describe uuid ≡ unknown_characteristic)
        ⊎ ((e : Characteristic) × (describe uuid ≡ returned e))
  unfolding describe
  known-cases uuid = go (by_uuid (normalize_uuid uuid) catalogue)
    where
      go :
          (o : Option Characteristic)
          → (known o ≡ unknown_characteristic) ⊎ ((e : Characteristic) × (known o ≡ returned e))
      go none = inl refl
      go (some e) = inr (e, refl)

  pub allowed_in-Passed :
      (uuids : List Text) (uuid c : Text) → allowed_in uuids uuid ≡ returned c → Passed uuids uuid c
  unfolding allowed_in assert_not_forbidden and_then
  allowed_in-Passed uuids uuid c h =
      let n = normalize_uuid uuid in
      elim (Bool-cases (mem_text n forbidden_uuids)) [
        | inl bad ↦ absurd (cc (rw bad at h))
        | inr good ↦ elim (known-cases n) [
          | inl missing ↦ absurd (cc (rw (good, missing) at h))
          | inr (e, found) ↦ elim (Bool-cases (mem_text n uuids)) [
            | inr off ↦ absurd (cc (rw (good, found, off) at h))
            | inl on ↦
                let same : n ≡ c = cc (rw (good, found, on) at h) in
                subst (Passed uuids uuid) same
                  (record { normal = refl; allowed = good; listed = on; described = (e, found) })
          ]
        ]
      ]

  -- a UUID of the catalogue is described, and a permitted one is returned
  described_uuid :
      KeepsMarks
      → (n : Text) → mem_text n (map (λ c. c.uuid) catalogue) ≡ true
      → (e : Characteristic) × (describe n ≡ returned e)
  unfolding describe
  described_uuid k n h =
      let (e, found) = by_uuid-found n catalogue h in
      let marks = listed-marks n catalogue catalogue-marks h in
      (e, ap (λ t. known (by_uuid t catalogue)) (normalize_uuid-marks k n marks) ∙ ap known found)

  -- the tests of a gate
  abbrev pub passes : List Text → Text → Bool
  passes uuids t =
      mem_text t (map (λ c. c.uuid) catalogue)
      && mem_text t uuids
      && not (mem_text t forbidden_uuids)

  -- a gate returns what is in a list of UUIDs that all pass its tests
  pub allowed_in-returned :
      KeepsMarks
      → (uuids plan : List Text) → all_of (passes uuids) plan ≡ true
      → (uuid : Text) → mem_text (normalize_uuid uuid) plan ≡ true
      → allowed_in uuids uuid ≡ returned (normalize_uuid uuid)
  unfolding allowed_in assert_not_forbidden and_then
  allowed_in-returned k uuids plan all uuid h =
      let n = normalize_uuid uuid in
      let ok : passes uuids n ≡ true = listed-test (passes uuids) n plan all h in
      let (e, found) = described_uuid k n (ground arith) in
      let listed : mem_text n uuids ≡ true = ground arith in
      let good : mem_text n forbidden_uuids ≡ false = ground arith in rw (good, found, listed) refl

  -- the narrower sets
  pub narrowed_to-Passed :
      (uuids : List Text) (permitted : Outcome Text) (c : Text)
      → narrowed_to uuids permitted ≡ returned c
      → (permitted ≡ returned c) × (mem_text c uuids ≡ true)
  unfolding narrowed_to and_then
  narrowed_to-Passed uuids unknown_characteristic c h = absurd (cc h)
  narrowed_to-Passed uuids write_refused c h = absurd (cc h)
  narrowed_to-Passed uuids (returned n) c h = elim (Bool-cases (mem_text n uuids)) [
    | inl on ↦
        let same : n ≡ c = cc (rw on at h) in
        (ap returned same, ap (λ t. mem_text t uuids) (sym same) ∙ on)
    | inr off ↦ elim (known-cases n) [
      | inl missing ↦ absurd (cc (rw (off, missing) at h))
      | inr (e, found) ↦ absurd (cc (rw (off, found) at h))
    ]
  ]

  pub narrowed_to-other :
      (uuids : List Text) (c : Text)
      → (e : Characteristic) × (describe c ≡ returned e)
      → narrowed_to uuids (returned c) ≡ (if mem_text c uuids then returned c else write_refused)
  unfolding narrowed_to and_then
  narrowed_to-other uuids c (e, found) = elim (Bool-cases (mem_text c uuids)) [
    | inl on ↦ rw on refl
    | inr off ↦ rw (off, found) refl
  ]
