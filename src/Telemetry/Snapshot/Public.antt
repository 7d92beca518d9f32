-- ===== src/Telemetry/Snapshot/Public.antt =====
-- What an alert that the parser accepted can carry.
use mathlib.Core.Option.{some-injective}
use unidenr8_bluetooth.Prelude.{
  ℕ, ◌≡◌, refl, true, false, Option, none, some, List, ◌⊎◌, inl, inr, arith, Bool-cases, if-some,
  is_some,
}
use unidenr8_bluetooth.Prelude.Int.{ℤ, pos, ◌≤ℤ◌}
use unidenr8_bluetooth.Runtime.Text.{Text, mem_text, split}
use unidenr8_bluetooth.Runtime.Float.{Float}
use unidenr8_bluetooth.Runtime.Unicode.{Unicode}
use unidenr8_bluetooth.Telemetry.Tables.{lookup, directions, bands}
use unidenr8_bluetooth.Telemetry.Alert.{Alert}
use unidenr8_bluetooth.Telemetry.Fields.{at_field, int_field, float_field, finite, safe_word}
use unidenr8_bluetooth.Telemetry.Fields.Safe.{word_char, IsWithin, safe_word-IsWithin}
use unidenr8_bluetooth.Telemetry.Snapshot.{
  strength_in_range, passes_gate, published_band, frequency_of, gun_id_of, slot_alert, parse_slot,
  normalised,
}

-- `P` of the value, if there is one
abbrev pub Known : {A : Type 0} → (A → Type 0) → Option A → Type 0
Known P none = Unit {0}
Known P (some a) = P a

-- An alert that may be shown: a strength of 1 to 8, a documented band or a short plain word, a
-- documented direction, plain short words elsewhere, a finite frequency, and never a frequency
-- together with a laser gun, nor either of them for an undocumented band.
pub record IsPublic {F : Type 0} ⦃f : Float F⦄ ⦃u : Unicode⦄ (a : Alert F) : Type 0 where
  pub strong : (n : ℤ) × (a.strength ≡ some n) × (pos 1 ≤ℤ n) × (n ≤ℤ pos 8)
  pub plain_band : (mem_text a.band bands ≡ true) ⊎ IsWithin word_char 16 a.band
  pub known_direction : Known (λ d. is_some (lookup d directions) ≡ true) a.direction
  pub plain_direction : Known (IsWithin word_char 4) a.direction_raw
  pub plain_mute : Known (IsWithin word_char 4) a.mute_code
  pub plain_id : Known (IsWithin word_char 8) a.alert_id_raw
  pub plain_field_5 : Known (IsWithin word_char 12) a.field_5_raw
  pub plain_mode : Known (IsWithin word_char 8) a.receive_mode_raw
  pub finite_frequency : Known (λ x. f.is_finite x ≡ true) a.frequency_ghz
  pub one_reading : (a.frequency_ghz ≡ none) ⊎ (a.laser_gun_id ≡ none)
  pub unread : a.band_recognised ≡ false → (a.frequency_ghz ≡ none) × (a.laser_gun_id ≡ none)

module _ ⦃u : Unicode⦄ where
  pub safe_word-Known :
      (limit : ℕ) (o : Option Text) → Known (IsWithin word_char limit) (safe_word limit o)
  unfolding safe_word
  safe_word-Known limit none = tt
  safe_word-Known limit (some value) = go (safe_word limit (some value)) refl
    where
      go : (w : Option Text) → safe_word limit (some value) ≡ w → Known (IsWithin word_char limit) w
      go none e = tt
      go (some w) e = (safe_word-IsWithin limit value w e).1

  published_band-plain :
      (band shown : Text)
      → published_band band ≡ some shown
      → (mem_text shown bands ≡ true) ⊎ IsWithin word_char 16 shown
  unfolding published_band
  published_band-plain band shown h = elim (Bool-cases (mem_text band bands)) [
    | inl known ↦ let e : band ≡ shown = ground arith in inl (rw (← e) known)
    | inr other ↦ inr (safe_word-IsWithin 16 band shown (ground arith)).1
  ]

  in_range :
      (o : Option ℤ)
      → strength_in_range o ≡ true
      → (n : ℤ) × (o ≡ some n) × (pos 1 ≤ℤ n) × (n ≤ℤ pos 8)
  unfolding strength_in_range
  in_range none h = absurd (cc h)
  in_range (some n) h = (n, refl, ground arith, ground arith)

module _ (F : Type 0) ⦃f : Float F⦄ ⦃u : Unicode⦄ where
  pub float_field-finite :
      (o : Option Text) → Known (λ (x : F). f.is_finite x ≡ true) (float_field o)
  unfolding float_field finite
  float_field-finite none = tt
  float_field-finite (some s) = ground arith

  frequency_of-finite :
      (band : Text) (info : Option Text)
      → Known (λ (x : F). f.is_finite x ≡ true) (frequency_of band info)
  unfolding frequency_of
  frequency_of-finite band info = ground (arith, float_field-finite info)

  one_of :
      (band : Text) (info : Option Text)
      → (frequency_of {F = F} band info ≡ none) ⊎ (gun_id_of band info ≡ none)
  unfolding frequency_of gun_id_of
  one_of band info = ground arith

module _ {F : Type 0} ⦃f : Float F⦄ ⦃u : Unicode⦄ where
  slot_alert-IsPublic :
      (fields : List Text) (slot : ℕ) (band : Text) (o : Option Text) (a : Alert F)
      → strength_in_range (int_field (at_field fields 3)) ≡ true
      → published_band band ≡ o
      → slot_alert fields slot band o ≡ some a
      → IsPublic a
  unfolding slot_alert frequency_of gun_id_of
  slot_alert-IsPublic fields slot band none a s b h = absurd (cc h)
  slot_alert-IsPublic fields slot band (some shown) a s b h =
      let e = some-injective _ a h in
      rw (← e) (record {
        strong = in_range (int_field (at_field fields 3)) s;
        plain_band = published_band-plain band shown b;
        known_direction = ground arith;
        plain_direction = safe_word-Known 4 (some (normalised (at_field fields 6)));
        plain_mute = safe_word-Known 4 (at_field fields 7);
        plain_id = safe_word-Known 8 (at_field fields 1);
        plain_field_5 = safe_word-Known 12 (at_field fields 5);
        plain_mode = safe_word-Known 8 (at_field fields 8);
        finite_frequency = frequency_of-finite F band (at_field fields 5);
        one_reading = one_of F band (at_field fields 5);
        unread = λ k. (rw k, rw k);
      })

  -- Whatever text a slot holds, an alert that `_parse_slot` returns for it may be shown.
  pub parse_slot-IsPublic :
      (segment : Text) (slot : ℕ) (a : Alert F) → parse_slot segment slot ≡ some a → IsPublic a
  unfolding parse_slot passes_gate
  parse_slot-IsPublic segment slot a h =
      let fields = split b',' segment in
      let band = normalised (at_field fields 2) in
      let (ready, accepted) =
        if-some (passes_gate fields) (slot_alert fields slot band (published_band band)) a h in
      slot_alert-IsPublic fields slot band _ a (ground arith) refl accepted
