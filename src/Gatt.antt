-- ===== src/Gatt.antt =====
-- The gates of src/uniden_r8/gatt.py: which UUID each operation may read or subscribe to. An
-- exception is an outcome; the texts of the exceptions are left out.
pub mod Catalogue
pub mod Passed
pub mod Gates
pub mod Plans
use unidenr8_bluetooth.Prelude.{Bool, not, Option, none, some, List, [], ◌∷◌, if◌then◌else◌}
use unidenr8_bluetooth.Runtime.Text.{Text, text_eq, mem_text}
use unidenr8_bluetooth.Runtime.Unicode.{Unicode, strip}
use unidenr8_bluetooth.Gatt.Catalogue.{
  Characteristic, catalogue, readable_uuids, notify_uuids, forbidden_uuids, survey_listen_uuids,
  live_read_uuids, live_notify_uuids, inspect_read_uuids,
}

-- what a gate does: it returns, or raises `UnknownCharacteristic` or `WriteRefused`
pub data Outcome {ℓ} (A : Type ℓ) : Type ℓ where
  returned : A → Outcome A
  unknown_characteristic : Outcome A
  write_refused : Outcome A

unfoldable pub and_then {ℓ ℓ'} :
    {A : Type ℓ} {B : Type ℓ'} → Outcome A → (A → Outcome B) → Outcome B
and_then (returned a) f = f a
and_then unknown_characteristic f = unknown_characteristic
and_then write_refused f = write_refused

-- `_BY_UUID.get(uuid)`
unfoldable pub by_uuid : Text → List Characteristic → Option Characteristic
by_uuid uuid [] = none
by_uuid uuid (c ∷ cs) = if text_eq uuid c.uuid then some c else by_uuid uuid cs

module _ ⦃u : Unicode⦄ where
  unfoldable pub normalize_uuid : Text → Text
  normalize_uuid uuid = u.lower (strip uuid)

  abbrev known : Option Characteristic → Outcome Characteristic
  known none = unknown_characteristic
  known (some c) = returned c

  unfoldable pub describe : Text → Outcome Characteristic
  describe uuid = known (by_uuid (normalize_uuid uuid) catalogue)

  unfoldable pub assert_not_forbidden : Text → Outcome Text
  assert_not_forbidden uuid =
      let canonical = normalize_uuid uuid in
      if mem_text canonical forbidden_uuids then write_refused else returned canonical

  -- `assert_readable` and `assert_notifiable` differ in the set
  unfoldable pub allowed_in : List Text → Text → Outcome Text
  unfolding and_then
  allowed_in uuids uuid = and_then (assert_not_forbidden uuid) (λ canonical.
      and_then (describe canonical)
        (λ entry. if not (mem_text canonical uuids) then write_refused else returned canonical))

  unfoldable pub assert_readable : Text → Outcome Text
  assert_readable uuid = allowed_in readable_uuids uuid

  unfoldable pub assert_notifiable : Text → Outcome Text
  assert_notifiable uuid = allowed_in notify_uuids uuid

  -- a second, narrower set; the message of the refusal looks the entry up
  unfoldable pub narrowed_to : List Text → Outcome Text → Outcome Text
  unfolding and_then
  narrowed_to uuids permitted = and_then permitted (λ canonical.
      if not (mem_text canonical uuids)
      then and_then (describe canonical) (λ entry. write_refused)
      else returned canonical)

  unfoldable pub assert_inspect_readable : Text → Outcome Text
  assert_inspect_readable uuid = narrowed_to inspect_read_uuids (assert_readable uuid)

  unfoldable pub assert_live_readable : Text → Outcome Text
  assert_live_readable uuid = narrowed_to live_read_uuids (assert_readable uuid)

  unfoldable pub assert_live_notifiable : Text → Outcome Text
  assert_live_notifiable uuid = narrowed_to live_notify_uuids (assert_notifiable uuid)

  unfoldable pub assert_survey_notifiable : Text → Outcome Text
  assert_survey_notifiable uuid =
      let permitted = normalize_uuid uuid in
      if mem_text permitted forbidden_uuids
      then write_refused
      else if not (mem_text permitted survey_listen_uuids)
      then write_refused
      else returned permitted

-- `refuse_command`
unfoldable pub refuse_command : Text → Outcome (Unit {0})
refuse_command command = write_refused
