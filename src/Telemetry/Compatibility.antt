-- ===== src/Telemetry/Compatibility.antt =====
-- `check_compatibility` of src/uniden_r8/telemetry.py, on the services of a connected device: each
-- with its UUID and those of its characteristics.
use unidenr8_bluetooth.Prelude.{not, Option, none, some, List, [], ◌∷◌, map, if◌then◌else◌, keep}
use unidenr8_bluetooth.Runtime.Text.{Text, text_eq, mem_text}
use unidenr8_bluetooth.Runtime.Unicode.{Unicode}
use unidenr8_bluetooth.Gatt.Catalogue.{
  data_service_uuid, telemetry_uuid, alert_uuid, required_live_attributes,
}

module _ ⦃u : Unicode⦄ where
  -- the first service that is the data service
  data_service : List (Text × List Text) → Option (List Text)
  data_service [] = none
  data_service ((uuid, characteristics) ∷ services) =
      if text_eq (u.lower uuid) data_service_uuid
      then some characteristics
      else data_service services

  abbrev missing_of : Option (List Text) → List Text
  missing_of none = required_live_attributes
  missing_of (some characteristics) =
      let present = map u.lower characteristics in
      keep (λ uuid. not (mem_text (u.lower uuid) present)) (telemetry_uuid ∷ alert_uuid ∷ [])

  -- the required attributes that the device is missing
  unfoldable pub check_compatibility : List (Text × List Text) → List Text
  unfolding data_service
  check_compatibility services = missing_of (data_service services)
