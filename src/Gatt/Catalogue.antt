-- ===== src/Gatt/Catalogue.antt =====
-- The attribute table at the head of src/uniden_r8/gatt.py: the UUIDs, the catalogue, the sets of
-- UUIDs that each operation may touch and the plans. The `note` of a characteristic is left out.
use unidenr8_bluetooth.Prelude.{
  Bool, true, false, not, ◌&&◌, List, [], ◌∷◌, ◌++◌, map, String, keep,
}
use unidenr8_bluetooth.Runtime.Text.{Text, codes, text_eq}

abbrev pub data_service_uuid : Text
data_service_uuid = codes "18424398-7cbc-11e9-8f9e-2a86e4085a59"

abbrev pub command_service_uuid : Text
command_service_uuid = codes "1842467c-7cbc-11e9-8f9e-2a86e4085a59"

abbrev pub device_information_service_uuid : Text
device_information_service_uuid = codes "0000180a-0000-1000-8000-00805f9b34fb"

abbrev pub telemetry_uuid : Text
telemetry_uuid = codes "6c290d2e-1c03-aca1-ab48-a9b908bae79e"

abbrev pub alert_uuid : Text
alert_uuid = codes "6eb675ab-8bd1-1b9a-7444-621e52ec6823"

abbrev pub poi_uuid : Text
poi_uuid = codes "15005991-b131-3396-014c-664c9867b917"

abbrev pub settings_1_uuid : Text
settings_1_uuid = codes "2d86686a-53dc-25b3-0c4a-f0e10c8dee20"

abbrev pub settings_2_uuid : Text
settings_2_uuid = codes "5a87b4ef-3bfa-76a8-e642-92933c31434f"

abbrev pub command_write_uuid : Text
command_write_uuid = codes "2c86686a-53dc-25b3-0c4a-f0e10c8dee20"

abbrev pub command_response_uuid : Text
command_response_uuid = codes "5987b4ef-3bfa-76a8-e642-92933c31434f"

abbrev pub manufacturer_name_uuid : Text
manufacturer_name_uuid = codes "00002a29-0000-1000-8000-00805f9b34fb"

abbrev pub model_number_uuid : Text
model_number_uuid = codes "00002a24-0000-1000-8000-00805f9b34fb"

abbrev pub firmware_revision_uuid : Text
firmware_revision_uuid = codes "00002a26-0000-1000-8000-00805f9b34fb"

abbrev pub software_revision_uuid : Text
software_revision_uuid = codes "00002a28-0000-1000-8000-00805f9b34fb"

pub data Evidence : Type 0 where
  official : Evidence
  upstream : Evidence
  upstream_unverified : Evidence
  inference : Evidence
  observed : Evidence

pub record Characteristic : Type 0 where
  pub uuid : Text
  pub name : String
  pub service : Text
  pub readable : Bool
  pub notifies : Bool
  pub device_accepts_writes : Bool
  pub evidence : Evidence

unfoldable pub catalogue : List Characteristic
catalogue =
    record {
      uuid = firmware_revision_uuid;
      name = "Firmware Revision String";
      service = device_information_service_uuid;
      readable = true;
      notifies = false;
      device_accepts_writes = false;
      evidence = official;
    }
    ∷ record {
      uuid = software_revision_uuid;
      name = "Software Revision String";
      service = device_information_service_uuid;
      readable = true;
      notifies = false;
      device_accepts_writes = false;
      evidence = official;
    }
    ∷ record {
      uuid = model_number_uuid;
      name = "Model Number String";
      service = device_information_service_uuid;
      readable = true;
      notifies = false;
      device_accepts_writes = false;
      evidence = official;
    }
    ∷ record {
      uuid = manufacturer_name_uuid;
      name = "Manufacturer Name String";
      service = device_information_service_uuid;
      readable = true;
      notifies = false;
      device_accepts_writes = false;
      evidence = official;
    }
    ∷ record {
      uuid = telemetry_uuid;
      name = "Telemetry (ETC data)";
      service = data_service_uuid;
      readable = true;
      notifies = true;
      device_accepts_writes = true;
      evidence = upstream;
    }
    ∷ record {
      uuid = alert_uuid;
      name = "Alerts";
      service = data_service_uuid;
      readable = true;
      notifies = true;
      device_accepts_writes = true;
      evidence = upstream;
    }
    ∷ record {
      uuid = poi_uuid;
      name = "POI database";
      service = data_service_uuid;
      readable = true;
      notifies = false;
      device_accepts_writes = true;
      evidence = upstream;
    }
    ∷ record {
      uuid = settings_1_uuid;
      name = "Settings 1";
      service = data_service_uuid;
      readable = true;
      notifies = false;
      device_accepts_writes = true;
      evidence = upstream;
    }
    ∷ record {
      uuid = settings_2_uuid;
      name = "Settings 2";
      service = data_service_uuid;
      readable = true;
      notifies = false;
      device_accepts_writes = true;
      evidence = upstream;
    }
    ∷ record {
      uuid = command_response_uuid;
      name = "Command response";
      service = command_service_uuid;
      readable = true;
      notifies = true;
      device_accepts_writes = false;
      evidence = upstream_unverified;
    }
    ∷ record {
      uuid = command_write_uuid;
      name = "Command write";
      service = command_service_uuid;
      readable = false;
      notifies = false;
      device_accepts_writes = true;
      evidence = upstream_unverified;
    }
    ∷ []

-- `READABLE_UUIDS` and `NOTIFY_UUIDS`
abbrev pub may_read : Characteristic → Bool
may_read c = c.readable && not (text_eq c.uuid command_response_uuid)

unfoldable pub readable_uuids : List Text
readable_uuids = map (λ c. c.uuid) (keep may_read catalogue)

abbrev pub may_notify : Characteristic → Bool
may_notify c = c.notifies && not (text_eq c.uuid command_response_uuid)

unfoldable pub notify_uuids : List Text
notify_uuids = map (λ c. c.uuid) (keep may_notify catalogue)

abbrev pub forbidden_uuids : List Text
forbidden_uuids = command_write_uuid ∷ []

abbrev pub survey_listen_uuids : List Text
survey_listen_uuids = command_response_uuid ∷ []

abbrev pub live_read_uuids : List Text
live_read_uuids = telemetry_uuid ∷ alert_uuid ∷ []

abbrev pub live_notify_uuids : List Text
live_notify_uuids = telemetry_uuid ∷ alert_uuid ∷ []

abbrev pub inspect_read_uuids : List Text
inspect_read_uuids = poi_uuid ∷ settings_1_uuid ∷ settings_2_uuid ∷ []

-- the plans
abbrev pub identity_read_plan : List Text
identity_read_plan =
    model_number_uuid ∷ manufacturer_name_uuid ∷ firmware_revision_uuid ∷ software_revision_uuid
    ∷ []

-- the verbs of `PROBE_PLAN`
pub data Verb : Type 0 where
  read : Verb
  notify : Verb

abbrev pub probe_plan : List (Verb × Text)
probe_plan =
    map (λ uuid. (read, uuid)) identity_read_plan
    ++ ((read, telemetry_uuid)
        ∷ (read, alert_uuid)
        ∷ (read, settings_1_uuid)
        ∷ (read, settings_2_uuid)
        ∷ (read, poi_uuid)
        ∷ (notify, telemetry_uuid)
        ∷ (notify, alert_uuid)
        ∷ [])

abbrev pub inspect_read_plan : List Text
inspect_read_plan = settings_1_uuid ∷ settings_2_uuid ∷ poi_uuid ∷ []

abbrev pub descriptor_read_plan : List Text
descriptor_read_plan =
    telemetry_uuid ∷ alert_uuid ∷ poi_uuid ∷ settings_1_uuid ∷ settings_2_uuid ∷ []

abbrev pub required_live_attributes : List Text
required_live_attributes = data_service_uuid ∷ telemetry_uuid ∷ alert_uuid ∷ []
