-- ===== src/Telemetry.antt =====
-- src/uniden_r8/telemetry.py: the vocabularies and the alert record, the field sanitisers, the
-- alert snapshot parser and the telemetry parser.
pub mod Compatibility
pub mod Tables
pub mod Alert
pub mod Fields
pub mod Snapshot
pub mod Packet
