-- ===== src/Lib.antt =====
-- The verification of the Bluetooth monitor of the Uniden R8 radar detector (src/uniden_r8).
--
-- A detector sends packets of text. Each notification is numbered and queued by an `Ingest`, which
-- never blocks the radio's callback: when it is full the oldest record goes, and a gap says which.
-- The consumer parses each packet; an alert packet is a snapshot of up to a few readings, and
-- `AlertTracker` folds it into tracks, one per threat, emitting a start, updates and an end. A
-- session of the collector ties the three together: it checks the device, reads and subscribes to
-- two characteristics, each call through a gate, streams, and clears what it showed when the link
-- goes away.
--
-- Modules, and the code that each models:
--   Runtime.Text, Runtime.Unicode   `str` as its code points, `split`, `join`, `strip`, `int(text)`
--   Runtime.Float                   the float operations that the code uses
--   Telemetry.Tables                the tables at the head of src/uniden_r8/telemetry.py
--   Telemetry.Alert                 `Alert` of src/uniden_r8/telemetry.py
--   Telemetry.Fields                `_text`, `_at`, `_float`, `_int`, `_safe_word`, `_safe_group`
--   Telemetry.Snapshot              `_parse_slot`, `_describe_unreadable`, `parse_alert_snapshot`
--   Telemetry.Packet                `DetectorGps`, `PoiWarning`, `Telemetry`, `parse_telemetry`
--   Events.Ingest                   `Notification`, `Gap`, `IngestMetrics`, `Ingest`, and all below
--                                   Events, of src/uniden_r8/events.py
--   Events.Matching                 `band_family`, `_tolerance`, `match_cost`, `_direction_cost`
--   Events.Track                    `AlertKey`, `AlertTrack` with `absorb`, `_material_change`
--   Events.Tracker                  `AlertEvent`, `AlertTracker` with `observe`, `close`, `_end`
--   Events.Tracker.Assign           `AlertTracker._assign`
--   Collector                       `_Session._on_notification`, `_consume`, `_apply`, `Timing.record`
--                                   and the counters of `CollectorState`, of src/uniden_r8/collector.py
--   Collector.Link, Collector.Pump, Collector.Run
--                                   `_Session.run` and `_pump`, with `_dispatch` and `_publish`
--   Collector.Backoff               `next_backoff`
--   Telemetry.Compatibility         `check_compatibility` of src/uniden_r8/telemetry.py
--   Gatt.Catalogue, Gatt            the attribute table and the gates of src/uniden_r8/gatt.py
--   Layouts                         `record_boundaries`, `evaluate_layouts` of
--                                   src/uniden_r8/inspection.py,
--                                   `_walk_with_offsets` of src/uniden_r8/poi_diff.py
--   Feed                            the backlog of a viewer, `_Client` of src/uniden_r8/feed.py
--   Runtime.Json, Gnss              JSON values, and `Fix` and `GnssClient` of src/uniden_r8/gnss.py
--   Pairing                         the commands that src/uniden_r8/pairing.py may send
--   Privacy                         `token`, `redact_name`, `looks_like_position` of
--                                   src/uniden_r8/privacy.py
--   Discovery                       the tiers and `summarise` of src/uniden_r8/discovery.py
--   Config.Schema, Config           the settings and their validation, of src/uniden_r8/config.py
--   Layouts.Point, Layouts.Diff     `haversine_metres`, `decode_point`, `diff_payloads` of
--                                   src/uniden_r8/poi_diff.py
-- The modules below each of these hold its proofs; Tests holds runs on concrete input.
--
-- How the code is written in the model:
--   An object is a record and a method is a function to the changed record. A dictionary is an
--   association list in insertion order; the open tracks are the list of its values, each under
--   its `track_id`. The reads of the clocks are arguments. A ValueError or a KeyError is `none`.
--   `for` and `while` loops are recursions over the list that they consume, but for three with
--   fuel. The loop of `_consume` gets one round more than there are records in the queue, of
--   which each round takes one. The walks over a layout get one round for each byte, which is
--   enough where no record has length 0 (with such a record the source does not return). The
--   digits of a number are at most as many as the number and one.
--   Records, tracks and clocks are counted in Python integers, which do not overflow.
--   Floats are an interface, `Float`, for the values other than NaN, which the packet parsers
--   never produce; a report of the receiver and a reference point are taken to hold none. The laws are hypotheses: `IsOrdered` is that `<` is a strict weak order. The Unicode
--   tables behind `upper`, `isalnum` and the like are an interface too, `Unicode`; `KeepsMarks` is
--   that lower-casing and stripping leave a canonical UUID alone. A device, and what else happens
--   around the streaming loop (the clock, the probe, cancellation), is an argument: a `Device` and a
--   list of `Round`s, one for each turn of the loop.
--
--   What other code gives is a parameter: `loads` is `json.loads`, `digest` the keyed hash of the
--   tokens, `int_16` is `int(text, 16)`, and `decimal_pair` the search for a pair of decimals.
--
-- Not modelled: threads (the queue is used from one event loop), the Bluetooth, MQTT and SQL
-- libraries, files, sockets and the command line; the dictionaries that are only built to be written
-- out (`as_dict`, `detailed`, `summary`); the reconnecting loop of the collector and the documents
-- that it publishes, the history of src/uniden_r8/storage.py, and the dialogue with bluetoothctl.
pub mod Prelude
pub mod Runtime
pub mod Telemetry
pub mod Events
pub mod Collector
pub mod Layouts
pub mod Config
pub mod Discovery
pub mod Feed
pub mod Gatt
pub mod Gnss
pub mod Pairing
pub mod Privacy
pub mod Tests
