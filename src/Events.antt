-- ===== src/Events.antt =====
-- src/uniden_r8/events.py: the bounded queue between the notification callback and its consumer,
-- the score of a match, one alert track, and the tracker.
pub mod Ingest
pub mod Matching
pub mod Track
pub mod Tracker
