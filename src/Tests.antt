-- ===== src/Tests.antt =====
-- Concrete runs: a model of the float interface, readings of two threats, and for each theorem with
-- a hypothesis one input at which it applies.
mod Fixed
mod Readings
mod Queue
mod Tracks
mod Packets
mod Sessions
mod Walks
mod Gates
mod Diffs
mod Links
mod Fixes
mod Commands
mod Settings
mod Scans
