-- ===== src/Collector/Uncertain.antt =====
-- A damaged alert packet.
use unidenr8_bluetooth.Prelude.{ℕ, ◌+◌, ◌≡◌, refl, Bool, false, not, some, List, str_eq, ap, ◌∙◌}
use unidenr8_bluetooth.Runtime.Float.{Float, IsOrdered}
use unidenr8_bluetooth.Runtime.Unicode.{Unicode}
use unidenr8_bluetooth.Telemetry.Fields.{bytes}
use unidenr8_bluetooth.Telemetry.Snapshot.{AlertSnapshot, alerts, uncertain, parse_alert_snapshot}
use unidenr8_bluetooth.Events.Ingest.{Notification}
use unidenr8_bluetooth.Events.Track.{AlertTrack}
use unidenr8_bluetooth.Events.Tracker.{AlertEvent, find_track, observe}
use unidenr8_bluetooth.Events.Tracker.Valid.{IsValid}
use unidenr8_bluetooth.Events.Tracker.Lifecycle.{observe-hold_open}
use unidenr8_bluetooth.Collector.{Session, apply, apply_alerts, note_snapshot, tracked}

module _ {F : Type 0} ⦃f : Float F⦄ ⦃u : Unicode⦄ where
  -- With `<` a strict weak order on the floats and a well-formed tracker: an alert packet that
  -- cannot be fully read (a slot that does not decode, or no slot at all) ends no track: the
  -- session applies it without an exception, counts it as unparsed, and every track that was open
  -- is open afterwards, under the same number and key.
  pub apply-uncertain :
      IsOrdered F
      → (now : F) (n : Notification) (s : Session F) → IsValid s.tracker
      → str_eq n.kind "telemetry" ≡ false
      → (parse_alert_snapshot {F = F} (bytes n.payload)).recognised ≡ false
      → (events : List (AlertEvent F)) × (after : Session F) × (apply now n s
          ≡ some (events, after))
        × (after.state.unparsed_alert_packets ≡ s.state.unparsed_alert_packets + 1)
        × ((id : ℕ) (t0 : AlertTrack F)
            → find_track id s.tracker.tracks ≡ some t0
            → (t1 : AlertTrack F) × (find_track id after.tracker.tracks ≡ some t1)
              × (t1.key ≡ t0.key))
  unfolding apply apply_alerts note_snapshot uncertain
  apply-uncertain o now n s v alert damaged =
      let snapshot : AlertSnapshot F = parse_alert_snapshot (bytes n.payload) in
      let (events, tracker, returned, kept) =
        observe-hold_open o (alerts snapshot) n.seq n.monotonic_ns n.wall_ns s.tracker v in
      let look =
        λ (hold : Bool). observe (alerts snapshot) n.seq n.monotonic_ns n.wall_ns hold s.tracker in
      let answer : look (uncertain snapshot) ≡ some (events, tracker) =
        ap look (ap not damaged) ∙ returned in
      (
        events,
        record (note_snapshot snapshot n s) { tracker = tracker },
        rw alert (ap (tracked (note_snapshot snapshot n s)) answer),
        rw damaged refl,
        kept,
      )
