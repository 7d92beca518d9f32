-- ===== src/Collector/Finished.antt =====
-- The parts of `_Session.run` of src/uniden_r8/collector.py, and what its teardown leaves.
use unidenr8_bluetooth.Prelude.{
  ℕ, ◌≡◌, refl, Option, none, some, String, true, List, [], ◌∷◌, All, ◌∙◌,
}
use unidenr8_bluetooth.Runtime.Float.{Float, IsOrdered}
use unidenr8_bluetooth.Runtime.Text.{Text, mem_text, text_eq}
use unidenr8_bluetooth.Runtime.Unicode.{Unicode}
use unidenr8_bluetooth.Gatt.Catalogue.{telemetry_uuid, alert_uuid, live_read_uuids}
use unidenr8_bluetooth.Gatt.Passed.{KeepsMarks}
use unidenr8_bluetooth.Gatt.Gates.{live_read, live_notify}
use unidenr8_bluetooth.Events.Tracker.{close, close_all}
use unidenr8_bluetooth.Events.Tracker.Ledger.{Ledger, ledger, replay, replay-append}
use unidenr8_bluetooth.Events.Tracker.Sweep.{close_all-replay}
use unidenr8_bluetooth.Collector.Link.{
  Link, Device, dispatch, publish, arrive, unsubscribe, reads, subscriptions, clear_alerts, closed,
  teardown,
}
use unidenr8_bluetooth.Collector.Pump.{PumpConfig, Round, Pump, zero_float}
use unidenr8_bluetooth.Collector.Run.{streaming, after_reads}
use unidenr8_bluetooth.Collector.Held.{
  Runs, Subscribed, Allowed, publish-IsRunning, arrive-IsRunning, unsubscribe-IsRunning,
  read_first-IsRunning, subscribe-IsRunning, consume_dispatch-IsRunning,
}
use unidenr8_bluetooth.Collector.Closed.{pump-Pumped, gate-same}

telemetry_live : mem_text telemetry_uuid live_read_uuids ≡ true
unfolding mem_text text_eq
telemetry_live = refl

alert_live : mem_text alert_uuid live_read_uuids ≡ true
unfolding mem_text text_eq
alert_live = refl

module _ {F : Type 0} ⦃f : Float F⦄ ⦃u : Unicode⦄ where
  -- what is left of a session: nothing is shown, nothing is open, nothing is queued, every track
  -- that was started was ended, and the calls of the client were allowed
  pub record IsFinished (start : Ledger) (l : Link F) : Type 0 where
    pub cleared : (l.session.state.current ≡ []) × (l.open_tracks ≡ [])
    pub empty : (l.session.ingest.gap ≡ none) × (l.session.ingest.items ≡ [])
    pub no_track : l.session.tracker.tracks ≡ []
    pub told :
        (next_id : ℕ) × (replay l.dispatched start
          ≡ some (record { open_ids = []; next_id = next_id }))
    pub allowed : All Allowed l.accesses

module _ {F : Type 0} ⦃f : Float F⦄ ⦃u : Unicode⦄ (base before : ℕ) (start : Ledger) where
  abbrev Finishes : Option (Link F) → Type 0
  Finishes o = (l : Link F) × (o ≡ some l) × IsFinished start l

  closed-Finishes :
      (d : Device F) (l : Link F)
      → Runs base before start l
      → (l.session.ingest.gap ≡ none) × (l.session.ingest.items ≡ [])
      → Finishes (closed d (some l))
  unfolding closed clear_alerts dispatch close
  closed-Finishes d l r empty = (
    _,
    refl,
    record {
      cleared = (refl, refl);
      empty = empty;
      no_track = refl;
      told = (
        l.session.tracker.next_track_id,
        replay-append l.dispatched
              (close_all l.session.state.seq d.closing_wall_ns "closed" l.session.tracker.tracks)
              start (ledger l.session.tracker) r.told
            ∙ close_all-replay 0 [] l.session.state.seq d.closing_wall_ns
                l.session.tracker.next_track_id 1 l.session.tracker.next_track_id
                l.session.tracker.tracks "closed" r.steady.tracker.rising,
      );
      allowed = r.allowed;
    },
  )

  teardown-Finishes :
      IsOrdered F
      → (d : Device F) (subscribed : List Text) (l : Link F)
      → Subscribed base before start subscribed l
      → Finishes (teardown d subscribed l)
  unfolding teardown
  teardown-Finishes o d subscribed l (h, r) =
      let quiet = unsubscribe-IsRunning base before start subscribed l h r in
      let l0 : Link F = arrive d.late (unsubscribe subscribed l) in
      let settled = arrive-IsRunning base before start d.late (unsubscribe subscribed l) quiet in
      let (l', e, running, gap, items) =
        consume_dispatch-IsRunning base before start o d.last_clock l0 settled in
      rw e (closed-Finishes d l' running (gap, items))

  shown :
      (status : String) (l : Link F)
      → Runs base before start l
      → Runs base before start (publish (record l { status = status }))
  shown status l r =
      publish-IsRunning base before start (record l { status = status })
        (record { steady = r.steady; told = r.told; allowed = r.allowed })

  streaming-Finishes :
      IsOrdered F
      → (config : PumpConfig F) (d : Device F) (since : F) (rounds : List (Round F))
        (subscribed : List Text) (l : Link F)
      → Subscribed base before start subscribed l
      → Finishes (streaming config d since rounds (some (subscribed, l)))
  unfolding streaming
  streaming-Finishes o config d since rounds [] l (h, r) =
      teardown-Finishes o d [] (publish (record l { status = "degraded" }))
        (tt, shown "degraded" l r)
  streaming-Finishes o config d since rounds (t ∷ subscribed) l (h, r) =
      let p : Pump F = record {
        link = publish (record l { status = "streaming" });
        last_health = since;
        last_publish = zero_float;
      } in
      let (ending, l', e, g) =
        pump-Pumped base before start o config since rounds p (shown "streaming" l r) in
      rw e (teardown-Finishes o d (t ∷ subscribed) l' (h, g))

  pub started-Finishes :
      IsOrdered F
      → KeepsMarks
      → (config : PumpConfig F) (d : Device F) (since : F) (rounds : List (Round F)) (l : Link F)
      → Runs base before start l
      → Finishes (after_reads config d since rounds (reads d l))
  unfolding after_reads reads subscriptions
  started-Finishes o k config d since rounds l r =
      let (l1, e1, r1) =
        read_first-IsRunning base before start d "telemetry" telemetry_uuid l
          (gate-same k live_read telemetry_uuid refl telemetry_live) telemetry_live r in
      let (l2, e2, r2) =
        read_first-IsRunning base before start d "alert" alert_uuid l1
          (gate-same k live_read alert_uuid refl alert_live) alert_live r1 in
      let (l3, e3, r3, gap, items) =
        consume_dispatch-IsRunning base before start o d.first_clock l2 r2 in
      let (s4, l4, e4, r4) =
        subscribe-IsRunning base before start d telemetry_uuid [] l3
          (gate-same k live_notify telemetry_uuid refl telemetry_live) telemetry_live (tt, r3) in
      let (s5, l5, e5, r5) =
        subscribe-IsRunning base before start d alert_uuid s4 l4
          (gate-same k live_notify alert_uuid refl alert_live) alert_live r4 in
      rw (e1, e2, e3, e4, e5) (streaming-Finishes o config d since rounds s5 l5 r5)
