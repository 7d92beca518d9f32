-- ===== src/Collector/Link.antt =====
-- `_Session.run` of src/uniden_r8/collector.py around its streaming loop: the checks, the first
-- reads, the subscriptions and the teardown, with `_dispatch` and `_publish` as far as they change
-- the state. What the device and the clock do is a `Device`; `none` is an exception out of a gate
-- or the tracker. The duration that `run` returns is left out.
use unidenr8_bluetooth.Prelude.{
  ℕ, Bool, Option, none, some, List, [], ◌∷◌, ◌++◌, String, if◌then◌else◌,
}
use unidenr8_bluetooth.Runtime.Float.{Float}
use unidenr8_bluetooth.Runtime.Text.{Text}
use unidenr8_bluetooth.Runtime.Unicode.{Unicode}
use unidenr8_bluetooth.Gatt.Catalogue.{telemetry_uuid, alert_uuid}
use unidenr8_bluetooth.Gatt.{
  returned, unknown_characteristic, write_refused, assert_live_readable, assert_live_notifiable,
}
use unidenr8_bluetooth.Events.Ingest.{offer}
use unidenr8_bluetooth.Events.Track.{AlertTrack}
use unidenr8_bluetooth.Events.Tracker.{AlertEvent, close}
use unidenr8_bluetooth.Collector.{
  Session, Recent, transition, append_left, on_notification, consume,
}

-- a call of the Bluetooth client
pub data Access : Type 0 where
  read_of : Text → Access
  subscribe_to : Text → Access
  unsubscribe_from : Text → Access

-- a notification, with its stamps
pub record Arrival : Type 0 where
  pub kind : String
  pub payload : List ℕ
  pub monotonic_ns : ℕ
  pub wall_ns : ℕ

-- a session, what else of the state `run` changes, the events that the sinks were sent, and the
-- calls of the client
pub record Link (F : Type 0) : Type 0 where
  pub session : Session F
  pub connected : Bool
  pub compatible : Bool
  pub status : String
  pub open_tracks : List (AlertTrack F)
  pub dispatched : List (AlertEvent F)
  pub accesses : List Access

-- the device of one session: its services; what a read gives, with the stamps of its record, or
-- nothing if it raises or does not answer in time; the subscriptions that succeed; what still
-- arrives while the subscriptions end; and the clocks of the first and the last round of the
-- consumer, and of the end
pub record Device (F : Type 0) : Type 0 where
  pub services : List (Text × List Text)
  pub answer : Text → Option (List ℕ × ℕ × ℕ)
  pub subscribes : Text → Bool
  pub late : List Arrival
  pub first_clock : ℕ → F
  pub last_clock : ℕ → F
  pub closing_wall_ns : ℕ

module _ {F : Type 0} where
  abbrev pub set_note : String → Link F → Link F
  set_note text l = record l {
    session = record l.session { state = record l.session.state { note_text = text } };
  }

  abbrev accessed : Access → Link F → Link F
  accessed access l = record l { accesses = l.accesses ++ (access ∷ []) }

  abbrev newer : List (AlertEvent F) → List (Recent F) → List (Recent F)
  newer [] recent = recent
  newer (e ∷ events) recent = newer events (append_left (transition e) recent)

  -- `_dispatch`: `recent_events`, and each event to every sink
  unfoldable pub dispatch : List (AlertEvent F) → Link F → Link F
  dispatch events l = record l {
    session = record l.session {
      state = record l.session.state { recent_events = newer events l.session.state.recent_events };
    };
    dispatched = l.dispatched ++ events;
  }

  -- `_publish`: the tracks of which the documents show summaries
  unfoldable pub publish : Link F → Link F
  publish l = record l { open_tracks = l.session.tracker.tracks }

  -- `_on_notification`, of notifications in their order
  unfoldable pub arrive : List Arrival → Link F → Link F
  arrive [] l = l
  arrive (a ∷ arrivals) l =
      arrive arrivals
        (record l { session = on_notification a.kind a.payload a.monotonic_ns a.wall_ns l.session })

  -- `CollectorState.clear_alerts`
  unfoldable pub clear_alerts : Link F → Link F
  clear_alerts l = record l {
    session = record l.session { state = record l.session.state { current = [] } };
    open_tracks = [];
  }

  -- `self.ingest.offer(kind, payload, source="read")`
  unfoldable pub offer_read : String → Option (List ℕ × ℕ × ℕ) → Link F → Link F
  offer_read kind none l = l
  offer_read kind (some (payload, mono, wall)) l = record l {
    session = record l.session {
      ingest = (offer kind payload "read" mono wall l.session.ingest).1;
    };
  }

  -- `stop_notify` of each subscription, whether it raises or not
  unfoldable pub unsubscribe : List Text → Link F → Link F
  unsubscribe [] l = l
  unsubscribe (permitted ∷ subscribed) l =
      unsubscribe subscribed (accessed (unsubscribe_from permitted) l)

module _ {F : Type 0} ⦃u : Unicode⦄ where
  -- a round of the loop of reads
  unfoldable pub read_first : Device F → String → Text → Option (Link F) → Option (Link F)
  read_first d kind uuid none = none
  read_first d kind uuid (some l) = elim (assert_live_readable uuid) [
    | returned permitted ↦
        some (offer_read kind (d.answer permitted) (accessed (read_of permitted) l))
    | unknown_characteristic ↦ none
    | write_refused ↦ none
  ]

  -- a round of the loop of subscriptions
  unfoldable pub subscribe :
      Device F → Text → Option (List Text × Link F) → Option (List Text × Link F)
  subscribe d uuid none = none
  subscribe d uuid (some (subscribed, l)) = elim (assert_live_notifiable uuid) [
    | returned permitted ↦
        let asked = accessed (subscribe_to permitted) l in
        some (
          if d.subscribes permitted
          then (subscribed ++ (permitted ∷ []), asked)
          else (subscribed, set_note "partial subscription" asked))
    | unknown_characteristic ↦ none
    | write_refused ↦ none
  ]

  unfoldable pub reads : Device F → Link F → Option (Link F)
  reads d l = read_first d "alert" alert_uuid (read_first d "telemetry" telemetry_uuid (some l))

  unfoldable pub subscriptions : Device F → Link F → Option (List Text × Link F)
  subscriptions d l = subscribe d alert_uuid (subscribe d telemetry_uuid (some ([], l)))

module _ {F : Type 0} ⦃f : Float F⦄ ⦃u : Unicode⦄ where
  -- `self._dispatch(self._consume())`
  unfoldable pub consume_dispatch : (ℕ → F) → Link F → Option (Link F)
  consume_dispatch clock l = elim (consume clock l.session) [
    | none ↦ none
    | some (events, s) ↦ some (dispatch events (record l { session = s }))
  ]

  -- the rest of the `finally` block, after the last round of the consumer
  unfoldable pub closed : Device F → Option (Link F) → Option (Link F)
  closed d none = none
  closed d (some l) =
      let (events, tracker) =
        close l.session.state.seq d.closing_wall_ns "closed" l.session.tracker in
      some (
        clear_alerts
          (dispatch events (record l { session = record l.session { tracker = tracker } })))

  -- the `finally` block
  unfoldable pub teardown : Device F → List Text → Link F → Option (Link F)
  unfolding closed
  teardown d subscribed l =
      closed d (consume_dispatch d.last_clock (arrive d.late (unsubscribe subscribed l)))
