-- ===== src/Collector.antt =====
-- `Timing.record`, the part of `CollectorState` that a session changes while it consumes, and
-- `_on_notification`, `_consume`, `_apply` and `_record_history_telemetry` of `_Session` of
-- src/uniden_r8/collector.py. The calls of the history are a log; `clock` is what
-- `time.monotonic()` reads while the record of a number is handled.
pub mod Link
pub mod Pump
pub mod Run
pub mod Held
pub mod Closed
pub mod Finished
pub mod Whole
pub mod Silent
pub mod Backoff
pub mod Counts
pub mod Accounts
pub mod Uncertain
use unidenr8_bluetooth.Prelude.{
  ℕ, zero, suc, ◌+◌, ◌-◌, ◌≡◌, Bool, true, false, not, ◌&&◌, Option, none, some, List, [], ◌∷◌,
  ◌++◌, String, str_eq, ltb, ◌==◌, if◌then◌else◌, length, take, drop,
}
use unidenr8_bluetooth.Prelude.Int.{ℤ, pos, sub_ℕ}
use unidenr8_bluetooth.Runtime.Float.{Float, float_eq}
use unidenr8_bluetooth.Runtime.Unicode.{Unicode}
use unidenr8_bluetooth.Telemetry.Alert.{Alert}
use unidenr8_bluetooth.Telemetry.Fields.{Payload, bytes}
use unidenr8_bluetooth.Telemetry.Snapshot.{AlertSnapshot, alerts, uncertain, parse_alert_snapshot}
use unidenr8_bluetooth.Telemetry.Packet.{Telemetry, parse_telemetry}
use unidenr8_bluetooth.Events.Ingest.{
  Notification, Gap, Entry, note, lost, Ingest, new, count, depth, offer, pop,
}
use unidenr8_bluetooth.Events.Tracker.{AlertTracker, AlertEvent, observe}

-- `INTERVAL_WINDOW` and `MAX_PUBLISHED_ALERTS`
abbrev interval_window : ℕ
interval_window = 120

abbrev max_published_alerts : ℕ
max_published_alerts = 8

pub record Timing (F : Type 0) : Type 0 where
  pub intervals : List F
  pub last_monotonic_ns : ℕ

-- what goes into `recent_events`
pub data Recent (F : Type 0) : Type 0 where
  missing : Gap → Recent F
  transition : AlertEvent F → Recent F

pub data HistoryCall (F : Type 0) : Type 0 where
  snapshot_stored : AlertSnapshot F → Notification → HistoryCall F
  telemetry_stored : Telemetry F → ℕ → ℕ → HistoryCall F

pub record CollectorState (F : Type 0) : Type 0 where
  pub seq : ℕ
  pub gaps : ℕ
  pub lost_notifications : ℕ
  pub telemetry_packets : ℕ
  pub unparsed_telemetry : ℕ
  pub alert_packets : ℕ
  pub unparsed_alert_packets : ℕ
  pub unreadable_slots : ℕ
  pub unknown_mute_codes : ℕ
  pub latest : Option (Telemetry F)
  pub latest_at : Option F
  pub current : List (Alert F)
  pub note_text : String
  pub timing : Timing F
  pub recent_events : List (Recent F)

-- `every` is `config.history.telemetry_every_seconds`; `history` is `none` without the sink
pub record Session (F : Type 0) : Type 0 where
  pub ingest : Ingest
  pub tracker : AlertTracker F
  pub state : CollectorState F
  pub every : F
  pub last_history_telemetry : F
  pub history : Option (List (HistoryCall F))

module _ {F : Type 0} where
  abbrev logged : Option (List (HistoryCall F)) → HistoryCall F → Option (List (HistoryCall F))
  logged none call = none
  logged (some calls) call = some (calls ++ (call ∷ []))

  -- `recent_events.appendleft`, of a deque of 20
  abbrev pub append_left : Recent F → List (Recent F) → List (Recent F)
  append_left r events = take 20 (r ∷ events)

  -- the session of a queue; its tracker is an `AlertTracker()`, which tolerates one miss
  with_queue :
      Option Ingest → CollectorState F → F → F → Option (List (HistoryCall F)) → Option (Session F)
  with_queue none state every start history = none
  with_queue (some q) state every start history = some (record {
    ingest = q;
    tracker = record { miss_tolerance = 1; tracks = []; next_track_id = 1 };
    state = state;
    every = every;
    last_history_telemetry = start;
    history = history;
  })

  -- `_Session(...)` for a queue size, over the state that the collector keeps
  unfoldable pub new_session :
      ℕ → CollectorState F → F → F → Option (List (HistoryCall F)) → Option (Session F)
  unfolding with_queue
  new_session queue_size state every start history =
      with_queue (new queue_size) state every start history

  -- `_on_notification`; `offer` raises nothing, so its `except` branch is never taken
  unfoldable pub on_notification : String → List ℕ → ℕ → ℕ → Session F → Session F
  on_notification kind payload mono wall s = record s {
    ingest = (offer kind payload "notify" mono wall s.ingest).1;
  }

  -- the `Gap` branch of `_consume`
  unfoldable pub record_gap : Gap → Session F → Session F
  record_gap g s = record s {
    state = record s.state {
      gaps = s.state.gaps + 1;
      lost_notifications = s.state.lost_notifications + count g;
      recent_events = append_left (missing g) s.state.recent_events;
      note_text = "notifications dropped";
    };
  }

module _ {F : Type 0} ⦃f : Float F⦄ where
  -- nanoseconds as seconds
  abbrev seconds : ℤ → F
  seconds n = f.div (f.ratio n (pos 1)) (f.ratio (pos 1_000_000_000) (pos 1))

  -- `Timing.record`; the deque holds the newest `INTERVAL_WINDOW` intervals
  unfoldable pub record_timing : ℕ → Timing F → Timing F
  record_timing mono t =
      let grown = t.intervals ++ (seconds (sub_ℕ mono t.last_monotonic_ns) ∷ []) in
      record {
        intervals =
            if t.last_monotonic_ns == 0
            then t.intervals
            else drop (length grown - interval_window) grown;
        last_monotonic_ns = mono;
      }

  -- `record_telemetry`
  unfoldable pub record_telemetry : Telemetry F → F → CollectorState F → CollectorState F
  record_telemetry reading now s = record s {
    telemetry_packets = s.telemetry_packets + 1;
    unparsed_telemetry = if reading.parsed then s.unparsed_telemetry else s.unparsed_telemetry + 1;
    latest = some reading;
    latest_at = some now;
  }

  -- `record_alerts`
  unfoldable pub record_alerts : List (Alert F) → CollectorState F → CollectorState F
  record_alerts found s = record s {
    alert_packets = s.alert_packets + 1;
    current = take max_published_alerts found;
  }

  -- the last reading that was stored is not old enough
  throttled : F → F → F → Bool
  throttled every last now =
      not (float_eq every (f.ratio (pos 0) (pos 1))) && f.lt (f.sub now last) every

  -- `_record_history_telemetry`, by the history
  store_telemetry :
      Option (List (HistoryCall F)) → Telemetry F → Notification → Session F → Session F
  unfolding throttled
  store_telemetry none reading n s = s
  store_telemetry (some calls) reading n s =
      let now : F = seconds (pos n.monotonic_ns) in
      let call = telemetry_stored reading n.wall_ns n.monotonic_ns in
      if throttled s.every s.last_history_telemetry now
      then s
      else record s { last_history_telemetry = now; history = some (calls ++ (call ∷ [])) }

  -- `_record_history_telemetry`
  unfoldable pub record_history_telemetry : Telemetry F → Notification → Session F → Session F
  unfolding store_telemetry
  record_history_telemetry reading n s = store_telemetry s.history reading n s

module _ {F : Type 0} ⦃f : Float F⦄ ⦃u : Unicode⦄ where
  unfoldable pub apply_telemetry : F → Notification → Session F → Session F
  unfolding record_timing record_telemetry
  apply_telemetry now n s =
      let reading = parse_telemetry F (bytes n.payload) in
      record_history_telemetry reading n (record s {
        state =
            record_telemetry reading now (record s.state {
              seq = n.seq;
              timing = record_timing n.monotonic_ns s.state.timing;
            });
      })

  -- the state after an alert packet, before the tracker sees it
  unfoldable pub note_snapshot : AlertSnapshot F → Notification → Session F → Session F
  unfolding record_alerts
  note_snapshot snapshot n s =
      let state = record_alerts (alerts snapshot) (record s.state { seq = n.seq }) in
      record s {
        history = logged s.history (snapshot_stored snapshot n);
        state = record state {
          unparsed_alert_packets =
              if snapshot.recognised
              then state.unparsed_alert_packets
              else state.unparsed_alert_packets + 1;
          unreadable_slots = state.unreadable_slots + snapshot.rejected_slots;
          unknown_mute_codes = state.unknown_mute_codes + snapshot.unknown_mute_codes;
        };
      }

  tracked :
      Session F
      → Option (List (AlertEvent F) × AlertTracker F)
      → Option (List (AlertEvent F) × Session F)
  tracked s none = none
  tracked s (some (events, tracker)) = some (events, record s { tracker = tracker })

  unfoldable pub apply_alerts : Notification → Session F → Option (List (AlertEvent F) × Session F)
  unfolding note_snapshot tracked
  apply_alerts n s =
      let snapshot : AlertSnapshot F = parse_alert_snapshot (bytes n.payload) in
      tracked (note_snapshot snapshot n s)
        (observe (alerts snapshot) n.seq n.monotonic_ns n.wall_ns (uncertain snapshot) s.tracker)

  -- `_apply`; `none` is an exception out of the tracker
  unfoldable pub apply : F → Notification → Session F → Option (List (AlertEvent F) × Session F)
  unfolding apply_telemetry apply_alerts
  apply now n s =
      if str_eq n.kind "telemetry" then some ([], apply_telemetry now n s) else apply_alerts n s

  and_rest :
      (Session F → Option (List (AlertEvent F) × Session F))
      → Option (List (AlertEvent F) × Session F)
      → Option (List (AlertEvent F) × Session F)
  and_rest rest none = none
  and_rest rest (some (events, s)) = elim (rest s) [
    | none ↦ none
    | some (later, s') ↦ some (events ++ later, s')
  ]

  -- one round of the loop of `_consume`, by what `pop` returned
  after_pop :
      (ℕ → F)
      → (Session F → Option (List (AlertEvent F) × Session F))
      → Option Entry
      → Session F
      → Option (List (AlertEvent F) × Session F)
  unfolding and_rest
  after_pop clock rest none s = some ([], s)
  after_pop clock rest (some (lost g)) s = rest (record_gap g s)
  after_pop clock rest (some (note n)) s = and_rest rest (apply (clock n.seq) n s)

  -- the loop, with fuel
  consume_loop : (ℕ → F) → ℕ → Session F → Option (List (AlertEvent F) × Session F)
  unfolding after_pop
  consume_loop clock zero s = some ([], s)
  consume_loop clock (suc fuel) s =
      after_pop clock (λ s'. consume_loop clock fuel s') (pop s.ingest).0
        (record s { ingest = (pop s.ingest).1 })

  -- `_consume`: one round for each record, and one that finds none
  unfoldable pub consume : (ℕ → F) → Session F → Option (List (AlertEvent F) × Session F)
  unfolding consume_loop
  consume clock s = consume_loop clock (depth s.ingest + 1) s
