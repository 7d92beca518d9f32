-- ===== src/Tests/Sessions.antt =====
-- Runs of a collector session.
use unidenr8_bluetooth.Prelude.{ℕ, ◌≡◌, ◌+◌, refl, false, none, some, List, [], ◌∷◌, ◌++◌, arith}
use unidenr8_bluetooth.Prelude.Int.{ℤ, pos}
use unidenr8_bluetooth.Runtime.Text.{codes, strip_by, split, text_eq}
use unidenr8_bluetooth.Runtime.Unicode.{ascii, strip}
use unidenr8_bluetooth.Telemetry.Fields.{bytes, text_of}
use unidenr8_bluetooth.Telemetry.Snapshot.{
  parse_alert_snapshot, parse_slot, passes_gate, enter_segments,
}
use unidenr8_bluetooth.Events.Ingest.{Notification, new, offer}
use unidenr8_bluetooth.Events.Ingest.Chain.{offer-Follows}
use unidenr8_bluetooth.Events.Track.{AlertTrack, new_track, key_of}
use unidenr8_bluetooth.Events.Tracker.{AlertEvent, find_track}
use unidenr8_bluetooth.Events.Tracker.Valid.{IsValid}
use unidenr8_bluetooth.Events.Tracker.Ledger.{ledger, replay}
use unidenr8_bluetooth.Collector.{
  Session, CollectorState, new_session, on_notification, apply, consume,
}
use unidenr8_bluetooth.Collector.Counts.{handled, IsSteady, Consumed, consume-Consumed}
use unidenr8_bluetooth.Collector.Accounts.{
  SessionCall, notified, woken, session_calls, session-accounts, new_session-IsFresh,
}
use unidenr8_bluetooth.Collector.Uncertain.{apply-uncertain}
use unidenr8_bluetooth.Tests.Fixed.{fixed, fixed-IsOrdered}
use unidenr8_bluetooth.Tests.Readings.{k_front, ka_front}

-- the state of a collector that has already held a link
abbrev pub start_state : CollectorState ℤ
start_state = record {
  seq = 9;
  gaps = 1;
  lost_notifications = 2;
  telemetry_packets = 6;
  unparsed_telemetry = 0;
  alert_packets = 1;
  unparsed_alert_packets = 0;
  unreadable_slots = 0;
  unknown_mute_codes = 0;
  latest = none;
  latest_at = none;
  current = [];
  note_text = "";
  timing = record { intervals = []; last_monotonic_ns = 0 };
  recent_events = [];
}

abbrev pub start_session : Session ℤ
start_session = record {
  ingest = record {
    maxsize = 3;
    items = [];
    seq = 0;
    gap = none;
    metrics = record { accepted = 0; dropped = 0; gaps = 0; high_water = 0; depth = 0 };
    latest = [];
  };
  tracker = record { miss_tolerance = 1; tracks = []; next_track_id = 1 };
  state = start_state;
  every = pos 10_000_000;
  last_history_telemetry = pos 0;
  history = some [];
}

pub made : new_session 3 start_state (pos 10_000_000) (pos 0) (some []) ≡ some start_session
unfolding new_session new
made = refl

abbrev alert_packet : ℕ → SessionCall ℤ
alert_packet time = notified "alert" (codes "1,00,K,3,120,24.150,F,1&0") time (time + 1000)

abbrev telemetry_packet : ℕ → SessionCall ℤ
telemetry_packet time = notified "telemetry" (codes "13.2&0&N,35,700,C&A&12&1&2") time (time + 1000)

abbrev calls : List (SessionCall ℤ)
calls =
    telemetry_packet 1
    ∷ alert_packet 2
    ∷ alert_packet 3
    ∷ alert_packet 4
    ∷ woken (λ n. pos n)
    ∷ telemetry_packet 5
    ∷ []

session-accounts_example :
    (events later : List (AlertEvent ℤ)) × (between after : Session ℤ) × (session_calls calls
        start_session
      ≡ some (events, between))
    × (consume (λ n. pos (n + 1)) between ≡ some (later, after))
    × (handled after ≡ 14)
    × (after.state.lost_notifications ≡ 2 + after.ingest.metrics.dropped)
    × (replay (events ++ later) (record { open_ids = []; next_id = 1 })
        ≡ some (ledger after.tracker))
session-accounts_example =
    session-accounts fixed-IsOrdered 3 start_state (pos 10_000_000) (pos 0) (some []) made calls
      (λ n. pos (n + 1))

abbrev open_session : Session ℤ
open_session = record start_session {
  tracker = record {
    miss_tolerance = 1;
    tracks = new_track 1 k_front 10 1010 ∷ new_track 2 ka_front 10 1010 ∷ [];
    next_track_id = 3;
  };
}

open_session-IsValid : IsValid open_session.tracker
unfolding new_track key_of
open_session-IsValid = record {
  rising = (omega arith, (omega arith, omega arith));
  sound = (
    record { patient = omega arith; seen = omega arith; keyed = refl },
    (record { patient = omega arith; seen = omega arith; keyed = refl }, tt),
  );
}

-- a packet with a slot that was cut off
abbrev cut_off : Notification
cut_off = record {
  seq = 10;
  kind = "alert";
  payload = codes "1,00&0";
  monotonic_ns = 20;
  wall_ns = 1020;
  source = "notify";
}

cut_off_damaged : (parse_alert_snapshot {F = ℤ} (bytes cut_off.payload)).recognised ≡ false
unfolding parse_alert_snapshot parse_slot passes_gate enter_segments split strip strip_by text_of
    text_eq ascii
cut_off_damaged = refl

apply-uncertain_example :
    (events : List (AlertEvent ℤ)) × (after : Session ℤ) × (apply (pos 3) cut_off open_session
      ≡ some (events, after))
    × (after.state.unparsed_alert_packets ≡ 1)
    × ((id : ℕ) (t0 : AlertTrack ℤ)
        → find_track id open_session.tracker.tracks ≡ some t0
        → (t1 : AlertTrack ℤ) × (find_track id after.tracker.tracks ≡ some t1) × (t1.key ≡ t0.key))
apply-uncertain_example =
    apply-uncertain fixed-IsOrdered (pos 3) cut_off open_session open_session-IsValid refl
      cut_off_damaged

-- a session with two packets in its queue
abbrev busy_session : Session ℤ
busy_session =
    on_notification "alert" (codes "1,00,K,3,120,24.150,F,1") 2 1002
      (on_notification "telemetry" (codes "13.2&0&N,35,700,C&A&12&1&2") 1 1001 start_session)

busy_session-IsSteady : IsSteady 9 2 busy_session
unfolding on_notification
busy_session-IsSteady =
    let n = new_session-IsFresh 3 start_state (pos 10_000_000) (pos 0) (some []) made in
    let (first, _, _) =
      offer-Follows 0 0 1 1001 "telemetry" (codes "13.2&0&N,35,700,C&A&12&1&2") "notify"
        start_session.ingest n.follows in
    let (second, _, _) =
      offer-Follows 0 0 2 1002 "alert" (codes "1,00,K,3,120,24.150,F,1") "notify"
        (offer "telemetry" (codes "13.2&0&N,35,700,C&A&12&1&2") "notify" 1 1001
          start_session.ingest).1
        first in
    record {
      dealt = 0;
      missed = 0;
      counted = refl;
      lost_counted = refl;
      follows = second;
      tracker = n.tracker;
    }

consume-Consumed_example : Consumed 9 2 busy_session (consume (λ n. pos n) busy_session)
consume-Consumed_example =
    consume-Consumed fixed-IsOrdered 9 2 (λ n. pos n) busy_session busy_session-IsSteady
