-- ===== src/Events/Tracker.antt =====
-- `AlertEvent` and `AlertTracker` of src/uniden_r8/events.py. The dictionary of open tracks is the
-- list of its values in insertion order, each under its `track_id`.
pub mod Assign
pub mod Order
pub mod Greedy
pub mod Scored
pub mod Valid
pub mod Ledger
pub mod Sweep
pub mod Observe
pub mod Lifecycle
pub mod Run
use unidenr8_bluetooth.Prelude.{
  ℕ, suc, ◌+◌, ◌≡◌, Bool, true, false, not, ◌&&◌, ◌||◌, Option, none, some, List, [], ◌∷◌, ◌++◌,
  String, str_eq, arith, ltb, ◌==◌, if◌then◌else◌, has,
}
use unidenr8_bluetooth.Prelude.Int.{ℤ}
use unidenr8_bluetooth.Runtime.Text.{Text}
use unidenr8_bluetooth.Runtime.Float.{Float}
use unidenr8_bluetooth.Runtime.Unicode.{Unicode}
use unidenr8_bluetooth.Telemetry.Alert.{Alert}
use unidenr8_bluetooth.Events.Track.{AlertTrack, new_track, absorb, duration_s, material_change}
use Assign.{assignment, assigned, values, is_ambiguous, Assignment}

pub data EventKind : Type 0 where
  alert_start alert_update alert_end : EventKind

-- `correlation`, as the code spells it
pub record AlertEvent (F : Type 0) : Type 0 where
  pub kind : EventKind
  pub seq : ℕ
  pub track_id : ℕ
  pub monotonic_ns : ℕ
  pub wall_ns : ℕ
  pub alert : Alert F
  pub correlation : String
  pub duration_s : Option F
  pub samples : Option ℕ
  pub max_strength : Option ℤ
  pub max_raw_signal : Option ℤ
  pub directions : Option Text
  pub material : Bool

pub record AlertTracker (F : Type 0) : Type 0 where
  pub miss_tolerance : ℕ
  pub tracks : List (AlertTrack F)
  pub next_track_id : ℕ

-- what the loop of `observe` has done so far
pub record Progress (F : Type 0) : Type 0 where
  pub tracker : AlertTracker F
  pub claimed : List ℕ
  pub events : List (AlertEvent F)

module _ {F : Type 0} where
  -- `self._tracks[id]`, with `none` for the `KeyError`
  unfoldable pub find_track : ℕ → List (AlertTrack F) → Option (AlertTrack F)
  find_track id [] = none
  find_track id (t ∷ ts) = if t.track_id == id then some t else find_track id ts

  -- the change of the object under its key
  unfoldable pub set_track : AlertTrack F → List (AlertTrack F) → List (AlertTrack F)
  set_track t' [] = []
  set_track t' (t ∷ ts) = if t.track_id == t'.track_id then t' ∷ ts else t ∷ set_track t' ts

  -- the event of a transition that is no end
  plain_event : EventKind → ℕ → ℕ → ℕ → ℕ → Alert F → String → Bool → AlertEvent F
  plain_event kind seq id mono wall a correlation material = record {
    kind = kind;
    seq = seq;
    track_id = id;
    monotonic_ns = mono;
    wall_ns = wall;
    alert = a;
    correlation = correlation;
    duration_s = none;
    samples = none;
    max_strength = none;
    max_raw_signal = none;
    directions = none;
    material = material;
  }

module _ {F : Type 0} ⦃u : Unicode⦄ where
  -- `_start`, `claimed.add` and the start event
  pub start_track : Alert F → ℕ → ℕ → ℕ → Progress F → Progress F
  unfolding plain_event
  start_track a seq mono wall p =
      let id = p.tracker.next_track_id in
      record {
        tracker = record p.tracker {
          tracks = p.tracker.tracks ++ (new_track id a mono wall ∷ []);
          next_track_id = id + 1;
        };
        claimed = id ∷ p.claimed;
        events = p.events ++ (plain_event alert_start seq id mono wall a "new" true ∷ []);
      }

module _ {F : Type 0} ⦃f : Float F⦄ where
  -- a reading that was assigned to a track
  pub continue_track : Bool → Alert F → ℕ → ℕ → ℕ → Progress F → AlertTrack F → Progress F
  unfolding plain_event
  continue_track unsure a seq mono wall p track =
      let marked : AlertTrack F = record track { ambiguous = track.ambiguous || unsure } in
      let (changed, track') = absorb a mono wall marked in
      let event =
        plain_event alert_update seq track.track_id mono wall a
          (if unsure then "ambiguous" else "matched") (material_change track.alert a) in
      record p {
        tracker = record p.tracker { tracks = set_track track' p.tracker.tracks };
        events = if changed then p.events ++ (event ∷ []) else p.events;
      }

  -- `_end`; the caller takes the track out
  unfoldable pub end_event : AlertTrack F → ℕ → ℕ → String → AlertEvent F
  end_event t seq wall reason = record {
    kind = alert_end;
    seq = seq;
    track_id = t.track_id;
    monotonic_ns = t.last_monotonic_ns;
    wall_ns = if str_eq reason "timeout" then t.last_wall_ns else wall;
    alert = t.alert;
    correlation = if t.ambiguous then "ambiguous" else reason;
    duration_s = some (duration_s t);
    samples = some t.samples;
    max_strength = t.max_strength;
    max_raw_signal = t.max_raw_signal;
    directions = some t.directions;
    material = true;
  }

  -- the end pass, over the tracks: those that stay open, and the events of the others
  unfoldable pub sweep :
      ℕ → List ℕ → ℕ → ℕ → List (AlertTrack F) → List (AlertTrack F) × List (AlertEvent F)
  sweep tolerance claimed seq wall [] = ([], [])
  sweep tolerance claimed seq wall (t ∷ ts) =
      let (open_tracks, ended) = sweep tolerance claimed seq wall ts in
      let missed : AlertTrack F = record t { misses = t.misses + 1 } in
      if has claimed t.track_id
      then (t ∷ open_tracks, ended)
      else if ltb tolerance missed.misses
      then (open_tracks, end_event missed seq wall "timeout" ∷ ended)
      else (missed ∷ open_tracks, ended)

  unfoldable pub close_all : ℕ → ℕ → String → List (AlertTrack F) → List (AlertEvent F)
  close_all seq wall reason [] = []
  close_all seq wall reason (t ∷ ts) = end_event t seq wall reason ∷ close_all seq wall reason ts

  unfoldable pub close : ℕ → ℕ → String → AlertTracker F → List (AlertEvent F) × AlertTracker F
  unfolding close_all
  close seq wall reason t = (close_all seq wall reason t.tracks, record t { tracks = [] })

module _ {F : Type 0} ⦃f : Float F⦄ ⦃u : Unicode⦄ where
  -- one round of the loop over the incoming readings, at its track's number
  pub slot_step : Option ℕ → Bool → Alert F → ℕ → ℕ → ℕ → Progress F → Option (Progress F)
  slot_step none unsure a seq mono wall p = some (start_track a seq mono wall p)
  slot_step (some id) unsure a seq mono wall p = elim (find_track id p.tracker.tracks) [
    | none ↦ none
    | some track ↦ some (continue_track unsure a seq mono wall p track)
  ]

  -- the loop, from the given index on; `none` is the `KeyError`
  pub slot_loop : Assignment F → ℕ → List (Alert F) → ℕ → ℕ → ℕ → Progress F → Option (Progress F)
  slot_loop m index [] seq mono wall p = some p
  slot_loop m index (a ∷ incoming) seq mono wall p =
      elim (slot_step (assigned m.pairs index) (is_ambiguous m index) a seq mono wall p) [
        | none ↦ none
        | some p' ↦ slot_loop m (index + 1) incoming seq mono wall p'
      ]

  pub end_pass : Bool → ℕ → ℕ → Progress F → List (AlertEvent F) × AlertTracker F
  unfolding sweep
  end_pass true seq wall p = (p.events, p.tracker)
  end_pass false seq wall p =
      let (open_tracks, ended) =
        sweep p.tracker.miss_tolerance p.claimed seq wall p.tracker.tracks in
      (p.events ++ ended, record p.tracker { tracks = open_tracks })

  -- `observe`; `none` is the `KeyError` of a track that is not open
  unfoldable pub observe :
      List (Alert F)
      → ℕ
      → ℕ
      → ℕ
      → Bool
      → AlertTracker F
      → Option (List (AlertEvent F) × AlertTracker F)
  unfolding slot_loop slot_step start_track continue_track end_pass
  observe incoming seq mono wall hold_open t =
      let m = assignment incoming t.tracks in
      elim (slot_loop m 0 incoming seq mono wall
        (record { tracker = t; claimed = values m.pairs; events = [] })) [
          | none ↦ none
          | some p ↦ some (end_pass hold_open seq wall p)
        ]
