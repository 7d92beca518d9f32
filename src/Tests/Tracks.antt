-- ===== src/Tests/Tracks.antt =====
-- Runs of the matcher and of an `AlertTracker`.
use unidenr8_bluetooth.Prelude.{
  ℕ, ◌≡◌, refl, true, false, some, List, [], ◌∷◌, ◌++◌, arith, is_some,
}
use unidenr8_bluetooth.Prelude.Int.{ℤ, pos, ◌≤ℤ◌}
use unidenr8_bluetooth.Runtime.Text.{codes, text_eq, split, join, join-split}
use unidenr8_bluetooth.Runtime.Unicode.{ascii}
use unidenr8_bluetooth.Telemetry.Tables.{lookup}
use unidenr8_bluetooth.Telemetry.Alert.{Alert}
use unidenr8_bluetooth.Events.Matching.{match_cost, band_family, direction_cost, tolerance}
use unidenr8_bluetooth.Events.Matching.Compatible.{compatible, match_cost-compatible}
use unidenr8_bluetooth.Events.Matching.Symmetry.{match_cost_comm}
use unidenr8_bluetooth.Events.Track.{AlertTrack, new_track, key_of}
use unidenr8_bluetooth.Events.Track.Aggregates.{
  Observation, IsExtreme, AtMost, AtLeast, readings, absorb_all, absorb_all-aggregates,
}
use unidenr8_bluetooth.Events.Tracker.{AlertTracker, AlertEvent, find_track, observe, close}
use unidenr8_bluetooth.Events.Tracker.Valid.{IsValid}
use unidenr8_bluetooth.Events.Tracker.Assign.{assigned}
use unidenr8_bluetooth.Events.Tracker.Greedy.{OneToOne}
use unidenr8_bluetooth.Events.Tracker.Scored.{Scored, Rival, made, assignment-stable}
use unidenr8_bluetooth.Events.Tracker.Ledger.{replay}
use unidenr8_bluetooth.Events.Tracker.Lifecycle.{Observed, observe-Observed, observe-hold_open}
use unidenr8_bluetooth.Events.Tracker.Run.{
  TrackerCall, snapshot, closing, new_tracker, tracker_calls, tracker_calls-Observed,
  close-ends_all,
}
use unidenr8_bluetooth.Tests.Fixed.{fixed, fixed-IsOrdered, fixed_magnitude}
use unidenr8_bluetooth.Tests.Readings.{k_front, k_side, k_far, ka_front, laser_front, seen_at}

join-split_example : join b',' (split b',' (codes "1,0,K")) ≡ codes "1,0,K"
join-split_example = join-split b',' (codes "1,0,K")

match_cost-compatible_example : is_some (match_cost k_front k_side) ≡ compatible k_front k_side
match_cost-compatible_example = match_cost-compatible k_front k_side

match_cost_comm_example : match_cost k_front k_side ≡ match_cost k_side k_front
match_cost_comm_example = match_cost_comm fixed_magnitude k_front k_side

-- one bar, one turn, and a fifth of the tolerance
cost_of_turn : match_cost k_front k_side ≡ some (pos 600_000)
unfolding match_cost band_family text_eq direction_cost tolerance lookup ascii
cost_of_turn = refl

abbrev open_tracks : List (AlertTrack ℤ)
open_tracks = new_track 1 k_front 10 1010 ∷ new_track 2 ka_front 10 1010 ∷ []

abbrev incoming : List (Alert ℤ)
incoming = ka_front ∷ k_side ∷ k_far ∷ []

abbrev paired : List (ℕ × ℕ)
paired = made fixed-IsOrdered incoming open_tracks

assignment-stable_example :
    ((i id : ℕ) → assigned paired i ≡ some id → (cost : ℤ) × Scored incoming open_tracks i id cost)
    × OneToOne paired
    × ((i id : ℕ) (cost : ℤ)
        → Scored incoming open_tracks i id cost
        → Rival fixed-IsOrdered incoming open_tracks i id cost)
assignment-stable_example = assignment-stable fixed-IsOrdered incoming open_tracks

abbrev calls : List (TrackerCall ℤ)
calls =
    snapshot (k_front ∷ ka_front ∷ []) 1 10 1010 false
    ∷ snapshot (ka_front ∷ k_side ∷ laser_front ∷ []) 2 20 1020 false
    ∷ snapshot (k_side ∷ []) 3 30 1030 true
    ∷ snapshot [] 4 40 1040 false
    ∷ snapshot [] 5 50 1050 false
    ∷ closing 6 1060 "link-closed"
    ∷ []

tracker_calls-Observed_example : Observed (new_tracker 2) (tracker_calls calls (new_tracker 2))
tracker_calls-Observed_example = tracker_calls-Observed fixed-IsOrdered 2 calls

observe-Observed_example :
    Observed (new_tracker 2) (observe incoming 1 10 1010 false (new_tracker 2))
observe-Observed_example =
    observe-Observed fixed-IsOrdered incoming 1 10 1010 false (new_tracker 2)
      (record { rising = omega arith; sound = tt })

close-ends_all_example :
    (es : List (AlertEvent ℤ)) × (t : AlertTracker ℤ) × (tracker_calls calls (new_tracker 2)
      ≡ some (es, t))
    × ((close 7 1070 "shutdown" t).1.tracks ≡ [])
    × (replay (es ++ (close 7 1070 "shutdown" t).0) (record { open_ids = []; next_id = 1 })
        ≡ some (record { open_ids = []; next_id = t.next_track_id }))
close-ends_all_example = close-ends_all fixed-IsOrdered 2 calls 7 1070 "shutdown"

abbrev later : List (Observation ℤ)
later = seen_at 20 k_side ∷ seen_at 30 k_far ∷ []

abbrev whole_track : AlertTrack ℤ
whole_track = absorb_all later (new_track 7 k_front 10 1010)

absorb_all-aggregates_example :
    IsExtreme ◌≤ℤ◌ whole_track.max_strength
      (readings (λ x. x.strength) later (k_front.strength ∷ []))
    × IsExtreme ◌≤ℤ◌ whole_track.max_raw_signal
        (readings (λ x. x.signal) later (k_front.signal ∷ []))
    × IsExtreme AtLeast whole_track.min_frequency_ghz
        (readings (λ x. x.frequency_ghz) later (k_front.frequency_ghz ∷ []))
    × IsExtreme AtMost whole_track.max_frequency_ghz
        (readings (λ x. x.frequency_ghz) later (k_front.frequency_ghz ∷ []))
    × (whole_track.samples ≡ 3)
    × (whole_track.track_id ≡ 7)
    × (whole_track.key ≡ key_of k_front)
    × (whole_track.first_monotonic_ns ≡ 10)
absorb_all-aggregates_example = absorb_all-aggregates fixed-IsOrdered 7 10 1010 k_front later

abbrev held : AlertTracker ℤ
held = record { miss_tolerance = 2; tracks = open_tracks; next_track_id = 3 }

held-IsValid : IsValid held
unfolding new_track key_of
held-IsValid = record {
  rising = (omega arith, (omega arith, omega arith));
  sound = (
    record { patient = omega arith; seen = omega arith; keyed = refl },
    (record { patient = omega arith; seen = omega arith; keyed = refl }, tt),
  );
}

observe-hold_open_example :
    (events : List (AlertEvent ℤ)) × (after : AlertTracker ℤ) × (observe
        (laser_front ∷ [])
        2
        20
        1020
        true
        held
      ≡ some (events, after))
    × ((id : ℕ) (t0 : AlertTrack ℤ)
        → find_track id held.tracks ≡ some t0
        → (t1 : AlertTrack ℤ) × (find_track id after.tracks ≡ some t1) × (t1.key ≡ t0.key))
observe-hold_open_example =
    observe-hold_open fixed-IsOrdered (laser_front ∷ []) 2 20 1020 held held-IsValid
