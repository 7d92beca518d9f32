-- ===== src/Events/Tracker/Run.antt =====
-- The whole life of an `AlertTracker`: any calls of `observe` and `close`, in any order, from a new
-- one.
use unidenr8_bluetooth.Prelude.{
  ℕ, ◌≡◌, refl, Bool, Option, none, some, List, [], ◌∷◌, ◌++◌, String, arith, ◌∙◌,
}
use unidenr8_bluetooth.Runtime.Float.{Float, IsOrdered}
use unidenr8_bluetooth.Runtime.Unicode.{Unicode}
use unidenr8_bluetooth.Telemetry.Alert.{Alert}
use unidenr8_bluetooth.Events.Tracker.{AlertTracker, AlertEvent, observe, close, close_all}
use unidenr8_bluetooth.Events.Tracker.Valid.{IsValid, Rising-le}
use unidenr8_bluetooth.Events.Tracker.Ledger.{ledger, replay, replay-append}
use unidenr8_bluetooth.Events.Tracker.Sweep.{close_all-replay}
use unidenr8_bluetooth.Events.Tracker.Lifecycle.{Observed, observe-Observed}

-- A call on the tracker, with its arguments.
pub data TrackerCall (F : Type 0) : Type 0 where
  snapshot : (incoming : List (Alert F)) (seq mono wall : ℕ) (hold_open : Bool) → TrackerCall F
  closing : (seq wall : ℕ) (reason : String) → TrackerCall F

module _ {F : Type 0} where
  -- `AlertTracker(miss_tolerance)`
  abbrev pub new_tracker : ℕ → AlertTracker F
  new_tracker tolerance = record { miss_tolerance = tolerance; tracks = []; next_track_id = 1 }

  -- the events of one call before those of the later ones
  abbrev pub and_later :
      (AlertTracker F → Option (List (AlertEvent F) × AlertTracker F))
      → Option (List (AlertEvent F) × AlertTracker F)
      → Option (List (AlertEvent F) × AlertTracker F)
  and_later later none = none
  and_later later (some (es, t)) = elim (later t) [
    | none ↦ none
    | some (fs, t') ↦ some (es ++ fs, t')
  ]

module _ {F : Type 0} ⦃f : Float F⦄ ⦃u : Unicode⦄ where
  -- one call: its events, and the tracker after it
  unfoldable pub tracker_call :
      TrackerCall F → AlertTracker F → Option (List (AlertEvent F) × AlertTracker F)
  unfolding observe close
  tracker_call (snapshot incoming seq mono wall hold_open) t =
      observe incoming seq mono wall hold_open t
  tracker_call (closing seq wall reason) t = some (close seq wall reason t)

  -- the calls in order, with all their events; `none` is an exception out of one of them
  unfoldable pub tracker_calls :
      List (TrackerCall F) → AlertTracker F → Option (List (AlertEvent F) × AlertTracker F)
  unfolding tracker_call
  tracker_calls [] t = some ([], t)
  tracker_calls (c ∷ cs) t = and_later (λ t'. tracker_calls cs t') (tracker_call c t)

  pub close-Observed :
      (seq wall : ℕ) (reason : String) (t : AlertTracker F)
      → IsValid t
      → Observed t (some (close seq wall reason t))
  unfolding close
  close-Observed seq wall reason t v = record {
    events = close_all seq wall reason t.tracks;
    after = record t { tracks = [] };
    returned = refl;
    valid = record { rising = Rising-le 1 t.next_track_id t.tracks v.rising; sound = tt };
    tolerance = refl;
    replays =
        close_all-replay 0 [] seq wall t.next_track_id 1 t.next_track_id t.tracks reason v.rising;
  }

  tracker_call-Observed :
      IsOrdered F
      → (c : TrackerCall F) (t : AlertTracker F) → IsValid t
      → Observed t (tracker_call c t)
  unfolding tracker_call
  tracker_call-Observed o (snapshot incoming seq mono wall hold_open) t v =
      observe-Observed o incoming seq mono wall hold_open t v
  tracker_call-Observed o (closing seq wall reason) t v = close-Observed seq wall reason t v

  calls-Observed :
      IsOrdered F
      → (cs : List (TrackerCall F)) (t : AlertTracker F) → IsValid t
      → Observed t (tracker_calls cs t)
  unfolding tracker_calls
  calls-Observed o [] t v = record {
    events = [];
    after = t;
    returned = refl;
    valid = v;
    tolerance = refl;
    replays = refl;
  }
  calls-Observed o (c ∷ cs) t v =
      let first = tracker_call-Observed o c t v in
      let rest = calls-Observed o cs first.after first.valid in
      record {
        events = first.events ++ rest.events;
        after = rest.after;
        returned = rw (first.returned, rest.returned, tracker_calls) refl;
        valid = rest.valid;
        tolerance = rest.tolerance ∙ first.tolerance;
        replays =
            replay-append first.events rest.events (ledger t) (ledger first.after) first.replays
            ∙ rest.replays;
      }

  -- With `<` a strict weak order on the floats: any snapshots and closings, in any order, on a new
  -- tracker: no call raises, the tracker is well formed after them with the tolerance it was made
  -- with, and the whole stream of events reads as a ledger. It starts with no number open and the
  -- number 1 next; a start takes the next number, so that no number is ever used again, an update
  -- and an end are of a number that is open, and what is open at the end of the stream are exactly
  -- the tracks of the tracker, in their order.
  pub tracker_calls-Observed :
      IsOrdered F
      → (tolerance : ℕ) (cs : List (TrackerCall F))
      → Observed (new_tracker tolerance) (tracker_calls cs (new_tracker tolerance))
  tracker_calls-Observed o tolerance cs =
      calls-Observed o cs (new_tracker tolerance) (record { rising = omega arith; sound = tt })

  -- With `<` a strict weak order on the floats: after any calls on a new tracker, a `close` leaves
  -- no track open, and the whole stream of events with those of the `close` reads as a ledger in
  -- which every number that was started has ended: none is open at the end.
  pub close-ends_all :
      IsOrdered F
      → (tolerance : ℕ) (cs : List (TrackerCall F)) (seq wall : ℕ) (reason : String)
      → (es : List (AlertEvent F)) × (t : AlertTracker F) × (tracker_calls cs
            (new_tracker tolerance)
          ≡ some (es, t))
        × ((close seq wall reason t).1.tracks ≡ [])
        × (replay (es ++ (close seq wall reason t).0) (record { open_ids = []; next_id = 1 })
            ≡ some (record { open_ids = []; next_id = t.next_track_id }))
  unfolding close
  close-ends_all o tolerance cs seq wall reason =
      let r = tracker_calls-Observed o tolerance cs in
      let c = close-Observed seq wall reason r.after r.valid in
      (
        r.events,
        r.after,
        r.returned,
        refl,
        replay-append r.events _ _ (ledger r.after) r.replays
            ∙ close_all-replay 0 [] seq wall r.after.next_track_id 1 r.after.next_track_id
                r.after.tracks reason r.valid.rising,
      )
