-- ===== src/Events/Tracker/Lifecycle.antt =====
-- `observe` and `close` as a whole, and any run of them.
use unidenr8_bluetooth.Prelude.{
  ℕ, ◌+◌, ◌<◌, ◌≡◌, refl, Bool, true, false, Option, some, List, [], ◌∷◌, arith, ap, sym, ◌∙◌,
}
use unidenr8_bluetooth.Runtime.Float.{Float, IsOrdered}
use unidenr8_bluetooth.Runtime.Unicode.{Unicode}
use unidenr8_bluetooth.Telemetry.Alert.{Alert}
use unidenr8_bluetooth.Events.Track.{AlertTrack}
use unidenr8_bluetooth.Events.Tracker.{
  AlertTracker, AlertEvent, Progress, find_track, end_pass, observe,
}
use unidenr8_bluetooth.Events.Tracker.Assign.{assigned, values, assignment}
use unidenr8_bluetooth.Events.Tracker.Scored.{assignment-stable}
use unidenr8_bluetooth.Events.Tracker.Valid.{Rising, Rising-le, find-In, All-find, IsSound, IsValid}
use unidenr8_bluetooth.Events.Tracker.Ledger.{ledger, replay, replay-append}
use unidenr8_bluetooth.Events.Tracker.Observe.{Loop, Fits, slot_loop-Loop, match_cost-key}
use unidenr8_bluetooth.Events.Tracker.Sweep.{sweep-Swept}

-- What `observe` answered: the transitions, and the tracker after it.
pub record Observed {F : Type 0} ⦃u : Unicode⦄ (t : AlertTracker F)
    (answer : Option (List (AlertEvent F) × AlertTracker F)) : Type 0 where
  pub events : List (AlertEvent F)
  pub after : AlertTracker F
  pub returned : answer ≡ some (events, after)
  pub valid : IsValid after
  pub tolerance : after.miss_tolerance ≡ t.miss_tolerance
  pub replays : replay events (ledger t) ≡ some (ledger after)

module _ {F : Type 0} ⦃f : Float F⦄ ⦃u : Unicode⦄ where
  find-below :
      (id low high : ℕ) (ts : List (AlertTrack F)) (t : AlertTrack F)
      → Rising low ts high
      → find_track id ts ≡ some t
      → id < high
  unfolding find_track
  find-below id low high [] t r h = absurd (cc h)
  find-below id low high (s ∷ ts) t r h =
      ground (
        arith,
        find-below id (s.track_id + 1) high ts t r.1,
        Rising-le (s.track_id + 1) high ts r.1,
      )

  Loop-start :
      (t : AlertTracker F) (claimed : List ℕ)
      → IsValid t
      → Loop t (record { tracker = t; claimed = claimed; events = [] })
  Loop-start t claimed v = record {
    valid = v;
    tolerance = refl;
    kept = λ id t0 h. (t0, h, refl);
    below = λ id t0 h. find-below id 1 t.next_track_id t.tracks t0 v.rising h;
    replays = refl;
  }

  end_pass-Observed :
      (hold_open : Bool) (seq wall : ℕ) (t : AlertTracker F) (p : Progress F)
      → Loop t p
      → Observed t (some (end_pass hold_open seq wall p))
  unfolding end_pass
  end_pass-Observed true seq wall t p l = record {
    events = p.events;
    after = p.tracker;
    returned = refl;
    valid = l.valid;
    tolerance = l.tolerance;
    replays = l.replays;
  }
  end_pass-Observed false seq wall t p l =
      let tr = p.tracker in
      let s =
        sweep-Swept tr.miss_tolerance p.claimed seq wall tr.next_track_id 1 tr.next_track_id []
          tr.tracks tt l.valid.rising l.valid.sound in
      record {
        events = (end_pass false seq wall p).0;
        after = (end_pass false seq wall p).1;
        returned = refl;
        valid = record { rising = s.rising; sound = s.sound };
        tolerance = l.tolerance;
        replays = replay-append p.events _ (ledger t) (ledger tr) l.replays ∙ s.replays;
      }

  assignment-Fits :
      IsOrdered F
      → (incoming : List (Alert F)) (t : AlertTracker F) → IsValid t
      → Fits t (assignment incoming t.tracks).pairs 0 incoming
  assignment-Fits o incoming t v i id h =
      let same : i ≡ 0 + i = omega arith in
      let paired = ap (assigned (assignment incoming t.tracks).pairs) same ∙ h in
      let (cost, r) = (assignment-stable o incoming t.tracks).0 i id paired in
      let found = (find-In 1 t.next_track_id t.tracks r.track v.rising r.is_open).1 in
      let here : find_track id t.tracks ≡ some r.track =
        ap (λ n. find_track n t.tracks) (sym r.numbered) ∙ found in
      let sound = All-find (IsSound t.miss_tolerance) id t.tracks r.track here v.sound in
      (
        r.reading,
        r.track,
        r.at,
        here,
        sound.keyed ∙ match_cost-key r.track.alert r.reading cost r.matches,
      )

  -- With `<` a strict weak order on the floats: whatever the snapshot, `observe` on a well-formed
  -- tracker returns: every track that the assignment names is open, so no `KeyError` is raised. The
  -- tracker it leaves is well formed, with the same tolerance: numbers distinct and below the next,
  -- no track beyond the tolerated misses, each under the key of its latest reading. And the events
  -- it emits, read in order from the numbers that were open before (a start must take the next
  -- fresh number, an update and an end must be of an open one), lead to the numbers that are open
  -- afterwards.
  pub observe-Observed :
      IsOrdered F
      → (incoming : List (Alert F)) (seq mono wall : ℕ) (hold_open : Bool) (t : AlertTracker F)
      → IsValid t
      → Observed t (observe incoming seq mono wall hold_open t)
  unfolding observe
  observe-Observed o incoming seq mono wall hold_open t v =
      let m = assignment incoming t.tracks in
      let (p, looped, l) =
        slot_loop-Loop m 0 incoming seq mono wall t _ (assignment-Fits o incoming t v)
          (Loop-start t (values m.pairs) v) in
      rw (looped, observe) (end_pass-Observed hold_open seq wall t p l)

  -- With `<` a strict weak order on the floats, on a well-formed tracker: `observe` with
  -- `hold_open`, as for a snapshot that could not be fully read, returns and ends nothing; every
  -- track that was open before `observe` is open after it, under the same number and key.
  pub observe-hold_open :
      IsOrdered F
      → (incoming : List (Alert F)) (seq mono wall : ℕ) (t : AlertTracker F) → IsValid t
      → (events : List (AlertEvent F)) × (after : AlertTracker F) × (observe incoming seq mono wall
            true t
          ≡ some (events, after))
        × ((id : ℕ) (t0 : AlertTrack F)
            → find_track id t.tracks ≡ some t0
            → (t1 : AlertTrack F) × (find_track id after.tracks ≡ some t1) × (t1.key ≡ t0.key))
  unfolding observe end_pass
  observe-hold_open o incoming seq mono wall t v =
      let m = assignment incoming t.tracks in
      let (p, looped, l) =
        slot_loop-Loop m 0 incoming seq mono wall t _ (assignment-Fits o incoming t v)
          (Loop-start t (values m.pairs) v) in
      (p.events, p.tracker, rw (looped, observe) refl, l.kept)
