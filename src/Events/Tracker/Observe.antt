-- ===== src/Events/Tracker/Observe.antt =====
-- One snapshot: the rounds of the loop of `observe`, and what they keep.
use unidenr8_bluetooth.Prelude.{
  ℕ, suc, ◌+◌, ◌<◌, ◌≡◌, refl, Bool, true, false, ◌||◌, Option, none, some, List, [], ◌∷◌, ◌++◌,
  arith, All-append, if◌then◌else◌, ap, is_some, get_elem?, sym, ◌∙◌,
}
use native.Mathlib.Nat.{add-zero}
use unidenr8_bluetooth.Runtime.Text.{text_eq_sound}
use unidenr8_bluetooth.Runtime.Float.{Float}
use unidenr8_bluetooth.Runtime.Unicode.{Unicode}
use unidenr8_bluetooth.Telemetry.Alert.{Alert}
use unidenr8_bluetooth.Events.Matching.{match_cost, band_family}
use unidenr8_bluetooth.Events.Matching.Compatible.{match_cost-compatible, compatible}
use unidenr8_bluetooth.Events.Track.{AlertTrack, key_of, new_track, absorb}
use unidenr8_bluetooth.Events.Tracker.{
  AlertTracker, AlertEvent, Progress, find_track, plain_event, start_track, continue_track,
  slot_step, slot_loop,
}
use unidenr8_bluetooth.Events.Tracker.Assign.{Assignment, assigned, is_ambiguous}
use unidenr8_bluetooth.Events.Tracker.Valid.{
  Rising-append, Rising-set, ids-set, ids-append, find-append, find_track-id, has-find,
  set_track-keys, All-set, All-find, IsSound, IsValid,
}
use unidenr8_bluetooth.Events.Tracker.Ledger.{Ledger, ledger, replay, replay-append, enter_event}

module _ {F : Type 0} ⦃f : Float F⦄ ⦃u : Unicode⦄ where
  -- a match is of one key
  pub match_cost-key : (a b : Alert F) (cost : F) → match_cost a b ≡ some cost → key_of a ≡ key_of b
  unfolding key_of
  match_cost-key a b cost h =
      let c : compatible a b ≡ true = sym (match_cost-compatible a b) ∙ ap is_some h in
      let fam : band_family a.band ≡ band_family b.band = text_eq_sound _ _ (ground arith) in
      ground arith

  -- what the loop keeps, from the tracker before it
  pub record Loop (t : AlertTracker F) (p : Progress F) : Type 0 where
    pub valid : IsValid p.tracker
    pub tolerance : p.tracker.miss_tolerance ≡ t.miss_tolerance
    pub kept :
        (id : ℕ) (t0 : AlertTrack F)
        → find_track id t.tracks ≡ some t0
        → (t1 : AlertTrack F) × (find_track id p.tracker.tracks ≡ some t1) × (t1.key ≡ t0.key)
    pub below :
        (id : ℕ) (t0 : AlertTrack F)
        → find_track id t.tracks ≡ some t0
        → id < p.tracker.next_track_id
    pub replays : replay p.events (ledger t) ≡ some (ledger p.tracker)

  -- the event of a round is entered
  entered :
      (p : Progress F) (t : AlertTracker F) (e : AlertEvent F) (m : Ledger)
      → replay p.events (ledger t) ≡ some (ledger p.tracker)
      → enter_event e.kind e.track_id (ledger p.tracker) ≡ some m
      → replay (p.events ++ (e ∷ [])) (ledger t) ≡ some m
  entered p t e m h k = replay-append p.events (e ∷ []) (ledger t) (ledger p.tracker) h ∙ rw k

  start_track-Loop :
      (a : Alert F) (seq mono wall : ℕ) (t : AlertTracker F) (p : Progress F)
      → Loop t p
      → Loop t (start_track a seq mono wall p)
  unfolding start_track plain_event new_track
  start_track-Loop a seq mono wall t p l = record {
    valid = record {
      rising = Rising-append 1 p.tracker.next_track_id p.tracker.tracks _ l.valid.rising refl;
      sound =
          All-append (IsSound p.tracker.miss_tolerance) p.tracker.tracks _ l.valid.sound
            (record { patient = omega arith; seen = omega arith; keyed = refl }, tt);
    };
    tolerance = l.tolerance;
    kept = λ id t0 h.
        let (t1, found, same) = l.kept id t0 h in
        (t1, find-append p.tracker.tracks _ id (omega (arith, l.below id t0 h)) ∙ found, same);
    below = λ id t0 h. omega (arith, l.below id t0 h);
    replays = entered p t _ _ l.replays (
        ground
          (arith, ids-append p.tracker.tracks (new_track p.tracker.next_track_id a mono wall)));
  }

  -- the published change of a track that the loop found: the event, entered or not
  after_event :
      (changed : Bool) (p : Progress F) (t : AlertTracker F) (e : AlertEvent F)
      → replay p.events (ledger t) ≡ some (ledger p.tracker)
      → enter_event e.kind e.track_id (ledger p.tracker) ≡ some (ledger p.tracker)
      → replay (if changed then p.events ++ (e ∷ []) else p.events) (ledger t)
        ≡ some (ledger p.tracker)
  after_event true p t e h k = entered p t e (ledger p.tracker) h k
  after_event false p t e h k = h

  continue_track-Loop :
      (unsure : Bool) (a : Alert F) (seq mono wall id : ℕ) (t : AlertTracker F) (p : Progress F)
      (track : AlertTrack F)
      → find_track id p.tracker.tracks ≡ some track
      → track.key ≡ key_of a
      → Loop t p
      → Loop t (continue_track unsure a seq mono wall p track)
  unfolding continue_track plain_event absorb
  continue_track-Loop unsure a seq mono wall id t p track found same l =
      let number = find_track-id id p.tracker.tracks track found in
      let here : find_track track.track_id p.tracker.tracks ≡ some track =
        ap (λ i. find_track i p.tracker.tracks) number ∙ found in
      let (changed, track') =
        absorb a mono wall (record track { ambiguous = track.ambiguous || unsure }) in
      let old =
        All-find (IsSound p.tracker.miss_tolerance) id p.tracker.tracks track found l.valid.sound in
      record {
        valid = record {
          rising = Rising-set 1 p.tracker.next_track_id p.tracker.tracks track' l.valid.rising;
          sound =
              All-set (IsSound p.tracker.miss_tolerance) p.tracker.tracks track'
                (record { patient = omega arith; seen = omega arith; keyed = same }) l.valid.sound;
        };
        tolerance = l.tolerance;
        kept = λ j t0 h.
            let (t1, found1, same1) = l.kept j t0 h in
            let (t2, found2, same2) =
              set_track-keys p.tracker.tracks track track' t1 j here refl found1 in
            (t2, found2, same2 ∙ same1);
        below = l.below;
        replays = rw (ids-set p.tracker.tracks track') (
            after_event changed p t _ l.replays
              (ground (arith, has-find track.track_id p.tracker.tracks, number, found)));
      }

  -- what the loop needs of the assignment, for the readings from `index` on
  abbrev pub Fits : AlertTracker F → List (ℕ × ℕ) → ℕ → List (Alert F) → Type 0
  Fits t pairs index incoming =
      (i id : ℕ)
      → assigned pairs (index + i) ≡ some id
      → (a : Alert F) × (t0 : AlertTrack F) × (get_elem? incoming i ≡ some a)
        × (find_track id t.tracks ≡ some t0)
        × (t0.key ≡ key_of a)

  slot_step-Loop :
      (o : Option ℕ) (unsure : Bool) (a : Alert F) (seq mono wall : ℕ) (t : AlertTracker F)
      (p : Progress F)
      → ((id : ℕ)
          → o ≡ some id
          → (t0 : AlertTrack F) × (find_track id t.tracks ≡ some t0) × (t0.key ≡ key_of a))
      → Loop t p
      → (p' : Progress F) × (slot_step o unsure a seq mono wall p ≡ some p') × Loop t p'
  unfolding slot_step
  slot_step-Loop none unsure a seq mono wall t p fits l =
      (start_track a seq mono wall p, refl, start_track-Loop a seq mono wall t p l)
  slot_step-Loop (some id) unsure a seq mono wall t p fits l =
      let (t0, found0, same0) = fits id refl in
      let (t1, found1, same1) = l.kept id t0 found0 in
      (
        continue_track unsure a seq mono wall p t1,
        rw (found1, slot_step),
        continue_track-Loop unsure a seq mono wall id t p t1 found1 (same1 ∙ same0) l,
      )

  pub slot_loop-Loop :
      (m : Assignment F) (index : ℕ) (incoming : List (Alert F)) (seq mono wall : ℕ)
      (t : AlertTracker F) (p : Progress F)
      → Fits t m.pairs index incoming
      → Loop t p
      → (p' : Progress F) × (slot_loop m index incoming seq mono wall p ≡ some p') × Loop t p'
  unfolding slot_loop
  slot_loop-Loop m index [] seq mono wall t p fits l = (p, refl, l)
  slot_loop-Loop m index (a ∷ incoming) seq mono wall t p fits l =
      let (p1, stepped, l1) =
        slot_step-Loop (assigned m.pairs index) (is_ambiguous m index) a seq mono wall t p
          (λ id e.
            let (b, t0, at, found, same) = fits 0 id (rw add-zero e) in
            (t0, found, ground (arith, at, same)))
          l in
      let (p2, looped, l2) =
        slot_loop-Loop m (index + 1) incoming seq mono wall t p1
          (λ i id e.
            let same : index + suc i ≡ index + 1 + i = omega arith in
            fits (suc i) id (ap (assigned m.pairs) same ∙ e))
          l1 in
      (p2, rw (stepped, slot_loop) looped, l2)
