-- ===== src/Events/Tracker/Valid.antt =====
-- The invariant of an `AlertTracker`, and what finding, changing and adding a track does to it.
use unidenr8_bluetooth.Prelude.{
  ℕ, ◌+◌, ◌≤◌, ◌≡◌, refl, inl, inr, some, List, [], ◌∷◌, ◌++◌, arith, All, Bool-cases,
  if◌then◌else◌, has, ◌==◌, ap, is_some, ◌≢◌, subst,
}
use unidenr8_bluetooth.Runtime.Unicode.{Unicode}
use unidenr8_bluetooth.Events.Track.{AlertTrack, key_of}
use unidenr8_bluetooth.Events.Tracker.{AlertTracker, find_track, set_track}
use unidenr8_bluetooth.Events.Tracker.Order.{In}

module _ {F : Type 0} where
  -- the numbers of the open tracks, in their order
  abbrev pub ids : List (AlertTrack F) → List ℕ
  ids [] = []
  ids (t ∷ ts) = t.track_id ∷ ids ts

  -- the numbers rise, from `low` on and below `high`
  abbrev pub Rising : ℕ → List (AlertTrack F) → ℕ → Type 0
  Rising low [] high = low ≤ high
  Rising low (t ∷ ts) high = (low ≤ t.track_id) × Rising (t.track_id + 1) ts high

  pub Rising-below :
      (low low' high : ℕ) (ts : List (AlertTrack F))
      → low' ≤ low
      → Rising low ts high
      → Rising low' ts high
  Rising-below low low' high [] h r = omega arith
  Rising-below low low' high (t ∷ ts) h r = (omega arith, r.1)

  pub Rising-le : (low high : ℕ) (ts : List (AlertTrack F)) → Rising low ts high → low ≤ high
  Rising-le low high [] r = r
  Rising-le low high (t ∷ ts) r = omega (arith, Rising-le (t.track_id + 1) high ts r.1)

  pub Rising-append :
      (low high : ℕ) (ts : List (AlertTrack F)) (t : AlertTrack F)
      → Rising low ts high
      → t.track_id ≡ high
      → Rising low (ts ++ (t ∷ [])) (high + 1)
  Rising-append low high [] t r e = (omega arith, omega arith)
  Rising-append low high (s ∷ ts) t r e = (r.0, Rising-append (s.track_id + 1) high ts t r.1 e)

  pub Rising-set :
      (low high : ℕ) (ts : List (AlertTrack F)) (t' : AlertTrack F)
      → Rising low ts high
      → Rising low (set_track t' ts) high
  unfolding set_track
  Rising-set low high [] t' r = r
  Rising-set low high (s ∷ ts) t' r = elim (Bool-cases (s.track_id == t'.track_id)) [
    | inl same ↦ let e : s.track_id ≡ t'.track_id = ground arith in rw same (rw e at r)
    | inr other ↦ rw other (r.0, Rising-set (s.track_id + 1) high ts t' r.1)
  ]

  pub ids-set : (ts : List (AlertTrack F)) (t' : AlertTrack F) → ids (set_track t' ts) ≡ ids ts
  unfolding set_track
  ids-set [] t' = refl
  ids-set (s ∷ ts) t' = ground (arith, ids-set ts t')

  pub ids-append :
      (ts : List (AlertTrack F)) (t : AlertTrack F)
      → ids (ts ++ (t ∷ [])) ≡ ids ts ++ (t.track_id ∷ [])
  ids-append [] t = refl
  ids-append (s ∷ ts) t = ap (◌∷◌ s.track_id) (ids-append ts t)

  pub find-set :
      (ts : List (AlertTrack F)) (t t' : AlertTrack F) (id : ℕ)
      → find_track t'.track_id ts ≡ some t
      → find_track id (set_track t' ts) ≡ (if t'.track_id == id then some t' else find_track id ts)
  unfolding find_track set_track
  find-set [] t t' id h = absurd (cc h)
  find-set (s ∷ ts) t t' id h = ground (arith, find-set ts t t' id)

  -- the change of one track keeps every track, and its key if it keeps its own
  pub set_track-keys :
      (ts : List (AlertTrack F)) (track track' t1 : AlertTrack F) (j : ℕ)
      → find_track track'.track_id ts ≡ some track
      → track'.key ≡ track.key
      → find_track j ts ≡ some t1
      → (t2 : AlertTrack F) × (find_track j (set_track track' ts) ≡ some t2) × (t2.key ≡ t1.key)
  set_track-keys ts track track' t1 j h k g = elim (Bool-cases (track'.track_id == j)) [
    | inl same ↦ (track', rw (find-set ts track track' j h, same), ground arith)
    | inr other ↦ (t1, rw (find-set ts track track' j h, other) g, refl)
  ]

  pub find-append :
      (ts : List (AlertTrack F)) (t : AlertTrack F) (id : ℕ)
      → id ≢ t.track_id
      → find_track id (ts ++ (t ∷ [])) ≡ find_track id ts
  unfolding find_track
  find-append [] t id h = ground arith
  find-append (s ∷ ts) t id h = ground (arith, find-append ts t id h)

  pub find-append_new :
      (low high : ℕ) (ts : List (AlertTrack F)) (t : AlertTrack F)
      → Rising low ts high
      → t.track_id ≡ high
      → find_track high (ts ++ (t ∷ [])) ≡ some t
  unfolding find_track
  find-append_new low high [] t r e = ground arith
  find-append_new low high (s ∷ ts) t r e = ground (
    arith,
    find-append_new (s.track_id + 1) high ts t r.1 e,
    Rising-le (s.track_id + 1) high ts r.1,
  )

  -- a found track has its number, and its number is among those in use
  pub find_track-id :
      (id : ℕ) (ts : List (AlertTrack F)) (t : AlertTrack F)
      → find_track id ts ≡ some t
      → t.track_id ≡ id
  unfolding find_track
  find_track-id id [] t h = absurd (cc h)
  find_track-id id (s ∷ ts) t h = ground (arith, find_track-id id ts t)

  pub has-find : (id : ℕ) (ts : List (AlertTrack F)) → has (ids ts) id ≡ is_some (find_track id ts)
  unfolding find_track
  has-find id [] = refl
  has-find id (s ∷ ts) = ground (arith, has-find id ts)

  pub All-set :
      (P : AlertTrack F → Type 0) (ts : List (AlertTrack F)) (t' : AlertTrack F)
      → P t'
      → All P ts
      → All P (set_track t' ts)
  unfolding set_track
  All-set P [] t' h k = k
  All-set P (s ∷ ts) t' h k = elim (Bool-cases (s.track_id == t'.track_id)) [
    | inl same ↦ rw same (h, k.1)
    | inr other ↦ rw other (k.0, All-set P ts t' h k.1)
  ]

  pub All-find :
      (P : AlertTrack F → Type 0) (id : ℕ) (ts : List (AlertTrack F)) (t : AlertTrack F)
      → find_track id ts ≡ some t
      → All P ts
      → P t
  unfolding find_track
  All-find P id [] t h k = absurd (cc h)
  All-find P id (s ∷ ts) t h k = elim (Bool-cases (s.track_id == id)) [
    | inl same ↦ let e : s ≡ t = ground arith in subst P e k.0
    | inr other ↦ All-find P id ts t (ground arith) k.1
  ]

  -- the numbers tell the tracks apart
  pub find-In :
      (low high : ℕ) (ts : List (AlertTrack F)) (t : AlertTrack F)
      → Rising low ts high
      → In t ts
      → (low ≤ t.track_id) × (find_track t.track_id ts ≡ some t)
  unfolding find_track
  find-In low high [] t r h = absurd h
  find-In low high (s ∷ ts) t r (inl e) = rw (← e) (r.0, ground arith)
  find-In low high (s ∷ ts) t r (inr h) =
      let (above, found) = find-In (s.track_id + 1) high ts t r.1 h in
      (omega (arith, above), ground (arith, found, above))

-- What holds of every open track: it has not missed more than is tolerated, it was seen, and its
-- key is that of its latest reading.
pub record IsSound {F : Type 0} ⦃u : Unicode⦄ (tolerance : ℕ) (t : AlertTrack F) : Type 0 where
  pub patient : t.misses ≤ tolerance
  pub seen : 1 ≤ t.samples
  pub keyed : t.key ≡ key_of t.alert

pub record IsValid {F : Type 0} ⦃u : Unicode⦄ (t : AlertTracker F) : Type 0 where
  pub rising : Rising 1 t.tracks t.next_track_id
  pub sound : All (IsSound t.miss_tolerance) t.tracks
