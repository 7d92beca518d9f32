-- ===== src/Events/Tracker/Scored.antt =====
-- What `_assign` achieves, stated of the readings and the open tracks.
use unidenr8_bluetooth.Prelude.{
  ℕ, zero, suc, ◌+◌, ◌≡◌, refl, false, ◌⊎◌, inl, inr, Option, none, some, List, [], ◌∷◌, ◌++◌,
  arith, get_elem?, subst, ap, ◌∙◌,
}
use unidenr8_bluetooth.Runtime.Float.{Float, IsOrdered}
use unidenr8_bluetooth.Runtime.Unicode.{Unicode}
use unidenr8_bluetooth.Telemetry.Alert.{Alert}
use unidenr8_bluetooth.Events.Matching.{match_cost}
use unidenr8_bluetooth.Events.Track.{AlertTrack}
use unidenr8_bluetooth.Events.Tracker.Assign.{
  Score, assigned, before, scored_with, scores_of, scores_from, assignment,
}
use unidenr8_bluetooth.Events.Tracker.Order.{In}
use unidenr8_bluetooth.Events.Tracker.Greedy.{OneToOne, greedy-stable}

pub In-append : {A : Type 0} (x : A) (xs ys : List A) → In x (xs ++ ys) → In x xs ⊎ In x ys
In-append x [] ys h = inr h
In-append x (y ∷ xs) ys (inl e) = inl (inl e)
In-append x (y ∷ xs) ys (inr h) = elim (In-append x xs ys h) [ inl p ↦ inl (inr p) | inr p ↦ inr p ]

pub append-In : {A : Type 0} (x : A) (xs ys : List A) → In x xs ⊎ In x ys → In x (xs ++ ys)
append-In x [] ys (inr h) = h
append-In x [] ys (inl h) = absurd h
append-In x (y ∷ xs) ys (inl (inl e)) = inl e
append-In x (y ∷ xs) ys (inl (inr p)) = inr (append-In x xs ys (inl p))
append-In x (y ∷ xs) ys (inr h) = inr (append-In x xs ys (inr h))

module _ {F : Type 0} ⦃f : Float F⦄ ⦃u : Unicode⦄ where
  -- the reading at `i` was scored `cost` against the track with the number `id`
  pub record Scored (incoming : List (Alert F)) (tracks : List (AlertTrack F)) (i id : ℕ) (cost : F)
      : Type 0 where
    pub reading : Alert F
    pub track : AlertTrack F
    pub at : get_elem? incoming i ≡ some reading
    pub is_open : In track tracks
    pub numbered : track.track_id ≡ id
    pub matches : match_cost track.alert reading ≡ some cost

  -- one round of the inner loop
  In-scored_with :
      (o : Option F) (index id : ℕ) (later : List (Score F)) (s : Score F)
      → In s (scored_with o index id later)
      → ((o ≡ some s.cost) × (index ≡ s.index) × (id ≡ s.track_id)) ⊎ In s later
  unfolding scored_with
  In-scored_with none index id later s h = inr h
  In-scored_with (some cost) index id later s (inl e) = inl (ground arith)
  In-scored_with (some cost) index id later s (inr p) = inr p

  scored_with-In :
      (o : Option F) (index id : ℕ) (later : List (Score F)) (cost : F)
      → o ≡ some cost
      → In (record { cost = cost; index = index; track_id = id }) (scored_with o index id later)
  unfolding scored_with
  scored_with-In none index id later cost e = absurd (cc e)
  scored_with-In (some c) index id later cost e = inl (ground arith)

  scored_with-later :
      (o : Option F) (index id : ℕ) (later : List (Score F)) (s : Score F)
      → In s later
      → In s (scored_with o index id later)
  unfolding scored_with
  scored_with-later none index id later s h = h
  scored_with-later (some c) index id later s h = inr h

  In-scores_of :
      (index : ℕ) (a : Alert F) (tracks : List (AlertTrack F)) (s : Score F)
      → In s (scores_of index a tracks)
      → (t : AlertTrack F) × In t tracks
        × (t.track_id ≡ s.track_id)
        × (match_cost t.alert a ≡ some s.cost)
        × (index ≡ s.index)
  unfolding scores_of
  In-scores_of index a [] s h = absurd h
  In-scores_of index a (t ∷ tracks) s h =
      elim (In-scored_with (match_cost t.alert a) index t.track_id (scores_of index a tracks) s h) [
        | inl (e, p, q) ↦ (t, inl refl, q, e, p)
        | inr later ↦
            let (t', p, q, e, g) = In-scores_of index a tracks s later in (t', inr p, q, e, g)
      ]

  scores_of-In :
      (index : ℕ) (a : Alert F) (tracks : List (AlertTrack F)) (t : AlertTrack F) (cost : F)
      → In t tracks
      → match_cost t.alert a ≡ some cost
      → In (record { cost = cost; index = index; track_id = t.track_id }) (scores_of index a tracks)
  unfolding scores_of
  scores_of-In index a [] t cost h e = absurd h
  scores_of-In index a (t' ∷ tracks) t cost (inl p) e =
      subst
        (λ (x : AlertTrack F).
          In (record { cost = cost; index = index; track_id = x.track_id })
            (scored_with (match_cost t'.alert a) index t'.track_id (scores_of index a tracks)))
        p
        (scored_with-In (match_cost t'.alert a) index t'.track_id (scores_of index a tracks) cost
          (ap (λ (x : AlertTrack F). match_cost x.alert a) p ∙ e))
  scores_of-In index a (t' ∷ tracks) t cost (inr p) e =
      scored_with-later (match_cost t'.alert a) index t'.track_id (scores_of index a tracks) _
        (scores_of-In index a tracks t cost p e)

  In-scores_from :
      (k : ℕ) (incoming : List (Alert F)) (tracks : List (AlertTrack F)) (s : Score F)
      → In s (scores_from k incoming tracks)
      → (i : ℕ) × (s.index ≡ k + i) × Scored incoming tracks i s.track_id s.cost
  unfolding scores_from
  In-scores_from k [] tracks s h = absurd h
  In-scores_from k (a ∷ incoming) tracks s h =
      elim (In-append s (scores_of k a tracks) (scores_from (k + 1) incoming tracks) h) [
        | inl here ↦
            let (t, p, q, e, g) = In-scores_of k a tracks s here in
            (
              0,
              omega arith,
              record { reading = a; track = t; at = refl; is_open = p; numbered = q; matches = e },
            )
        | inr later ↦
            let (i, g, r) = In-scores_from (k + 1) incoming tracks s later in
            (
              suc i,
              omega arith,
              record {
                reading = r.reading;
                track = r.track;
                at = r.at;
                is_open = r.is_open;
                numbered = r.numbered;
                matches = r.matches;
              },
            )
      ]

  scores_from-In :
      (k i : ℕ) (incoming : List (Alert F)) (tracks : List (AlertTrack F)) (id : ℕ) (cost : F)
      → Scored incoming tracks i id cost
      → In (record { cost = cost; index = k + i; track_id = id }) (scores_from k incoming tracks)
  unfolding scores_from
  scores_from-In k i [] tracks id cost r = absurd (cc r.at)
  scores_from-In k zero (a ∷ incoming) tracks id cost r =
      let x : Score F = record { cost = cost; index = k; track_id = r.track.track_id } in
      let y : Score F = record { cost = cost; index = k + 0; track_id = id } in
      let same : x ≡ y = ground (arith, r.numbered) in
      let e : a ≡ r.reading = ground (arith, r.at) in
      subst (λ z. In z (scores_from k (a ∷ incoming) tracks)) same
        (append-In x (scores_of k a tracks) (scores_from (k + 1) incoming tracks)
          (inl (scores_of-In k a tracks r.track cost r.is_open (rw e r.matches))))
  scores_from-In k (suc i) (a ∷ incoming) tracks id cost r =
      let x : Score F = record { cost = cost; index = k + 1 + i; track_id = id } in
      let y : Score F = record { cost = cost; index = k + suc i; track_id = id } in
      let same : x ≡ y = ground arith in
      subst (λ z. In z (scores_from k (a ∷ incoming) tracks)) same
        (append-In x (scores_of k a tracks) (scores_from (k + 1) incoming tracks) (
          inr (
            scores_from-In (k + 1) i incoming tracks id cost (record {
              reading = r.reading;
              track = r.track;
              at = r.at;
              is_open = r.is_open;
              numbered = r.numbered;
              matches = r.matches;
            }))))

module _ {F : Type 0} ⦃f : Float F⦄ ⦃u : Unicode⦄ (o : IsOrdered F) (incoming : List (Alert F))
    (tracks : List (AlertTrack F)) where
  abbrev pub made : List (ℕ × ℕ)
  made = (assignment incoming tracks).pairs

  -- a made pair that shares the reading `i` or the track `id`, at no higher cost
  pub record Rival (i id : ℕ) (cost : F) : Type 0 where
    pub index : ℕ
    pub track_id : ℕ
    pub lower : F
    pub chosen : assigned made index ≡ some track_id
    pub scored : Scored incoming tracks index track_id lower
    pub shares : (index ≡ i) ⊎ (track_id ≡ id)
    pub no_higher : f.lt cost lower ≡ false

  at_index :
      {i j n m : ℕ} {cost : F}
      → j ≡ i
      → n ≡ m
      → Scored incoming tracks j n cost
      → Scored incoming tracks i m cost
  at_index e g r = rw (← e, ← g) r

  no_higher_cost : (a b : Score F) → before a b ≡ false → f.lt a.cost b.cost ≡ false
  unfolding before
  no_higher_cost a b h = ground arith

  -- Greedy assignment, with `<` a strict weak order on the floats: a reading is only given to an
  -- open track that it matches; no track is given to two readings; and where a reading matches an
  -- open track and was not given to it, the reading or the track went to a match whose cost is not
  -- higher.
  pub assignment-stable :
      ((i id : ℕ) → assigned made i ≡ some id → (cost : F) × Scored incoming tracks i id cost)
      × OneToOne made
      × ((i id : ℕ) (cost : F) → Scored incoming tracks i id cost → Rival i id cost)
  unfolding assignment
  assignment-stable =
      let (sound, one, blocked) = greedy-stable o (scores_from 0 incoming tracks) in
      (
        λ i id e.
            let (s, p, at, number) = sound i id e in
            let (j, g, r) = In-scores_from 0 incoming tracks s p in
            (s.cost, at_index (omega arith) number r),
        one,
        λ i id cost r.
            let b = blocked _ (scores_from-In 0 i incoming tracks id cost r) in
            let (j, g, q) = In-scores_from 0 incoming tracks b.t b.among in
            record {
              index = b.t.index;
              track_id = b.t.track_id;
              lower = b.t.cost;
              chosen = b.chosen;
              scored = at_index (omega arith) refl q;
              shares = elim b.shares [ inl e ↦ inl (omega arith) | inr e ↦ inr e ];
              no_higher = no_higher_cost _ b.t b.not_after;
            },
      )
