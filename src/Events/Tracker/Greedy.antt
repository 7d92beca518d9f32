-- ===== src/Events/Tracker/Greedy.antt =====
-- The greedy loop of `_assign`.
use unidenr8_bluetooth.Prelude.{
  ℕ, ◌≡◌, refl, Bool, true, false, ◌||◌, ◌⊎◌, inl, inr, Option, some, List, [], ◌∷◌, arith, ◌==◌,
  Bool-cases, has, is_some, ◌∙◌, subst,
}
use unidenr8_bluetooth.Runtime.Float.{Float, IsOrdered}
use unidenr8_bluetooth.Events.Tracker.Assign.{Score, assigned, greedy, before, sort_scores}
use unidenr8_bluetooth.Events.Tracker.Order.{
  In, NoneBefore, Sorted, sort-Sorted, sort-In, In-sort, before_irreflexive,
}

-- No track is given to two readings.
abbrev pub OneToOne : List (ℕ × ℕ) → Type 0
OneToOne pairs = (i j id : ℕ) → assigned pairs i ≡ some id → assigned pairs j ≡ some id → i ≡ j

-- the numbers in use are those of the pairs
abbrev Uses : List (ℕ × ℕ) → List ℕ → Type 0
Uses pairs used = (i id : ℕ) → assigned pairs i ≡ some id → has used id ≡ true

module _ {F : Type 0} where
  greedy-OneToOne :
      (scored : List (Score F)) (pairs : List (ℕ × ℕ)) (used : List ℕ)
      → OneToOne pairs
      → Uses pairs used
      → OneToOne (greedy scored pairs used)
  unfolding greedy assigned
  greedy-OneToOne [] pairs used h k = h
  greedy-OneToOne (s ∷ scored) pairs used h k =
      elim (Bool-cases (is_some (assigned pairs s.index) || has used s.track_id)) [
        | inl taken ↦ rw taken (greedy-OneToOne scored pairs used h k)
        | inr free ↦ rw free (
            greedy-OneToOne scored ((s.index, s.track_id) ∷ pairs) (s.track_id ∷ used)
              (λ i j id p q. ground (arith, h i j id, k i id, k j id))
              (λ i id p. ground (arith, k i id)))
      ]

  -- a pair that is made stays
  greedy-keeps :
      (scored : List (Score F)) (pairs : List (ℕ × ℕ)) (used : List ℕ) (i id : ℕ)
      → assigned pairs i ≡ some id
      → assigned (greedy scored pairs used) i ≡ some id
  unfolding greedy assigned
  greedy-keeps [] pairs used i id h = h
  greedy-keeps (s ∷ scored) pairs used i id h =
      elim (Bool-cases (is_some (assigned pairs s.index) || has used s.track_id)) [
        | inl taken ↦ rw taken (greedy-keeps scored pairs used i id h)
        | inr free ↦ rw free (
            greedy-keeps scored ((s.index, s.track_id) ∷ pairs) (s.track_id ∷ used) i id
              (ground arith))
      ]

-- The choice `t` that blocks `s`: it has the slot or the track of `s`.
pub record Blocks {F : Type 0} ⦃f : Float F⦄ (scored : List (Score F)) (pairs : List (ℕ × ℕ))
    (s : Score F) : Type 0 where
  pub t : Score F
  pub among : In t scored
  pub chosen : assigned pairs t.index ≡ some t.track_id
  pub shares : (t.index ≡ s.index) ⊎ (t.track_id ≡ s.track_id)
  pub not_after : before s t ≡ false

-- the score of a pair that was made, when `rest` is left to look at
record Held {F : Type 0} ⦃f : Float F⦄ (all rest : List (Score F)) (i id : ℕ) : Type 0 where
  t : Score F
  among : In t all
  is_index : t.index ≡ i
  is_track : t.track_id ≡ id
  first : NoneBefore t rest

-- Every pair has its score, and every number in use has its pair.
record HeldAll {F : Type 0} ⦃f : Float F⦄ (all rest : List (Score F)) (pairs : List (ℕ × ℕ))
    (used : List ℕ) : Type 0 where
  by_index : (i id : ℕ) → assigned pairs i ≡ some id → Held all rest i id
  by_track : (id : ℕ) → has used id ≡ true → (i : ℕ) × (assigned pairs i ≡ some id)

is_some_inv : {A : Type 0} (x : Option A) → is_some x ≡ true → (a : A) × (x ≡ some a)
is_some_inv x h = ground arith

or-cases : (a b : Bool) → (a || b) ≡ true → (a ≡ true) ⊎ (b ≡ true)
or-cases a b h = ground arith

module _ {F : Type 0} ⦃f : Float F⦄ (all rest : List (Score F)) (s : Score F) (pairs : List (ℕ × ℕ))
    (used : List ℕ) where
  abbrev taken : Bool
  taken = is_some (assigned pairs s.index) || has used s.track_id

  later_Held : (i id : ℕ) → Held all (s ∷ rest) i id → Held all rest i id
  later_Held i id h = record {
    t = h.t;
    among = h.among;
    is_index = h.is_index;
    is_track = h.is_track;
    first = h.first.1;
  }

  Held-Blocks :
      (i id : ℕ)
      → assigned pairs i ≡ some id
      → Held all (s ∷ rest) i id
      → (i ≡ s.index) ⊎ (id ≡ s.track_id)
      → Blocks all pairs s
  Held-Blocks i id e h shares = record {
    t = h.t;
    among = h.among;
    chosen = rw (h.is_index, h.is_track) e;
    shares = elim shares [ inl p ↦ inl (h.is_index ∙ p) | inr p ↦ inr (h.is_track ∙ p) ];
    not_after = h.first.0;
  }

  -- a score that is passed over is blocked by what was chosen before it
  taken-Blocks : taken ≡ true → HeldAll all (s ∷ rest) pairs used → Blocks all pairs s
  taken-Blocks h held = elim (or-cases (is_some (assigned pairs s.index)) (has used s.track_id) h) [
    | inl slot ↦
        let (id, e) = is_some_inv (assigned pairs s.index) slot in
        Held-Blocks s.index id e (held.by_index s.index id e) (inl refl)
    | inr track ↦
        let (i, e) = held.by_track s.track_id track in
        Held-Blocks i s.track_id e (held.by_index i s.track_id e) (inr refl)
  ]

  taken-HeldAll : HeldAll all (s ∷ rest) pairs used → HeldAll all rest pairs used
  taken-HeldAll held = record {
    by_index = λ i id e. later_Held i id (held.by_index i id e);
    by_track = held.by_track;
  }

  abbrev pairs' : List (ℕ × ℕ)
  pairs' = (s.index, s.track_id) ∷ pairs

  assigned-new : assigned pairs' s.index ≡ some s.track_id
  unfolding assigned
  assigned-new = ground arith

  assigned-old :
      taken ≡ false → (i id : ℕ) → assigned pairs i ≡ some id → assigned pairs' i ≡ some id
  unfolding assigned
  assigned-old free i id e = ground arith

  new_pair :
      (i id : ℕ)
      → assigned pairs' i ≡ some id
      → ((s.index ≡ i) × (s.track_id ≡ id)) ⊎ (assigned pairs i ≡ some id)
  unfolding assigned
  new_pair i id e = ground arith

  free-HeldAll :
      taken ≡ false
      → In s all
      → NoneBefore s rest
      → HeldAll all (s ∷ rest) pairs used
      → HeldAll all rest pairs' (s.track_id ∷ used)
  free-HeldAll free member first held = record {
    by_index = λ i id e. elim (new_pair i id e) [
      | inl (p, q) ↦ record { t = s; among = member; is_index = p; is_track = q; first = first }
      | inr old ↦ later_Held i id (held.by_index i id old)
    ];
    by_track = λ id e. elim (Bool-cases (s.track_id == id)) [
      | inl same ↦ (s.index, assigned-new ∙ ground arith)
      | inr other ↦
          let (i, old) = held.by_track id (ground arith) in (i, assigned-old free i id old)
    ];
  }

module _ {F : Type 0} ⦃f : Float F⦄ (o : IsOrdered F) (all : List (Score F)) where
  keeps-Blocks :
      (rest : List (Score F)) (pairs : List (ℕ × ℕ)) (used : List ℕ) (s : Score F)
      → Blocks all pairs s
      → Blocks all (greedy rest pairs used) s
  keeps-Blocks rest pairs used s b = record {
    t = b.t;
    among = b.among;
    chosen = greedy-keeps rest pairs used b.t.index b.t.track_id b.chosen;
    shares = b.shares;
    not_after = b.not_after;
  }

  head_or :
      (pairs : List (ℕ × ℕ)) (s : Score F) (rest : List (Score F))
      → Blocks all pairs s
      → ((x : Score F) → In x rest → Blocks all pairs x)
      → (x : Score F) → (s ≡ x) ⊎ In x rest
      → Blocks all pairs x
  head_or pairs s rest b later x (inl e) = subst (Blocks all pairs) e b
  head_or pairs s rest b later x (inr p) = later x p

  chosen-Blocks :
      (s : Score F) (pairs : List (ℕ × ℕ)) → In s all → Blocks all ((s.index, s.track_id) ∷ pairs) s
  unfolding assigned
  chosen-Blocks s pairs member = record {
    t = s;
    among = member;
    chosen = ground arith;
    shares = inl refl;
    not_after = before_irreflexive o s;
  }

  -- The loop from any point on: what it passes over is blocked, and what it makes has a score.
  greedy-Blocks :
      (rest : List (Score F)) (pairs : List (ℕ × ℕ)) (used : List ℕ)
      → ((s : Score F) → In s rest → In s all)
      → Sorted rest
      → HeldAll all rest pairs used
      → ((s : Score F) → In s rest → Blocks all (greedy rest pairs used) s)
        × ((i id : ℕ) → assigned (greedy rest pairs used) i ≡ some id → Held all [] i id)
  unfolding greedy
  greedy-Blocks [] pairs used within sorted held = (λ s h. absurd h, held.by_index)
  greedy-Blocks (s ∷ rest) pairs used within sorted held =
      elim (Bool-cases (taken all rest s pairs used)) [
        | inl h ↦
            let (later, made) =
              greedy-Blocks rest pairs used (λ x p. within x (inr p)) sorted.1
                (taken-HeldAll all rest s pairs used held) in
            rw h (
              head_or (greedy rest pairs used) s rest
                  (keeps-Blocks rest pairs used s (taken-Blocks all rest s pairs used h held))
                  later,
              made,
            )
        | inr free ↦
            let member = within s (inl refl) in
            let p' = pairs' all rest s pairs used in
            let (later, made) =
              greedy-Blocks rest p' (s.track_id ∷ used) (λ x p. within x (inr p)) sorted.1
                (free-HeldAll all rest s pairs used free member sorted.0 held) in
            rw free (
              head_or (greedy rest p' (s.track_id ∷ used)) s rest
                  (keeps-Blocks rest p' (s.track_id ∷ used) s (chosen-Blocks s pairs member)) later,
              made,
            )
      ]

module _ {F : Type 0} ⦃f : Float F⦄ (o : IsOrdered F) (scored : List (Score F)) where
  abbrev chosen : List (ℕ × ℕ)
  chosen = greedy (sort_scores scored) [] []

  from_nothing : HeldAll scored (sort_scores scored) [] []
  unfolding assigned
  from_nothing = record { by_index = λ i id e. absurd (cc e); by_track = λ id e. absurd (cc e) }

  -- With `<` a strict weak order on the floats: the pairs that the greedy loop makes of any scores,
  -- from the best on: each is the pair of a score; no track has two readings; and a score whose
  -- pair was not made shares its reading or its track with a made pair whose score does not come
  -- after it.
  pub greedy-stable :
      ((i id : ℕ)
        → assigned chosen i ≡ some id
        → (s : Score F) × In s scored × (s.index ≡ i) × (s.track_id ≡ id))
      × OneToOne chosen
      × ((s : Score F) → In s scored → Blocks scored chosen s)
  unfolding assigned
  greedy-stable =
      let (blocked, made) =
        greedy-Blocks o scored (sort_scores scored) [] [] (λ s p. In-sort s scored p)
          (sort-Sorted o scored) from_nothing in
      (
        λ i id e. let h = made i id e in (h.t, h.among, h.is_index, h.is_track),
        greedy-OneToOne (sort_scores scored) [] [] (λ i j id p q. absurd (cc p))
            (λ i id p. absurd (cc p)),
        λ s p. blocked s (sort-In s scored p),
      )
