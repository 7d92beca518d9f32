-- ===== src/Events/Track/Aggregates.antt =====
-- What a track says of the whole encounter: the extremes of all its readings.
use unidenr8_bluetooth.Prelude.{
  ℕ, ◌+◌, ◌≡◌, refl, true, false, ◌⊎◌, inl, inr, Option, none, some, List, [], ◌∷◌, arith, length,
  All, Any, Bool-cases, subst, sym,
}
use unidenr8_bluetooth.Prelude.Int.{max_ℤ, ◌≤ℤ◌, ltb_ℤ}
use unidenr8_bluetooth.Runtime.Float.{Float, IsOrdered, max_float, min_float}
use unidenr8_bluetooth.Runtime.Unicode.{Unicode}
use unidenr8_bluetooth.Telemetry.Alert.{Alert}
use unidenr8_bluetooth.Events.Track.{AlertTrack, key_of, new_track, absorb, widest}

-- `v` bounds an optional reading
abbrev pub Bounds : {A : Type 0} → (A → A → Type 0) → A → Option A → Type 0
Bounds below v none = Unit {0}
Bounds below v (some w) = below w v

-- `m` is the extreme of the readings that carry a value: it bounds them all and is one of them.
abbrev pub IsExtreme : {A : Type 0} → (A → A → Type 0) → Option A → List (Option A) → Type 0
IsExtreme below none xs = All (λ x. x ≡ none) xs
IsExtreme below (some v) xs = All (Bounds below v) xs × Any (λ x. x ≡ some v) xs

-- A choice of one of two values, not below either.
pub record Picks {A : Type 0} (below : A → A → Type 0) (pick : A → A → A) : Type 0 where
  reflexive : (a : A) → below a a
  transitive : (a b c : A) → below a b → below b c → below a c
  left : (a b : A) → below a (pick a b)
  right : (a b : A) → below b (pick a b)
  chosen : (a b : A) → (pick a b ≡ a) ⊎ (pick a b ≡ b)

module _ {A : Type 0} (below : A → A → Type 0) (pick : A → A → A) (p : Picks below pick) where
  All-Bounds :
      (v w : A) (xs : List (Option A))
      → below v w
      → All (Bounds below v) xs
      → All (Bounds below w) xs
  All-Bounds v w [] h k = tt
  All-Bounds v w (none ∷ xs) h k = (tt, All-Bounds v w xs h k.1)
  All-Bounds v w (some x ∷ xs) h k = (p.transitive x v w k.0 h, All-Bounds v w xs h k.1)

  none-Bounds : (v : A) (xs : List (Option A)) → All (λ x. x ≡ none) xs → All (Bounds below v) xs
  none-Bounds v [] h = tt
  none-Bounds v (none ∷ xs) h = (tt, none-Bounds v xs h.1)
  none-Bounds v (some x ∷ xs) h = absurd (cc (h.0))

  -- one more reading
  widest-IsExtreme :
      (m x : Option A) (xs : List (Option A))
      → IsExtreme below m xs
      → IsExtreme below (widest pick m x) (x ∷ xs)
  widest-IsExtreme none none xs h = (refl, h)
  widest-IsExtreme none (some b) xs h = ((p.reflexive b, none-Bounds b xs h), inl refl)
  widest-IsExtreme (some a) none xs h = ((tt, h.0), inr h.1)
  widest-IsExtreme (some a) (some b) xs h = (
    (p.right a b, All-Bounds a (pick a b) xs (p.left a b) h.0),
    elim (p.chosen a b) [
      | inl e ↦ inr (subst (λ v. Any (λ x. x ≡ some v) xs) (sym e) h.1)
      | inr e ↦ inl (rw e)
    ],
  )

max_ℤ-Picks : Picks ◌≤ℤ◌ max_ℤ
max_ℤ-Picks = record {
  reflexive = λ a. omega arith;
  transitive = λ a b c h k. omega arith;
  left = λ a b. ground arith;
  right = λ a b. ground arith;
  chosen = λ a b. elim (Bool-cases (ltb_ℤ a b)) [ inl e ↦ inr (rw e) | inr e ↦ inl (rw e) ];
}

module _ {F : Type 0} ⦃f : Float F⦄ where
  -- not less
  abbrev pub AtMost : F → F → Type 0
  AtMost a b = f.lt b a ≡ false

  abbrev pub AtLeast : F → F → Type 0
  AtLeast a b = f.lt a b ≡ false

module _ {F : Type 0} ⦃f : Float F⦄ (o : IsOrdered F) where
  not_both : (a b : F) → f.lt a b ≡ true → f.lt b a ≡ false
  not_both a b h = ground (arith, o.transitive a b a h, o.irreflexive a)

  max_float-Picks : Picks {A = F} AtMost max_float
  unfolding max_float
  max_float-Picks = record {
    reflexive = o.irreflexive;
    transitive = λ a b c h k. o.negatively_transitive c b a k h;
    left = λ a b. ground (arith, not_both a b, o.irreflexive a);
    right = λ a b. ground (arith, o.irreflexive b);
    chosen = λ a b. elim (Bool-cases (f.lt a b)) [ inl e ↦ inr (rw e) | inr e ↦ inl (rw e) ];
  }

  min_float-Picks : Picks {A = F} AtLeast min_float
  unfolding min_float
  min_float-Picks = record {
    reflexive = o.irreflexive;
    transitive = λ a b c h k. o.negatively_transitive a b c h k;
    left = λ a b. ground (arith, not_both b a, o.irreflexive a);
    right = λ a b. ground (arith, o.irreflexive b);
    chosen = λ a b. elim (Bool-cases (f.lt b a)) [ inl e ↦ inr (rw e) | inr e ↦ inl (rw e) ];
  }

pub record Observation (F : Type 0) : Type 0 where
  pub alert : Alert F
  pub monotonic_ns : ℕ
  pub wall_ns : ℕ

-- a field of every reading, the newest first, in front of those in `seen`
abbrev pub readings : {F A : Type 0} → (Alert F → A) → List (Observation F) → List A → List A
readings field [] seen = seen
readings field (o ∷ later) seen = readings field later (field o.alert ∷ seen)

module _ {F : Type 0} ⦃f : Float F⦄ where
  unfoldable pub absorb_all : List (Observation F) → AlertTrack F → AlertTrack F
  absorb_all [] t = t
  absorb_all (o ∷ later) t = absorb_all later (absorb o.alert o.monotonic_ns o.wall_ns t).1

  module _ {A : Type 0} (below : A → A → Type 0) (pick : A → A → A) (p : Picks below pick)
      (aggregate : AlertTrack F → Option A) (field : Alert F → Option A)
      (updates : (a : Alert F) (mono wall : ℕ) (t : AlertTrack F)
        → aggregate (absorb a mono wall t).1 ≡ widest pick (aggregate t) (field a)) where
    absorb_all-IsExtreme :
        (obs : List (Observation F)) (t : AlertTrack F) (seen : List (Option A))
        → IsExtreme below (aggregate t) seen
        → IsExtreme below (aggregate (absorb_all obs t)) (readings field obs seen)
    unfolding absorb_all
    absorb_all-IsExtreme [] t seen h = h
    absorb_all-IsExtreme (o ∷ later) t seen h =
        absorb_all-IsExtreme later (absorb o.alert o.monotonic_ns o.wall_ns t).1
          (field o.alert ∷ seen)
          (subst (λ m. IsExtreme below m (field o.alert ∷ seen))
            (sym (updates o.alert o.monotonic_ns o.wall_ns t))
            (widest-IsExtreme below pick p (aggregate t) (field o.alert) seen h))

  absorb_all-samples :
      (obs : List (Observation F)) (t : AlertTrack F)
      → ((absorb_all obs t).samples ≡ length obs + t.samples)
        × ((absorb_all obs t).track_id ≡ t.track_id)
        × ((absorb_all obs t).key ≡ t.key)
        × ((absorb_all obs t).first_monotonic_ns ≡ t.first_monotonic_ns)
  unfolding absorb_all absorb
  absorb_all-samples [] t = (omega arith, refl, refl, refl)
  absorb_all-samples (o ∷ later) t =
      let r = absorb_all-samples later (absorb o.alert o.monotonic_ns o.wall_ns t).1 in
      (omega (arith, r.0), r.1, r.2, r.3)

one :
    {A : Type 0} (below : A → A → Type 0) (r : (a : A) → below a a) (x : Option A)
    → IsExtreme below x (x ∷ [])
one below r none = (refl, tt)
one below r (some a) = ((r a, tt), inl refl)

module _ {F : Type 0} ⦃f : Float F⦄ ⦃u : Unicode⦄ (o : IsOrdered F) (id mono wall : ℕ) (a : Alert F)
    (obs : List (Observation F)) where
  abbrev whole : AlertTrack F
  whole = absorb_all obs (new_track id a mono wall)

  -- With `<` a strict weak order on the floats: a track that begins with one reading and absorbs
  -- others holds the greatest strength, the greatest raw signal, the least and the greatest
  -- frequency of all of them, unknown values left out (and no value exactly if none is known); it
  -- counts them all, and it keeps its number, its key and the time of the first.
  pub absorb_all-aggregates :
      IsExtreme ◌≤ℤ◌ whole.max_strength (readings (λ x. x.strength) obs (a.strength ∷ []))
      × IsExtreme ◌≤ℤ◌ whole.max_raw_signal (readings (λ x. x.signal) obs (a.signal ∷ []))
      × IsExtreme AtLeast whole.min_frequency_ghz
          (readings (λ x. x.frequency_ghz) obs (a.frequency_ghz ∷ []))
      × IsExtreme AtMost whole.max_frequency_ghz
          (readings (λ x. x.frequency_ghz) obs (a.frequency_ghz ∷ []))
      × (whole.samples ≡ length obs + 1)
      × (whole.track_id ≡ id)
      × (whole.key ≡ key_of a)
      × (whole.first_monotonic_ns ≡ mono)
  unfolding absorb new_track
  absorb_all-aggregates =
      let t = new_track id a mono wall in
      let (counted, same_id, same_key, same_start) = absorb_all-samples obs t in
      (
        absorb_all-IsExtreme ◌≤ℤ◌ max_ℤ max_ℤ-Picks (λ t. t.max_strength) (λ x. x.strength)
            (λ a m w t. refl) obs t _ (one ◌≤ℤ◌ (λ x. omega arith) a.strength),
        absorb_all-IsExtreme ◌≤ℤ◌ max_ℤ max_ℤ-Picks (λ t. t.max_raw_signal) (λ x. x.signal)
            (λ a m w t. refl) obs t _ (one ◌≤ℤ◌ (λ x. omega arith) a.signal),
        absorb_all-IsExtreme AtLeast min_float (min_float-Picks o) (λ t. t.min_frequency_ghz)
            (λ x. x.frequency_ghz) (λ a m w t. refl) obs t _
            (one AtLeast o.irreflexive a.frequency_ghz),
        absorb_all-IsExtreme AtMost max_float (max_float-Picks o) (λ t. t.max_frequency_ghz)
            (λ x. x.frequency_ghz) (λ a m w t. refl) obs t _
            (one AtMost o.irreflexive a.frequency_ghz),
        counted,
        same_id,
        same_key,
        same_start,
      )
