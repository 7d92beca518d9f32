-- ===== src/Events/Tracker/Order.antt =====
-- The order of the scores, and the sorted list of them.
use unidenr8_bluetooth.Prelude.{
  ◌≡◌, Bool, true, false, ◌⊎◌, inl, inr, List, [], ◌∷◌, arith, if◌then◌else◌, All, Any, Bool-cases,
}
use unidenr8_bluetooth.Runtime.Float.{Float, IsOrdered}
use unidenr8_bluetooth.Events.Tracker.Assign.{Score, before, insert_score, sort_scores}

-- `x` is an element
abbrev pub In : {A : Type 0} → A → List A → Type 0
In x xs = Any (λ y. y ≡ x) xs

module _ {F : Type 0} ⦃f : Float F⦄ (o : IsOrdered F) where
  pub before_irreflexive : (a : Score F) → before a a ≡ false
  unfolding before
  before_irreflexive a = ground (arith, o.irreflexive a.cost)

  -- not `a` before `b` and not `b` before `c` exclude `a` before `c`
  pub before_trans :
      (a b c : Score F) → before a b ≡ false → before b c ≡ false → before a c ≡ false
  unfolding before
  before_trans a b c h k = ground (
    arith,
    o.negatively_transitive a.cost b.cost c.cost,
    o.negatively_transitive c.cost b.cost a.cost,
    o.negatively_transitive b.cost c.cost a.cost,
    o.negatively_transitive c.cost a.cost b.cost,
    o.negatively_transitive b.cost a.cost c.cost,
    o.negatively_transitive a.cost c.cost b.cost,
    o.transitive a.cost b.cost a.cost,
    o.irreflexive a.cost,
  )

  before_asym : (a b : Score F) → before a b ≡ true → before b a ≡ false
  unfolding before
  before_asym a b h = ground (
    arith,
    o.transitive a.cost b.cost a.cost,
    o.transitive b.cost a.cost b.cost,
    o.irreflexive a.cost,
    o.irreflexive b.cost,
  )

module _ {F : Type 0} ⦃f : Float F⦄ where
  -- none of the list is before `t`
  abbrev pub NoneBefore : Score F → List (Score F) → Type 0
  NoneBefore t scored = All (λ s. before s t ≡ false) scored

  abbrev pub Sorted : List (Score F) → Type 0
  Sorted [] = Unit {0}
  Sorted (t ∷ scored) = NoneBefore t scored × Sorted scored

  -- the two shapes of an insertion
  from_branches :
      (x s t : Score F) (b : Bool) (later scored : List (Score F))
      → (In x later → (s ≡ x) ⊎ In x scored)
      → In x (if b then t ∷ later else s ∷ t ∷ scored)
      → (s ≡ x) ⊎ ((t ≡ x) ⊎ In x scored)
  from_branches x s t false later scored h p = p
  from_branches x s t true later scored h (inl e) = inr (inl e)
  from_branches x s t true later scored h (inr p) = elim (h p) [
    | inl q ↦ inl q
    | inr q ↦ inr (inr q)
  ]

  to_branches :
      (x s t : Score F) (b : Bool) (later scored : List (Score F))
      → ((s ≡ x) ⊎ In x scored → In x later)
      → (s ≡ x) ⊎ ((t ≡ x) ⊎ In x scored)
      → In x (if b then t ∷ later else s ∷ t ∷ scored)
  to_branches x s t false later scored h p = p
  to_branches x s t true later scored h (inl e) = inr (h (inl e))
  to_branches x s t true later scored h (inr (inl e)) = inl e
  to_branches x s t true later scored h (inr (inr p)) = inr (h (inr p))

  In-insert :
      (x s : Score F) (scored : List (Score F))
      → In x (insert_score s scored)
      → (s ≡ x) ⊎ In x scored
  unfolding insert_score
  In-insert x s [] h = h
  In-insert x s (t ∷ scored) h =
      from_branches x s t (before t s) (insert_score s scored) scored (In-insert x s scored) h

  insert-In :
      (x s : Score F) (scored : List (Score F))
      → (s ≡ x) ⊎ In x scored
      → In x (insert_score s scored)
  unfolding insert_score
  insert-In x s [] h = h
  insert-In x s (t ∷ scored) h =
      to_branches x s t (before t s) (insert_score s scored) scored (insert-In x s scored) h

  -- Sorting keeps the scores, and adds none.
  pub sort-In : (x : Score F) (scored : List (Score F)) → In x scored → In x (sort_scores scored)
  unfolding sort_scores
  sort-In x [] h = h
  sort-In x (s ∷ scored) (inl e) = insert-In x s (sort_scores scored) (inl e)
  sort-In x (s ∷ scored) (inr h) = insert-In x s (sort_scores scored) (inr (sort-In x scored h))

  pub In-sort : (x : Score F) (scored : List (Score F)) → In x (sort_scores scored) → In x scored
  unfolding sort_scores
  In-sort x [] h = h
  In-sort x (s ∷ scored) h = elim (In-insert x s (sort_scores scored) h) [
    | inl e ↦ inl e
    | inr p ↦ inr (In-sort x scored p)
  ]

  NoneBefore-insert :
      (t s : Score F) (scored : List (Score F))
      → before s t ≡ false
      → NoneBefore t scored
      → NoneBefore t (insert_score s scored)
  unfolding insert_score
  NoneBefore-insert t s [] h k = (h, tt)
  NoneBefore-insert t s (r ∷ scored) h k = ground (arith, NoneBefore-insert t s scored h k.1)

module _ {F : Type 0} ⦃f : Float F⦄ (o : IsOrdered F) where
  NoneBefore-trans :
      (s t : Score F) (scored : List (Score F))
      → before t s ≡ false
      → NoneBefore t scored
      → NoneBefore s scored
  NoneBefore-trans s t [] h k = tt
  NoneBefore-trans s t (r ∷ scored) h k =
      (before_trans o r t s k.0 h, NoneBefore-trans s t scored h k.1)

  insert-Sorted :
      (s : Score F) (scored : List (Score F)) → Sorted scored → Sorted (insert_score s scored)
  unfolding insert_score
  insert-Sorted s [] h = (tt, tt)
  insert-Sorted s (t ∷ scored) h = elim (Bool-cases (before t s)) [
    | inl first ↦
        rw first
          (NoneBefore-insert t s scored (before_asym o t s first) h.0, insert-Sorted s scored h.1)
    | inr later ↦ rw later ((later, NoneBefore-trans s t scored later h.0), h)
  ]

  pub sort-Sorted : (scored : List (Score F)) → Sorted (sort_scores scored)
  unfolding sort_scores
  sort-Sorted [] = tt
  sort-Sorted (s ∷ scored) = insert-Sorted s (sort_scores scored) (sort-Sorted scored)
