-- ===== src/Events/Tracker/Assign.antt =====
-- `AlertTracker._assign` of src/uniden_r8/events.py: the scores, their order, the greedy choice and
-- the ambiguous readings. Dictionaries keyed by a reading's index are association lists.
use unidenr8_bluetooth.Prelude.{
  ℕ, ◌+◌, Bool, true, false, ◌&&◌, ◌||◌, Option, none, some, List, [], ◌∷◌, ◌++◌, ltb, ◌==◌,
  if◌then◌else◌, has, is_some,
}
use unidenr8_bluetooth.Runtime.Float.{Float}
use unidenr8_bluetooth.Runtime.Unicode.{Unicode}
use unidenr8_bluetooth.Telemetry.Alert.{Alert}
use unidenr8_bluetooth.Events.Matching.{match_cost, literal}
use unidenr8_bluetooth.Events.Track.{AlertTrack}

-- one entry of `scored`
pub record Score (F : Type 0) : Type 0 where
  pub cost : F
  pub index : ℕ
  pub track_id : ℕ

-- what `_assign` returns: the pairs of a slot's index and a track's number, newest first, and the
-- scores from which the ambiguous slots are told
pub record Assignment (F : Type 0) : Type 0 where
  pub pairs : List (ℕ × ℕ)
  pub scored : List (Score F)

-- `assignments.get(index)`
unfoldable pub assigned : List (ℕ × ℕ) → ℕ → Option ℕ
assigned [] index = none
assigned ((i, id) ∷ pairs) index = if i == index then some id else assigned pairs index

-- `assignments.values()`
unfoldable pub values : List (ℕ × ℕ) → List ℕ
values [] = []
values ((i, id) ∷ pairs) = id ∷ values pairs

module _ {F : Type 0} where
  -- a score in front of the later ones, unless the match is refused
  unfoldable pub scored_with : Option F → ℕ → ℕ → List (Score F) → List (Score F)
  scored_with none index id later = later
  scored_with (some cost) index id later =
      record { cost = cost; index = index; track_id = id } ∷ later

  -- `per_slot[index]`: the costs that were appended under the index, in their order
  costs_of : ℕ → List (Score F) → List F
  costs_of index [] = []
  costs_of index (s ∷ scored) =
      let rest = costs_of index scored in if s.index == index then s.cost ∷ rest else rest

  -- the greedy loop
  unfoldable pub greedy : List (Score F) → List (ℕ × ℕ) → List ℕ → List (ℕ × ℕ)
  greedy [] pairs used = pairs
  greedy (s ∷ scored) pairs used =
      let taken = is_some (assigned pairs s.index) || has used s.track_id in
      greedy scored (if taken then pairs else (s.index, s.track_id) ∷ pairs)
        (if taken then used else s.track_id ∷ used)

module _ {F : Type 0} ⦃f : Float F⦄ where
  -- the order of the tuples `(cost, index, track_id)`
  unfoldable pub before : Score F → Score F → Bool
  before a b =
      if f.lt a.cost b.cost
      then true
      else if f.lt b.cost a.cost
      then false
      else if ltb a.index b.index
      then true
      else if ltb b.index a.index
      then false
      else ltb a.track_id b.track_id

  -- `scored.sort(...)`, a stable sort
  unfoldable pub insert_score : Score F → List (Score F) → List (Score F)
  insert_score s [] = s ∷ []
  insert_score s (t ∷ scored) =
      let later = insert_score s scored in if before t s then t ∷ later else s ∷ t ∷ scored

  unfoldable pub sort_scores : List (Score F) → List (Score F)
  unfolding insert_score
  sort_scores [] = []
  sort_scores (s ∷ scored) = insert_score s (sort_scores scored)

  insert_cost : F → List F → List F
  insert_cost c [] = c ∷ []
  insert_cost c (d ∷ costs) =
      let later = insert_cost c costs in if f.lt d c then d ∷ later else c ∷ d ∷ costs

  sort_costs : List F → List F
  sort_costs [] = []
  sort_costs (c ∷ costs) = insert_cost c (sort_costs costs)

  -- `len(costs) > 1 and sorted(costs)[1] - sorted(costs)[0] < AMBIGUITY_MARGIN`
  close_runner_up : List F → Bool
  close_runner_up (best ∷ second ∷ rest) = f.lt (f.sub second best) (literal 25 100)
  close_runner_up _ = false

  -- `index in ambiguous`
  unfoldable pub is_ambiguous : Assignment F → ℕ → Bool
  unfolding costs_of sort_costs insert_cost close_runner_up
  is_ambiguous m index =
      is_some (assigned m.pairs index) && close_runner_up (sort_costs (costs_of index m.scored))

module _ {F : Type 0} ⦃f : Float F⦄ ⦃u : Unicode⦄ where
  -- the inner loop, over the open tracks
  unfoldable pub scores_of : ℕ → Alert F → List (AlertTrack F) → List (Score F)
  unfolding scored_with
  scores_of index a [] = []
  scores_of index a (t ∷ tracks) =
      scored_with (match_cost t.alert a) index t.track_id (scores_of index a tracks)

  -- the outer loop, over the incoming readings from an index on
  unfoldable pub scores_from : ℕ → List (Alert F) → List (AlertTrack F) → List (Score F)
  unfolding scores_of
  scores_from index [] tracks = []
  scores_from index (a ∷ incoming) tracks =
      scores_of index a tracks ++ scores_from (index + 1) incoming tracks

  unfoldable pub assignment : List (Alert F) → List (AlertTrack F) → Assignment F
  assignment incoming tracks =
      let scored = scores_from 0 incoming tracks in
      record { pairs = greedy (sort_scores scored) [] []; scored = scored }
