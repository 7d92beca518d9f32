-- ===== src/Collector/Backoff.antt =====
-- `next_backoff` of src/uniden_r8/collector.py, for a draw of the generator. `none` is the
-- OverflowError of `2.0 ** n`, which no float holds from 2.0 ** 1024 on.
use unidenr8_bluetooth.Prelude.{
  ℕ, ◌-◌, ◌^◌, ◌<◌, ◌≤◌, ◌≡◌, inl, inr, false, Bool-cases, Option, none, some, ltb, ltb→lt, arith,
  if◌then◌else◌,
}
use unidenr8_bluetooth.Prelude.Int.{pos}
use unidenr8_bluetooth.Runtime.Float.{Float, IsOrdered, max_float, min_float}

module _ {F : Type 0} ⦃f : Float F⦄ where
  -- `BACKOFF_FACTOR ** n`
  abbrev power : ℕ → Option F
  power n = if ltb n 1024 then some (f.ratio (pos (2 ^ n)) (pos 1)) else none

  abbrev pub shortest_delay : F
  shortest_delay = f.ratio (pos 5) (pos 10)

  -- the delay for a power of the factor
  unfoldable pub jittered : F → F → F
  jittered draw factor =
      let capped = min_float (f.mul (f.ratio (pos 5) (pos 1)) factor) (f.ratio (pos 60) (pos 1)) in
      let spread = f.mul capped (f.ratio (pos 2) (pos 10)) in
      max_float shortest_delay
        (f.add (f.sub capped spread) (f.mul (f.mul (f.ratio (pos 2) (pos 1)) spread) draw))

  abbrev delayed : F → Option F → Option F
  delayed draw none = none
  delayed draw (some factor) = some (jittered draw factor)

  -- `next_backoff`; `max(attempt, 1) - 1` is 0 for 0 too
  unfoldable pub next_backoff : ℕ → F → Option F
  unfolding jittered
  next_backoff attempt draw = delayed draw (power (attempt - 1))

  -- a delay that is no shorter than the least one, or the overflow
  abbrev pub IsDelay : ℕ → Option F → Type 0
  IsDelay attempt none = 1024 < attempt
  IsDelay attempt (some delay) = (attempt ≤ 1024) × (f.lt delay shortest_delay ≡ false)

  max-least : IsOrdered F → (a b : F) → f.lt (max_float a b) a ≡ false
  unfolding max_float
  max-least o a b = ground (arith, o.irreflexive a, o.transitive a b a)

  jittered-least :
      IsOrdered F → (draw factor : F) → f.lt (jittered draw factor) shortest_delay ≡ false
  unfolding jittered
  jittered-least o draw factor = max-least o shortest_delay _

  -- With `<` a strict weak order on floats: next_backoff gives a delay of no less than half a second
  -- for every attempt up to the 1024th, whatever is drawn, and raises OverflowError for every later
  -- one.
  pub next_backoff-IsDelay :
      IsOrdered F → (attempt : ℕ) (draw : F) → IsDelay attempt (next_backoff attempt draw)
  unfolding next_backoff
  next_backoff-IsDelay o attempt draw = elim (Bool-cases (ltb (attempt - 1) 1024)) [
    | inl h ↦ rw (h) (omega (arith, ltb→lt (attempt - 1) 1024 h), jittered-least o draw _)
    | inr h ↦ rw (h) (ground arith)
  ]
