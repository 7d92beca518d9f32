-- ===== src/Tests/Queue.antt =====
-- Runs of an `Ingest`.
use unidenr8_bluetooth.Prelude.{
  ℕ, ◌≡◌, ◌≤◌, ◌+◌, refl, none, some, List, [], ◌∷◌, ◌++◌, length, drop, ltb, if◌then◌else◌,
}
use unidenr8_bluetooth.Events.Ingest.{Ingest, new, offer, pop, drain, depth, count, maxlen}
use unidenr8_bluetooth.Events.Ingest.Chain.{Covers, lost_count}
use unidenr8_bluetooth.Events.Ingest.Run.{Call, offered, popped_one, run, run-Covers}
use unidenr8_bluetooth.Events.Ingest.Bounds.{
  IsValid, offer-IsValid, new-IsValid, offer-items, run-bounded,
}

abbrev empty_queue : Ingest
empty_queue = record {
  maxsize = 3;
  items = [];
  seq = 0;
  gap = none;
  metrics = record { accepted = 0; dropped = 0; gaps = 0; high_water = 0; depth = 0 };
  latest = [];
}

made : new 3 ≡ some empty_queue
unfolding new
made = refl

abbrev alert_at : ℕ → Call
alert_at time = offered "alert" (48 ∷ []) "ble" time (time + 1000)

-- five offers into a queue of three, a pop, one more offer
abbrev calls : List Call
calls =
    alert_at 1 ∷ alert_at 2 ∷ alert_at 3 ∷ alert_at 4 ∷ alert_at 5 ∷ popped_one ∷ alert_at 6 ∷ []

-- three records were lost before the pop, and one after it
overflow : lost_count (run calls empty_queue).0 ≡ 3
unfolding run pop offer count
overflow = refl

overflow_dropped : (run calls empty_queue).1.metrics.dropped ≡ 4
unfolding run pop offer
overflow_dropped = refl

run-Covers_example :
    Covers 0 ((run calls empty_queue).0 ++ (drain (run calls empty_queue).1).0) 6
    × ((run calls empty_queue).1.metrics.dropped
        ≡ lost_count ((run calls empty_queue).0 ++ (drain (run calls empty_queue).1).0))
run-Covers_example = run-Covers 3 made calls

run-bounded_example :
    ((run calls empty_queue).1.metrics.depth ≡ depth (run calls empty_queue).1)
    × (depth (run calls empty_queue).1 ≤ (run calls empty_queue).1.metrics.high_water)
    × ((run calls empty_queue).1.metrics.high_water ≤ 3)
run-bounded_example = run-bounded 3 made calls

abbrev two_queued : Ingest
two_queued = (run (alert_at 1 ∷ alert_at 2 ∷ []) empty_queue).1

two_queued-IsValid : IsValid two_queued
unfolding run
two_queued-IsValid =
    offer-IsValid "alert" (48 ∷ []) "ble" 2 1002 _
      (offer-IsValid "alert" (48 ∷ []) "ble" 1 1001 empty_queue (new-IsValid 3 made))

offer-items_example :
    (offer "alert" (49 ∷ []) "ble" 3 1003 two_queued).1.items
    ≡ (if ltb (length two_queued.items) (maxlen two_queued)
        then two_queued.items
        else drop 1 two_queued.items)
      ++ ((offer "alert" (49 ∷ []) "ble" 3 1003 two_queued).0 ∷ [])
offer-items_example = offer-items "alert" (49 ∷ []) "ble" 3 1003 two_queued two_queued-IsValid
