-- ===== src/Events/Tracker/Ledger.antt =====
-- The reader of a history: which numbers the events open and close.
use unidenr8_bluetooth.Prelude.{
  ℕ, ◌+◌, ◌≡◌, Option, none, some, List, [], ◌∷◌, ◌++◌, arith, if◌then◌else◌, has, ◌==◌,
}
use unidenr8_bluetooth.Events.Tracker.{
  AlertTracker, AlertEvent, EventKind, alert_start, alert_update, alert_end,
}
use unidenr8_bluetooth.Events.Tracker.Valid.{ids}

-- The reader of a history: the numbers that are open, and the next one.
pub record Ledger : Type 0 where
  pub open_ids : List ℕ
  pub next_id : ℕ

abbrev pub without : ℕ → List ℕ → List ℕ
without id [] = []
without id (x ∷ xs) = if x == id then xs else x ∷ without id xs

-- One event: a start takes the next number, an update and an end are of an open number.
abbrev pub enter_event : EventKind → ℕ → Ledger → Option Ledger
enter_event alert_start id l =
    if id == l.next_id
    then some (record { open_ids = l.open_ids ++ (id ∷ []); next_id = l.next_id + 1 })
    else none
enter_event alert_update id l = if has l.open_ids id then some l else none
enter_event alert_end id l =
    if has l.open_ids id then some (record l { open_ids = without id l.open_ids }) else none

abbrev pub and_then : Option Ledger → (Ledger → Option Ledger) → Option Ledger
and_then none g = none
and_then (some l) g = g l

abbrev pub replay : {F : Type 0} → List (AlertEvent F) → Ledger → Option Ledger
replay [] l = some l
replay (e ∷ es) l = and_then (enter_event e.kind e.track_id l) (λ l'. replay es l')

abbrev pub ledger : {F : Type 0} → AlertTracker F → Ledger
ledger t = record { open_ids = ids t.tracks; next_id = t.next_track_id }

pub replay-append :
    {F : Type 0} (es fs : List (AlertEvent F)) (l m : Ledger)
    → replay es l ≡ some m
    → replay (es ++ fs) l ≡ replay fs m
replay-append [] fs l m h = ground arith
replay-append (e ∷ es) fs l m h =
    go (enter_event e.kind e.track_id l) (λ l'. replay-append es fs l' m) h
  where
    go :
        (o : Option Ledger)
        → ((l' : Ledger) → replay es l' ≡ some m → replay (es ++ fs) l' ≡ replay fs m)
        → and_then o (λ l'. replay es l') ≡ some m
        → and_then o (λ l'. replay (es ++ fs) l') ≡ replay fs m
    go none ih h = absurd (cc h)
    go (some l') ih h = ih l' h
