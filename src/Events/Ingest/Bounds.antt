-- ===== src/Events/Ingest/Bounds.antt =====
-- What an `Ingest` holds at most, and which records go when it is full.
use unidenr8_bluetooth.Prelude.{
  ℕ, suc, ◌+◌, ◌-◌, ◌≤◌, ◌≡◌, refl, Option, none, some, List, [], ◌∷◌, ◌++◌, String, arith, ltb,
  leb, if◌then◌else◌, length, length-append, drop, Bool-cases, inl, inr, ap,
}
use unidenr8_bluetooth.Events.Ingest.{
  Notification, Gap, Ingest, depth, gap_size, new, widen_gap, evict, make_room, maxlen, accept,
  enqueue, offer, drain, pop, pop_from,
}
use unidenr8_bluetooth.Events.Ingest.Run.{Call, offered, popped_one, drained, step, run}

pub record IsValid (q : Ingest) : Type 0 where
  pub room : 2 ≤ q.maxsize
  pub bounded : length q.items + 1 ≤ q.maxsize
  pub measured : q.metrics.depth ≡ depth q
  pub below_high_water : q.metrics.depth ≤ q.metrics.high_water
  pub high_water_bounded : q.metrics.high_water ≤ q.maxsize
  pub counted : q.metrics.accepted ≡ q.seq

-- What the loop of `offer` leaves alone, and what it makes room for.
record Trimmed (items : List Notification) (q r : Ingest) : Type 0 where
  kept :
      (r.maxsize ≡ q.maxsize)
      × (r.seq ≡ q.seq)
      × (r.metrics.accepted ≡ q.metrics.accepted)
      × (r.metrics.high_water ≡ q.metrics.high_water)
      × (r.latest ≡ q.latest)
  short : length r.items + 1 ≤ q.maxsize - 1

make_room-Trimmed :
    (mono wall : ℕ) (items : List Notification) (q : Ingest)
    → 2 ≤ q.maxsize
    → Trimmed items q (make_room mono wall items q)
unfolding make_room evict widen_gap
make_room-Trimmed mono wall [] q h = record {
  kept = (refl, refl, refl, refl, refl);
  short = omega arith;
}
make_room-Trimmed mono wall (o ∷ items) q h =
    elim (Bool-cases (leb (maxlen q) (length (o ∷ items)))) [
      | inl full ↦
          let t = make_room-Trimmed mono wall items (evict mono wall o q) h in
          rw full (record { kept = t.kept; short = t.short })
      | inr room ↦ rw room (record { kept = (refl, refl, refl, refl, refl); short = ground arith })
    ]

-- Of a queue that is not over its bound, the loop takes the oldest record if it is full.
make_room-items :
    (mono wall : ℕ) (items : List Notification) (q : Ingest)
    → 2 ≤ q.maxsize
    → length items + 1 ≤ q.maxsize
    → (make_room mono wall items q).items
      ≡ (if ltb (length items) (maxlen q) then items else drop 1 items)
unfolding make_room evict widen_gap
make_room-items mono wall [] q h k = ground arith
make_room-items mono wall (o ∷ []) q h k = ground arith
make_room-items mono wall (o ∷ p ∷ items) q h k = ground arith

gap_size-le : (gap : Option Gap) → gap_size gap ≤ 1
unfolding gap_size
gap_size-le gap = ground arith

enqueue-IsValid :
    (n : Notification) (r : Ingest)
    → 2 ≤ r.maxsize
    → length r.items + 2 ≤ r.maxsize
    → r.metrics.high_water ≤ r.maxsize
    → r.metrics.accepted ≡ r.seq
    → IsValid (enqueue n r)
unfolding enqueue depth
enqueue-IsValid n r room short high counted =
    let l = length-append r.items (n ∷ []) in
    let g = gap_size-le r.gap in
    record {
      room = room;
      bounded = omega (arith, l);
      measured = refl;
      below_high_water = omega arith;
      high_water_bounded = omega (arith, l, g);
      counted = counted;
    }

module _ (kind : String) (payload : List ℕ) (source : String) (mono wall : ℕ) (q : Ingest) where
  pub offer-IsValid : IsValid q → IsValid (offer kind payload source mono wall q).1
  unfolding offer
  offer-IsValid v =
      let (n, q') = accept kind payload source mono wall q in
      let r = make_room mono wall q.items q' in
      let t = make_room-Trimmed mono wall q.items q' v.room in
      let size : r.maxsize ≡ q.maxsize = t.kept.0 in
      let short : length r.items + 1 ≤ q.maxsize - 1 = t.short in
      let high : r.metrics.high_water ≡ q.metrics.high_water = t.kept.3 in
      let counted : r.metrics.accepted ≡ r.seq = omega (arith, t.kept.1, t.kept.2, v.counted) in
      enqueue-IsValid n r (omega (arith, v.room)) (omega (arith, v.room))
        (omega (arith, v.high_water_bounded)) counted

  -- On a queue within its bounds, `offer` appends the new record; it first drops the oldest one
  -- exactly if the queue holds `maxsize - 1` records, and no other record.
  pub offer-items :
      IsValid q
      → (offer kind payload source mono wall q).1.items
        ≡ (if ltb (length q.items) (maxlen q) then q.items else drop 1 q.items)
          ++ ((offer kind payload source mono wall q).0 ∷ [])
  unfolding offer enqueue
  offer-items v =
      let (n, q') = accept kind payload source mono wall q in
      ap (λ l. l ++ (n ∷ [])) (make_room-items mono wall q.items q' v.room v.bounded)

pub pop-IsValid : (q : Ingest) → IsValid q → IsValid (pop q).1
unfolding pop depth gap_size
pop-IsValid q v = go q.gap q.items refl refl
  where
    go :
        (gap : Option Gap) (items : List Notification)
        → q.gap ≡ gap
        → q.items ≡ items
        → IsValid (pop_from gap items q).1
    go (some g) items e f = record {
      room = v.room;
      bounded = v.bounded;
      measured = refl;
      below_high_water = omega (arith, v.measured, v.below_high_water);
      high_water_bounded = v.high_water_bounded;
      counted = v.counted;
    }
    go none (n ∷ items) e f =
        let l : length q.items ≡ suc (length items) = ap length f in
        record {
          room = v.room;
          bounded = omega (arith, l, v.bounded);
          measured = refl;
          below_high_water = omega (arith, l, v.measured, v.below_high_water);
          high_water_bounded = v.high_water_bounded;
          counted = v.counted;
        }
    go none [] e f = v

drain-IsValid : (q : Ingest) → IsValid q → IsValid (drain q).1
unfolding drain depth gap_size
drain-IsValid q v = record {
  room = v.room;
  bounded = omega (arith, v.room);
  measured = refl;
  below_high_water = omega arith;
  high_water_bounded = v.high_water_bounded;
  counted = v.counted;
}

pub new-IsValid : (maxsize : ℕ) {q : Ingest} → new maxsize ≡ some q → IsValid q
unfolding new depth gap_size
new-IsValid maxsize e = ground arith

step-IsValid : (c : Call) (q : Ingest) → IsValid q → IsValid (step c q).1
step-IsValid (offered kind payload source mono wall) q v =
    offer-IsValid kind payload source mono wall q v
step-IsValid popped_one q v = pop-IsValid q v
step-IsValid drained q v = drain-IsValid q v

run-IsValid : (calls : List Call) (q : Ingest) → IsValid q → IsValid (run calls q).1
unfolding run
run-IsValid [] q v = v
run-IsValid (c ∷ calls) q v = run-IsValid calls (step c q).1 (step-IsValid c q v)

step-maxsize : (c : Call) (q : Ingest) → IsValid q → (step c q).1.maxsize ≡ q.maxsize
unfolding offer enqueue pop pop_from drain
step-maxsize (offered kind payload source mono wall) q v =
    let (n, q') = accept kind payload source mono wall q in
    (make_room-Trimmed mono wall q.items q' v.room).kept.0
step-maxsize popped_one q v = ground arith
step-maxsize drained q v = refl

run-maxsize : (calls : List Call) (q : Ingest) → IsValid q → (run calls q).1.maxsize ≡ q.maxsize
unfolding run
run-maxsize [] q v = refl
run-maxsize (c ∷ calls) q v =
    omega (arith, run-maxsize calls (step c q).1 (step-IsValid c q v), step-maxsize c q v)

-- A queue made for `maxsize` never holds more than that many records, the gap included, whatever
-- is offered, popped and drained; `depth` is that number, and `high_water` is between the two.
pub run-bounded :
    (maxsize : ℕ) {q : Ingest}
    → new maxsize ≡ some q
    → (calls : List Call)
    → ((run calls q).1.metrics.depth ≡ depth (run calls q).1)
      × (depth (run calls q).1 ≤ (run calls q).1.metrics.high_water)
      × ((run calls q).1.metrics.high_water ≤ maxsize)
unfolding new
run-bounded maxsize {q} e calls =
    let v = new-IsValid maxsize e in
    let r = run-IsValid calls q v in
    let size : q.maxsize ≡ maxsize = ground arith in
    (
      r.measured,
      omega (arith, r.measured, r.below_high_water),
      omega (arith, r.high_water_bounded, run-maxsize calls q v),
    )
