-- ===== src/Collector/Counts.antt =====
-- The counters of a session through a round of its consumer (`_consume`).
use unidenr8_bluetooth.Prelude.{
  ℕ, zero, suc, ◌+◌, ◌<◌, ◌≡◌, refl, Option, none, some, List, [], ◌∷◌, ◌++◌, str_eq, arith,
  Bool-cases, inl, inr, ap, sym, ◌∙◌,
}
use unidenr8_bluetooth.Runtime.Float.{Float, IsOrdered}
use unidenr8_bluetooth.Runtime.Unicode.{Unicode}
use unidenr8_bluetooth.Telemetry.Fields.{bytes}
use unidenr8_bluetooth.Telemetry.Packet.{Telemetry}
use unidenr8_bluetooth.Prelude.Int.{pos}
use unidenr8_bluetooth.Telemetry.Snapshot.{AlertSnapshot, alerts, uncertain, parse_alert_snapshot}
use unidenr8_bluetooth.Events.Ingest.{
  Notification, Gap, Entry, note, lost, Ingest, count, depth, gap_size, pop, pop_from,
}
use unidenr8_bluetooth.Events.Ingest.Chain.{Follows}
use unidenr8_bluetooth.Events.Ingest.Run.{popped, Reads, pop-Reads}
use unidenr8_bluetooth.Events.Tracker.{AlertEvent}
use unidenr8_bluetooth.Events.Tracker.Valid.{IsValid}
use unidenr8_bluetooth.Events.Tracker.Ledger.{ledger, replay, replay-append}
use unidenr8_bluetooth.Events.Tracker.Lifecycle.{observe-Observed}
use unidenr8_bluetooth.Collector.{
  Session, CollectorState, HistoryCall, seconds, throttled, record_gap, apply, apply_telemetry,
  apply_alerts, note_snapshot, tracked, record_history_telemetry, store_telemetry, and_rest,
  after_pop, consume_loop, consume,
}

module _ {F : Type 0} where
  -- how many notifications the session has dealt with
  abbrev pub handled : Session F → ℕ
  handled s = s.state.telemetry_packets + s.state.alert_packets + s.state.lost_notifications

-- What holds of a session between its calls, with the counts `base` and `before` that its state had
-- at the start: what was dealt with since, and what is queued, account for every number so far, and
-- the tracker is well formed.
pub record IsSteady {F : Type 0} ⦃u : Unicode⦄ (base before : ℕ) (s : Session F) : Type 0 where
  pub dealt : ℕ
  pub missed : ℕ
  pub counted : handled s ≡ base + dealt
  pub lost_counted : s.state.lost_notifications ≡ before + missed
  pub follows : Follows dealt missed s.ingest
  pub tracker : IsValid s.tracker

module _ {F : Type 0} ⦃f : Float F⦄ ⦃u : Unicode⦄ where
  -- an answer that handled one more packet of the session
  record Applied (s : Session F) (answer : Option (List (AlertEvent F) × Session F)) : Type 0 where
    events : List (AlertEvent F)
    after : Session F
    returned : answer ≡ some (events, after)
    one_more : handled after ≡ handled s + 1
    same_lost : after.state.lost_notifications ≡ s.state.lost_notifications
    same_ingest : after.ingest ≡ s.ingest
    tracker : IsValid after.tracker
    replays : replay events (ledger s.tracker) ≡ some (ledger after.tracker)

  -- storing a reading changes neither the counters nor the tracker
  history_keeps :
      (reading : Telemetry F) (n : Notification) (s : Session F)
      → ((record_history_telemetry reading n s).state ≡ s.state)
        × ((record_history_telemetry reading n s).ingest ≡ s.ingest)
        × ((record_history_telemetry reading n s).tracker ≡ s.tracker)
  unfolding record_history_telemetry
  history_keeps reading n s = go s.history
    where
      go :
          (h : Option (List (HistoryCall F)))
          → ((store_telemetry h reading n s).state ≡ s.state)
            × ((store_telemetry h reading n s).ingest ≡ s.ingest)
            × ((store_telemetry h reading n s).tracker ≡ s.tracker)
      go none = (refl, refl, refl)
      go (some calls) =
          elim (Bool-cases
            (throttled s.every s.last_history_telemetry (seconds (pos n.monotonic_ns)))) [
              | inl early ↦ rw (early, store_telemetry) (refl, refl, refl)
              | inr due ↦ rw (due, store_telemetry) (refl, refl, refl)
            ]

  apply_telemetry-Applied :
      (now : F) (n : Notification) (s : Session F)
      → IsValid s.tracker
      → Applied s (some ([], apply_telemetry now n s))
  unfolding apply_telemetry
  apply_telemetry-Applied now n s v =
      let (state, ingest, tracker) = history_keeps _ n _ in
      record {
        events = [];
        after = apply_telemetry now n s;
        returned = refl;
        one_more =
            ap
              (λ (x : CollectorState F).
                x.telemetry_packets + x.alert_packets + x.lost_notifications)
              state
            ∙ omega arith;
        same_lost = ap (λ (x : CollectorState F). x.lost_notifications) state;
        same_ingest = ingest;
        tracker = rw tracker v;
        replays = rw tracker refl;
      }

  apply_alerts-Applied :
      IsOrdered F
      → (n : Notification) (s : Session F) → IsValid s.tracker
      → Applied s (apply_alerts n s)
  unfolding apply_alerts note_snapshot tracked
  apply_alerts-Applied o n s v =
      let snapshot : AlertSnapshot F = parse_alert_snapshot (bytes n.payload) in
      let r =
        observe-Observed o (alerts snapshot) n.seq n.monotonic_ns n.wall_ns (uncertain snapshot)
          s.tracker v in
      record {
        events = r.events;
        after = record (note_snapshot snapshot n s) { tracker = r.after };
        returned = rw (r.returned, tracked) refl;
        one_more = omega arith;
        same_lost = refl;
        same_ingest = refl;
        tracker = r.valid;
        replays = r.replays;
      }

  apply-Applied :
      IsOrdered F
      → (now : F) (n : Notification) (s : Session F) → IsValid s.tracker
      → Applied s (apply now n s)
  unfolding apply
  apply-Applied o now n s v = elim (Bool-cases (str_eq n.kind "telemetry")) [
    | inl telemetry ↦ rw telemetry (apply_telemetry-Applied now n s v)
    | inr other ↦ rw other (apply_alerts-Applied o n s v)
  ]

-- what is left after a `pop`, by what it returned
abbrev PopLeaves : Option Entry → Ingest → Ingest → Type 0
PopLeaves none q r = (r.gap ≡ none) × (r.items ≡ [])
PopLeaves (some e) q r = depth r + 1 ≡ depth q

pop-PopLeaves : (q : Ingest) → PopLeaves (pop q).0 q (pop q).1 × ((pop q).1.seq ≡ q.seq)
unfolding pop depth gap_size
pop-PopLeaves q = go q.gap q.items refl refl
  where
    go :
        (gap : Option Gap) (items : List Notification)
        → q.gap ≡ gap
        → q.items ≡ items
        → PopLeaves (pop_from gap items q).0 q (pop_from gap items q).1
          × ((pop_from gap items q).1.seq ≡ q.seq)
    go (some g) items e f = (rw e (omega arith), refl)
    go none (n ∷ items) e f = (rw (e, f) (omega arith), refl)
    go none [] e f = ((e, f), refl)

at_counts : {a b d e : ℕ} {q : Ingest} → a ≡ b → d ≡ e → Follows a d q → Follows b e q
at_counts p r h = rw (← p, ← r) h

module _ {F : Type 0} ⦃f : Float F⦄ ⦃u : Unicode⦄ where
  -- The answer of `_consume`: it has emptied the queue and kept the session steady, and its events
  -- replay to the tracks that are open afterwards.
  pub record Consumed (base before : ℕ) (s : Session F)
      (answer : Option (List (AlertEvent F) × Session F)) : Type 0 where
    pub events : List (AlertEvent F)
    pub after : Session F
    pub returned : answer ≡ some (events, after)
    pub steady : IsSteady base before after
    pub empty : (after.ingest.gap ≡ none) × (after.ingest.items ≡ [])
    pub same_seq : after.ingest.seq ≡ s.ingest.seq
    pub replays : replay events (ledger s.tracker) ≡ some (ledger after.tracker)

  module _ (base before : ℕ) (clock : ℕ → F)
      (rest : Session F → Option (List (AlertEvent F) × Session F)) (fuel : ℕ)
      (later : (s : Session F)
        → depth s.ingest < fuel
        → IsSteady base before s
        → Consumed base before s (rest s)) where
    gap-Consumed :
        (g : Gap) (s : Session F) (q : Ingest)
        → (v : IsSteady base before s) → Reads v.dealt v.missed (lost g ∷ []) q
        → depth q < fuel
        → q.seq ≡ s.ingest.seq
        → Consumed base before s (rest (record_gap g (record s { ingest = q })))
    unfolding record_gap count
    gap-Consumed g s q v r small same =
        let s' = record_gap g (record s { ingest = q }) in
        let c = later s' small (record {
          dealt = v.dealt + count g;
          missed = v.missed + count g;
          counted = omega (arith, v.counted);
          lost_counted = omega (arith, v.lost_counted);
          follows = at_counts (omega (arith, r.read)) (omega arith) r.rest;
          tracker = v.tracker;
        }) in
        record {
          events = c.events;
          after = c.after;
          returned = c.returned;
          steady = c.steady;
          empty = c.empty;
          same_seq = c.same_seq ∙ same;
          replays = c.replays;
        }

    note-Consumed :
        IsOrdered F
        → (n : Notification) (s : Session F) (q : Ingest) → (v : IsSteady base before s)
        → Reads v.dealt v.missed (note n ∷ []) q
        → depth q < fuel
        → q.seq ≡ s.ingest.seq
        → Consumed base before s (and_rest rest (apply (clock n.seq) n (record s { ingest = q })))
    unfolding and_rest
    note-Consumed o n s q v r small same =
        let a = apply-Applied o (clock n.seq) n (record s { ingest = q }) v.tracker in
        let c = later a.after (rw a.same_ingest small) (record {
          dealt = v.dealt + 1;
          missed = v.missed;
          counted = omega (arith, v.counted, a.one_more);
          lost_counted = omega (arith, v.lost_counted, a.same_lost);
          follows = rw a.same_ingest (at_counts (omega (arith, r.read)) (omega arith) r.rest);
          tracker = a.tracker;
        }) in
        record {
          events = a.events ++ c.events;
          after = c.after;
          returned = rw (a.returned, c.returned, and_rest) refl;
          steady = c.steady;
          empty = c.empty;
          same_seq = c.same_seq ∙ ap (λ (q : Ingest). q.seq) a.same_ingest ∙ same;
          replays =
              replay-append a.events c.events (ledger s.tracker) (ledger a.after.tracker) a.replays
              ∙ c.replays;
        }

    after_pop-Consumed :
        IsOrdered F
        → (e : Option Entry) (s : Session F) (q : Ingest) → (v : IsSteady base before s)
        → Reads v.dealt v.missed (popped e) q
        → PopLeaves e s.ingest q
        → depth s.ingest < fuel + 1
        → q.seq ≡ s.ingest.seq
        → Consumed base before s (after_pop clock rest e (record s { ingest = q }))
    unfolding after_pop
    after_pop-Consumed o none s q v r leaves small same = record {
      events = [];
      after = record s { ingest = q };
      returned = refl;
      steady = record {
        dealt = v.dealt;
        missed = v.missed;
        counted = v.counted;
        lost_counted = v.lost_counted;
        follows = at_counts (sym r.read) (omega arith) r.rest;
        tracker = v.tracker;
      };
      empty = leaves;
      same_seq = same;
      replays = refl;
    }
    after_pop-Consumed o (some (lost g)) s q v r leaves small same =
        gap-Consumed g s q v r (omega (arith, leaves)) same
    after_pop-Consumed o (some (note n)) s q v r leaves small same =
        note-Consumed o n s q v r (omega (arith, leaves)) same

  consume_loop-Consumed :
      IsOrdered F
      → (base before : ℕ) (clock : ℕ → F) (fuel : ℕ) (s : Session F) → depth s.ingest < fuel
      → IsSteady base before s
      → Consumed base before s (consume_loop clock fuel s)
  unfolding consume_loop
  consume_loop-Consumed o base before clock zero s small v = absurd (omega (arith, small))
  consume_loop-Consumed o base before clock (suc fuel) s small v =
      let (leaves, same) = pop-PopLeaves s.ingest in
      after_pop-Consumed base before clock (λ s'. consume_loop clock fuel s') fuel
        (λ s' h k. consume_loop-Consumed o base before clock fuel s' h k) o (pop s.ingest).0 s
        (pop s.ingest).1 v (pop-Reads v.dealt v.missed s.ingest v.follows) leaves (omega arith) same

  -- With `<` a strict weak order on floats, of a steady session: _consume returns without an
  -- exception, its rounds being enough to empty the queue; it keeps the session steady, gives out no
  -- number, and its events replay from the tracks open before it to those open after it.
  pub consume-Consumed :
      IsOrdered F
      → (base before : ℕ) (clock : ℕ → F) (s : Session F) → IsSteady base before s
      → Consumed base before s (consume clock s)
  unfolding consume
  consume-Consumed o base before clock s v =
      consume_loop-Consumed o base before clock (depth s.ingest + 1) s (omega arith) v
