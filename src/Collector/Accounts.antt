-- ===== src/Collector/Accounts.antt =====
-- A whole session: notifications in any number between the rounds of the consumer.
use unidenr8_bluetooth.Prelude.{
  ℕ, suc, ◌+◌, ◌≡◌, refl, Option, none, some, List, [], ◌∷◌, ◌++◌, String, arith, ap, sym, ◌∙◌,
}
use unidenr8_bluetooth.Runtime.Float.{Float, IsOrdered}
use unidenr8_bluetooth.Runtime.Unicode.{Unicode}
use unidenr8_bluetooth.Events.Ingest.{Ingest, new, gap_entries, notes}
use unidenr8_bluetooth.Events.Ingest.Chain.{Covers, lost_count, pending, Follows, offer-Follows}
use unidenr8_bluetooth.Events.Ingest.Run.{new-Follows}
use mathlib.Core.Option.{some-injective}
use unidenr8_bluetooth.Events.Tracker.{AlertEvent}
use unidenr8_bluetooth.Events.Tracker.Valid.{IsValid}
use unidenr8_bluetooth.Events.Tracker.Ledger.{ledger, replay, replay-append}
use unidenr8_bluetooth.Collector.{
  Session, CollectorState, HistoryCall, new_session, with_queue, on_notification, consume, and_rest,
}
use unidenr8_bluetooth.Collector.Counts.{handled, IsSteady, consume-Consumed}

-- A notification of the radio, or a round of the consumer with the clock as it reads then.
pub data SessionCall (F : Type 0) : Type 0 where
  notified : (kind : String) (payload : List ℕ) (mono wall : ℕ) → SessionCall F
  woken : (clock : ℕ → F) → SessionCall F

abbrev pub notified_count : {F : Type 0} → List (SessionCall F) → ℕ
notified_count [] = 0
notified_count (notified kind payload mono wall ∷ calls) = suc (notified_count calls)
notified_count (woken clock ∷ calls) = notified_count calls

-- of an empty queue, everything was read
empty-Follows :
    (a d : ℕ) (q : Ingest)
    → (q.gap ≡ none) × (q.items ≡ [])
    → Follows a d q
    → (a ≡ q.seq) × (q.metrics.dropped ≡ d)
unfolding gap_entries notes
empty-Follows a d q (e, g) h =
    let chain : Covers a (pending none []) q.seq = rw (e, g) at h.chain in
    let dropped : q.metrics.dropped ≡ d + lost_count (pending none []) = rw (e, g) at h.dropped in
    (chain, omega (arith, dropped))

module _ {F : Type 0} ⦃f : Float F⦄ ⦃u : Unicode⦄ where
  unfoldable pub session_call : SessionCall F → Session F → Option (List (AlertEvent F) × Session F)
  session_call (notified kind payload mono wall) s =
      some ([], on_notification kind payload mono wall s)
  session_call (woken clock) s = consume clock s

  -- the calls in order, and all their events
  unfoldable pub session_calls :
      List (SessionCall F) → Session F → Option (List (AlertEvent F) × Session F)
  unfolding session_call and_rest
  session_calls [] s = some ([], s)
  session_calls (c ∷ calls) s = and_rest (λ s'. session_calls calls s') (session_call c s)

  record Ran (base before more : ℕ) (s : Session F)
      (answer : Option (List (AlertEvent F) × Session F)) : Type 0 where
    events : List (AlertEvent F)
    after : Session F
    returned : answer ≡ some (events, after)
    steady : IsSteady base before after
    numbered : after.ingest.seq ≡ s.ingest.seq + more
    replays : replay events (ledger s.tracker) ≡ some (ledger after.tracker)

  session_call-Ran :
      IsOrdered F
      → (base before : ℕ) (c : SessionCall F) (s : Session F) → IsSteady base before s
      → Ran base before (notified_count (c ∷ [])) s (session_call c s)
  unfolding session_call on_notification
  session_call-Ran o base before (notified kind payload mono wall) s v =
      let (follows, _, numbered) =
        offer-Follows v.dealt v.missed mono wall kind payload "notify" s.ingest v.follows in
      record {
        events = [];
        after = on_notification kind payload mono wall s;
        returned = refl;
        steady = record {
          dealt = v.dealt;
          missed = v.missed;
          counted = v.counted;
          lost_counted = v.lost_counted;
          follows = follows;
          tracker = v.tracker;
        };
        numbered = numbered;
        replays = refl;
      }
  session_call-Ran o base before (woken clock) s v =
      let c = consume-Consumed o base before clock s v in
      record {
        events = c.events;
        after = c.after;
        returned = c.returned;
        steady = c.steady;
        numbered = omega (arith, c.same_seq);
        replays = c.replays;
      }

  notified_count-cons :
      (c : SessionCall F) (calls : List (SessionCall F))
      → notified_count (c ∷ calls) ≡ notified_count (c ∷ []) + notified_count calls
  notified_count-cons (notified kind payload mono wall) calls = omega arith
  notified_count-cons (woken clock) calls = omega arith

  session_calls-Ran :
      IsOrdered F
      → (base before : ℕ) (calls : List (SessionCall F)) (s : Session F) → IsSteady base before s
      → Ran base before (notified_count calls) s (session_calls calls s)
  unfolding session_calls
  session_calls-Ran o base before [] s v = record {
    events = [];
    after = s;
    returned = refl;
    steady = v;
    numbered = omega arith;
    replays = refl;
  }
  session_calls-Ran o base before (c ∷ calls) s v =
      let first = session_call-Ran o base before c s v in
      let rest = session_calls-Ran o base before calls first.after first.steady in
      record {
        events = first.events ++ rest.events;
        after = rest.after;
        returned = rw (first.returned, rest.returned, session_calls, and_rest) refl;
        steady = rest.steady;
        numbered = omega (arith, rest.numbered, first.numbered, notified_count-cons c calls);
        replays =
            replay-append first.events rest.events (ledger s.tracker) (ledger first.after.tracker)
              first.replays
            ∙ rest.replays;
      }

  -- what a new session is: an empty queue, no track, and the state that it was given
  pub record IsFresh (state : CollectorState F) (s : Session F) : Type 0 where
    pub same_state : s.state ≡ state
    pub follows : Follows 0 0 s.ingest
    pub no_number : s.ingest.seq ≡ 0
    pub tracker : IsValid s.tracker
    pub no_track : ledger s.tracker ≡ record { open_ids = []; next_id = 1 }

  pub new_session-IsFresh :
      (queue_size : ℕ) (state : CollectorState F) (every start : F)
      (history : Option (List (HistoryCall F))) {s : Session F}
      → new_session queue_size state every start history ≡ some s
      → IsFresh state s
  unfolding new_session
  new_session-IsFresh queue_size state every start history {s} made = go (new queue_size) refl made
    where
      go :
          (o : Option Ingest)
          → new queue_size ≡ o
          → with_queue o state every start history ≡ some s
          → IsFresh state s
      go none e h = absurd (cc h)
      go (some q) e h =
          let (follows, zeroed) = new-Follows queue_size e in
          rw (← some-injective _ s h) (record {
            same_state = refl;
            follows = follows;
            no_number = zeroed;
            tracker = record { rising = omega arith; sound = tt };
            no_track = refl;
          })

  -- With `<` a strict weak order on the floats: a new session, over a state with any counts,
  -- through any notifications and any rounds of the consumer in between, and one more round: no
  -- call raises an exception; the telemetry packets, the alert packets and the lost notifications
  -- that were counted since the start are together as many as the notifications; those counted as
  -- lost since the start are those that the queue dropped; and the events of the session, read from
  -- no track on, lead to the tracks that are open.
  pub session-accounts :
      IsOrdered F
      → (queue_size : ℕ) (state : CollectorState F) (every start : F)
        (history : Option (List (HistoryCall F))) {s : Session F}
      → new_session queue_size state every start history ≡ some s
      → (calls : List (SessionCall F)) (clock : ℕ → F)
      → (events later : List (AlertEvent F)) × (between after : Session F) × (session_calls calls s
          ≡ some (events, between))
        × (consume clock between ≡ some (later, after))
        × (handled after ≡ handled s + notified_count calls)
        × (after.state.lost_notifications ≡ state.lost_notifications + after.ingest.metrics.dropped)
        × (replay (events ++ later) (record { open_ids = []; next_id = 1 })
            ≡ some (ledger after.tracker))
  session-accounts o queue_size state every start history {s} made calls clock =
      let n = new_session-IsFresh queue_size state every start history made in
      let lost_at_start : s.state.lost_notifications ≡ state.lost_notifications =
        ap (λ (x : CollectorState F). x.lost_notifications) n.same_state in
      let r = session_calls-Ran o (handled s) state.lost_notifications calls s (record {
        dealt = 0;
        missed = 0;
        counted = omega arith;
        lost_counted = omega (arith, lost_at_start);
        follows = n.follows;
        tracker = n.tracker;
      }) in
      let c = consume-Consumed o (handled s) state.lost_notifications clock r.after r.steady in
      let (dealt, dropped) =
        empty-Follows c.steady.dealt c.steady.missed c.after.ingest c.empty c.steady.follows in
      (
        r.events,
        c.events,
        r.after,
        c.after,
        r.returned,
        c.returned,
        omega (arith, c.steady.counted, dealt, c.same_seq, r.numbered, n.no_number),
        omega (arith, c.steady.lost_counted, dropped),
        ap (λ l. replay (r.events ++ c.events) l) (sym n.no_track)
            ∙ replay-append r.events c.events (ledger s.tracker) (ledger r.after.tracker) r.replays
            ∙ c.replays,
      )
