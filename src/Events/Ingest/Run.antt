-- ===== src/Events/Ingest/Run.antt =====
-- Any interleaving of `offer`, `pop` and `drain`, and what the consumer has read of it.
use unidenr8_bluetooth.Prelude.{
  ℕ, suc, ◌+◌, ◌≡◌, refl, Option, none, some, List, [], ◌∷◌, ◌++◌, String, arith, subst,
}
use unidenr8_bluetooth.Events.Ingest.{
  Notification, Gap, Entry, Ingest, new, notes, gap_entries, offer, drain, pop, pop_from,
}
use unidenr8_bluetooth.Events.Ingest.Chain.{
  Covers, Covers-append, lost_count, lost_count-append, pending, Follows, offer-Follows,
}

-- what a `pop` adds to what has been read
abbrev pub popped : Option Entry → List Entry
popped none = []
popped (some e) = e ∷ []

-- `q'`, after the reading of `es` from `q`
pub record Reads (a d : ℕ) (es : List Entry) (q' : Ingest) : Type 0 where
  pub at : ℕ
  pub read : Covers a es at
  pub rest : Follows at (d + lost_count es) q'

pub pop-Reads : (a d : ℕ) (q : Ingest) → Follows a d q → Reads a d (popped (pop q).0) (pop q).1
unfolding pop gap_entries notes
pop-Reads a d q h = go q.gap q.items refl refl h.chain h.dropped
  where
    go :
        (gap : Option Gap) (items : List Notification)
        → q.gap ≡ gap
        → q.items ≡ items
        → Covers a (pending gap items) q.seq
        → q.metrics.dropped ≡ d + lost_count (pending gap items)
        → Reads a d (popped (pop_from gap items q).0) (pop_from gap items q).1
    go (some g) items e f chain dropped = record {
      at = g.last_lost_seq;
      read = (chain.0, chain.1, refl);
      rest = record { chain = rw f chain.2; dropped = rw f (omega (arith, dropped)) };
    }
    go none (n ∷ items) e f chain dropped = record {
      at = n.seq;
      read = (chain.0, refl);
      rest = record { chain = rw e chain.1; dropped = rw e (omega (arith, dropped)) };
    }
    go none [] e f chain dropped = record {
      at = a;
      read = refl;
      rest = record { chain = rw (e, f) chain; dropped = rw (e, f) (omega (arith, dropped)) };
    }

pub drain-Reads : (a d : ℕ) (q : Ingest) → Follows a d q → Reads a d (drain q).0 (drain q).1
unfolding drain
drain-Reads a d q h = record {
  at = q.seq;
  read = h.chain;
  rest = record { chain = refl; dropped = omega (arith, h.dropped) };
}

pub data Call : Type 0 where
  offered : String → List ℕ → String → ℕ → ℕ → Call
  popped_one : Call
  drained : Call

-- one call: what the consumer gets, and the queue after it
abbrev pub step : Call → Ingest → List Entry × Ingest
step (offered kind payload source mono wall) q = ([], (offer kind payload source mono wall q).1)
step popped_one q = (popped (pop q).0, (pop q).1)
step drained q = drain q

-- the calls in order: all that the consumer has got, and the queue at the end
unfoldable pub run : List Call → Ingest → List Entry × Ingest
run [] q = ([], q)
run (c ∷ calls) q = let rest = run calls (step c q).1 in ((step c q).0 ++ rest.0, rest.1)

abbrev pub offers : List Call → ℕ
offers [] = 0
offers (offered kind payload source mono wall ∷ calls) = suc (offers calls)
offers (popped_one ∷ calls) = offers calls
offers (drained ∷ calls) = offers calls

step-Reads : (c : Call) (a d : ℕ) (q : Ingest) → Follows a d q → Reads a d (step c q).0 (step c q).1
step-Reads (offered kind payload source mono wall) a d q h = record {
  at = a;
  read = refl;
  rest =
      let o = (offer-Follows a d mono wall kind payload source q h).0 in
      record { chain = o.chain; dropped = omega (arith, o.dropped) };
}
step-Reads popped_one a d q h = pop-Reads a d q h
step-Reads drained a d q h = drain-Reads a d q h

pub run-Reads :
    (calls : List Call) (a d : ℕ) (q : Ingest)
    → Follows a d q
    → Reads a d (run calls q).0 (run calls q).1
unfolding run
run-Reads [] a d q h = record {
  at = a;
  read = refl;
  rest = record { chain = h.chain; dropped = omega (arith, h.dropped) };
}
run-Reads (c ∷ calls) a d q h =
    let s = step-Reads c a d q h in
    let r = run-Reads calls s.at (d + lost_count (step c q).0) (step c q).1 s.rest in
    record {
      at = r.at;
      read = Covers-append a s.at r.at (step c q).0 (run calls (step c q).1).0 s.read r.read;
      rest = record {
        chain = r.rest.chain;
        dropped =
            omega
              (arith, r.rest.dropped, lost_count-append (step c q).0 (run calls (step c q).1).0);
      };
    }

step-seq :
    (c : Call) (a d : ℕ) (q : Ingest) → Follows a d q → (step c q).1.seq ≡ q.seq + offers (c ∷ [])
unfolding pop pop_from drain
step-seq (offered kind payload source mono wall) a d q h =
    (offer-Follows a d mono wall kind payload source q h).2
step-seq popped_one a d q h = ground arith
step-seq drained a d q h = omega arith

drained_lost : (q : Ingest) → lost_count (drain q).0 ≡ lost_count (pending q.gap q.items)
unfolding drain
drained_lost q = refl

offers-cons : (c : Call) (calls : List Call) → offers (c ∷ calls) ≡ offers (c ∷ []) + offers calls
offers-cons (offered kind payload source mono wall) calls = omega arith
offers-cons popped_one calls = omega arith
offers-cons drained calls = omega arith

run-seq :
    (calls : List Call) (a d : ℕ) (q : Ingest)
    → Follows a d q
    → (run calls q).1.seq ≡ q.seq + offers calls
unfolding run
run-seq [] a d q h = omega arith
run-seq (c ∷ calls) a d q h =
    let s = step-Reads c a d q h in
    let r = run-seq calls s.at (d + lost_count (step c q).0) (step c q).1 s.rest in
    omega (arith, r, step-seq c a d q h, offers-cons c calls)

pub new-Follows : (maxsize : ℕ) {q : Ingest} → new maxsize ≡ some q → Follows 0 0 q × (q.seq ≡ 0)
unfolding new gap_entries notes
new-Follows maxsize {q} e = ground arith

module _ (maxsize : ℕ) {q : Ingest} (made : new maxsize ≡ some q) (calls : List Call) where
  -- all that was offered: what the consumer has read, then what a `drain` would still give
  abbrev stream : List Entry
  stream = (run calls q).0 ++ (drain (run calls q).1).0

  -- From a new queue, whatever is offered, popped and drained in whatever order: what the
  -- consumer has read, followed by what is still queued, accounts for every sequence number from
  -- 1 to the number of offers, each once and in order, as a record or inside a gap; and the
  -- counter of drops is the number that lies in gaps.
  pub run-Covers :
      Covers 0 stream (offers calls) × ((run calls q).1.metrics.dropped ≡ lost_count stream)
  run-Covers =
      let (f, zero_seq) = new-Follows maxsize made in
      let r = run-Reads calls 0 0 q f in
      let l = drain-Reads r.at (0 + lost_count (run calls q).0) (run calls q).1 r.rest in
      let e : (run calls q).1.seq ≡ offers calls = omega (arith, run-seq calls 0 0 q f) in
      (
        subst (λ n. Covers 0 stream n) e
            (Covers-append 0 r.at (run calls q).1.seq _ _ r.read (unfold drain in r.rest.chain)),
        omega (
          arith,
          r.rest.dropped,
          lost_count-append (run calls q).0 (drain (run calls q).1).0,
          drained_lost (run calls q).1,
        ),
      )
