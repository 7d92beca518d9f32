-- ===== src/Events/Ingest/Chain.antt =====
-- Streams of an `Ingest` that account for every sequence number, and `offer` on them.
use unidenr8_bluetooth.Prelude.{
  ℕ, suc, ◌+◌, ◌≤◌, ◌≡◌, refl, Option, none, some, List, [], ◌∷◌, ◌++◌, String, arith, leb, length,
  Bool-cases, inl, inr, ap, sym,
}
use mathlib.Core.List.{append_assoc}
use unidenr8_bluetooth.Events.Ingest.{
  Notification, Gap, Entry, note, lost, Ingest, count, notes, gap_entries, widened, make_room,
  evict, maxlen, accept, enqueue, offer,
}

-- `Covers a stream b`: the stream accounts for the sequence numbers after `a` up to `b`, each
-- once and in order, every gap being of at least one.
abbrev pub Covers : ℕ → List Entry → ℕ → Type 0
Covers a [] b = a ≡ b
Covers a (note n ∷ es) b = (n.seq ≡ a + 1) × Covers n.seq es b
Covers a (lost g ∷ es) b =
    (g.first_lost_seq ≡ a + 1) × (g.first_lost_seq ≤ g.last_lost_seq) × Covers g.last_lost_seq es b

-- how many sequence numbers the gaps of a stream account for
abbrev pub lost_count : List Entry → ℕ
lost_count [] = 0
lost_count (note n ∷ es) = lost_count es
lost_count (lost g ∷ es) = count g + lost_count es

abbrev pub note_count : List Entry → ℕ
note_count [] = 0
note_count (note n ∷ es) = suc (note_count es)
note_count (lost g ∷ es) = note_count es

pub Covers-append :
    (a b c : ℕ) (xs ys : List Entry) → Covers a xs b → Covers b ys c → Covers a (xs ++ ys) c
Covers-append a b c [] ys h k = let e : b ≡ a = omega arith in rw e at k
Covers-append a b c (note n ∷ xs) ys h k = (h.0, Covers-append n.seq b c xs ys h.1 k)
Covers-append a b c (lost g ∷ xs) ys h k = (h.0, h.1, Covers-append g.last_lost_seq b c xs ys h.2 k)

pub lost_count-append : (xs ys : List Entry) → lost_count (xs ++ ys) ≡ lost_count xs + lost_count ys
lost_count-append [] ys = omega arith
lost_count-append (note n ∷ xs) ys = lost_count-append xs ys
lost_count-append (lost g ∷ xs) ys = omega (arith, lost_count-append xs ys)

-- A stream without holes has as many records, lost ones included, as it covers numbers.
pub Covers-count :
    (a b : ℕ) (es : List Entry) → Covers a es b → note_count es + lost_count es + a ≡ b
unfolding count
Covers-count a b [] h = omega arith
Covers-count a b (note n ∷ es) h = omega (arith, Covers-count n.seq b es h.1)
Covers-count a b (lost g ∷ es) h = omega (arith, Covers-count g.last_lost_seq b es h.2)

-- what is queued, the gap first
abbrev pub pending : Option Gap → List Notification → List Entry
pending gap items = gap_entries gap ++ notes items

notes-append :
    (items : List Notification) (n : Notification)
    → notes (items ++ (n ∷ [])) ≡ notes items ++ (note n ∷ [])
unfolding notes
notes-append [] n = refl
notes-append (m ∷ items) n = ap (◌∷◌ (note m)) (notes-append items n)

-- Folding the oldest queued record into the gap keeps the stream whole.
widened-Covers :
    (a s mono wall : ℕ) (gap : Option Gap) (o : Notification) (items : List Notification)
    → Covers a (pending gap (o ∷ items)) s
    → Covers a (pending (some (widened o.seq mono wall gap)) items) s
      × (lost_count (pending (some (widened o.seq mono wall gap)) items)
          ≡ lost_count (pending gap (o ∷ items)) + 1)
unfolding widened gap_entries notes count
widened-Covers a s mono wall none o items h = ((h.0, omega arith, h.1), omega arith)
widened-Covers a s mono wall (some g) o items h = ground arith

-- `Follows a d q`: with everything up to `a` read, `d` of it as lost, what is queued goes on from
-- there, and the counter of drops agrees.
pub record Follows (a d : ℕ) (q : Ingest) : Type 0 where
  pub chain : Covers a (pending q.gap q.items) q.seq
  pub dropped : q.metrics.dropped ≡ d + lost_count (pending q.gap q.items)

-- the same of a queue whose newest number, `s`, may not be its counter
record Queued (a d s : ℕ) (q : Ingest) : Type 0 where
  chain : Covers a (pending q.gap q.items) s
  dropped : q.metrics.dropped ≡ d + lost_count (pending q.gap q.items)

pending-append :
    (gap : Option Gap) (items : List Notification) (n : Notification)
    → pending gap (items ++ (n ∷ [])) ≡ pending gap items ++ (note n ∷ [])
pending-append gap items n = rw notes-append (sym (append_assoc (gap_entries gap) _ _))

module _ (a d s : ℕ) where
  make_room-Queued :
      (mono wall : ℕ) (items : List Notification) (q : Ingest)
      → Covers a (pending q.gap items) s
      → q.metrics.dropped ≡ d + lost_count (pending q.gap items)
      → Queued a d s (make_room mono wall items q) × ((make_room mono wall items q).seq ≡ q.seq)
  unfolding make_room evict
  make_room-Queued mono wall [] q h k = (record { chain = h; dropped = k }, refl)
  make_room-Queued mono wall (o ∷ items) q h k =
      elim (Bool-cases (leb (maxlen q) (length (o ∷ items)))) [
        | inl full ↦
            let (chain, grown) = widened-Covers a s mono wall q.gap o items h in
            rw full (make_room-Queued mono wall items (evict mono wall o q) chain (omega arith))
        | inr room ↦ rw room (record { chain = h; dropped = k }, refl)
      ]

  enqueue-Follows :
      (n : Notification) (q : Ingest)
      → n.seq ≡ s + 1
      → q.seq ≡ s + 1
      → Queued a d s q
      → Follows a d (enqueue n q)
  unfolding enqueue
  enqueue-Follows n q e f h = record {
    chain =
        rw (pending-append q.gap q.items n)
          (Covers-append a s q.seq (pending q.gap q.items) (note n ∷ []) h.chain (omega arith));
    dropped =
        rw (pending-append q.gap q.items n)
          (omega (arith, h.dropped, lost_count-append (pending q.gap q.items) (note n ∷ [])));
  }

module _ (a d mono wall : ℕ) where
  -- `offer` numbers the record with the next number, and the stream stays whole.
  pub offer-Follows :
      (kind : String) (payload : List ℕ) (source : String) (q : Ingest)
      → Follows a d q
      → Follows a d (offer kind payload source mono wall q).1
        × ((offer kind payload source mono wall q).0.seq ≡ q.seq + 1)
        × ((offer kind payload source mono wall q).1.seq ≡ q.seq + 1)
  unfolding offer
  offer-Follows kind payload source q h =
      let (n, q') = accept kind payload source mono wall q in
      let (room, kept) = make_room-Queued a d q.seq mono wall q.items q' h.chain h.dropped in
      (enqueue-Follows a d q.seq n (make_room mono wall q.items q') refl kept room, refl, kept)
