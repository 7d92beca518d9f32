-- ===== src/Events/Ingest.antt =====
-- `Notification`, `Gap`, `IngestMetrics` and `Ingest` of src/uniden_r8/events.py. The two clock
-- reads of `stamp` are arguments. The proofs are in the modules below.
pub mod Chain
pub mod Run
pub mod Bounds
use unidenr8_bluetooth.Prelude.{
  ℕ, zero, suc, ◌+◌, ◌-◌, ◌≤◌, ◌<◌, ◌≡◌, refl, Bool, true, false, Option, none, some, List, [], ◌∷◌,
  ◌++◌, String, str_eq, arith, ltb, leb, if◌then◌else◌, length,
}
use Prim.Native.Nat.{min, max}

pub record Notification : Type 0 where
  pub seq : ℕ
  pub kind : String
  pub payload : List ℕ
  pub monotonic_ns : ℕ
  pub wall_ns : ℕ
  pub source : String

pub record Gap : Type 0 where
  pub first_lost_seq : ℕ
  pub last_lost_seq : ℕ
  pub monotonic_ns : ℕ
  pub wall_ns : ℕ

-- `Gap.count`; an `Ingest` keeps `first_lost_seq ≤ last_lost_seq`
unfoldable pub count : Gap → ℕ
count g = g.last_lost_seq + 1 - g.first_lost_seq

pub record IngestMetrics : Type 0 where
  pub accepted : ℕ
  pub dropped : ℕ
  pub gaps : ℕ
  pub high_water : ℕ
  pub depth : ℕ

pub data Entry : Type 0 where
  note : Notification → Entry
  lost : Gap → Entry

-- `latest` is the dictionary of the newest notification of each kind
pub record Ingest : Type 0 where
  pub maxsize : ℕ
  pub items : List Notification
  pub seq : ℕ
  pub gap : Option Gap
  pub metrics : IngestMetrics
  pub latest : List (String × Notification)

-- `self._items.maxlen`
abbrev pub maxlen : Ingest → ℕ
maxlen q = q.maxsize - 1

-- `Ingest(maxsize)`, with `none` for the `ValueError`
unfoldable pub new : ℕ → Option Ingest
new maxsize =
    if ltb maxsize 2
    then none
    else some (record {
      maxsize = maxsize;
      items = [];
      seq = 0;
      gap = none;
      metrics = record { accepted = 0; dropped = 0; gaps = 0; high_water = 0; depth = 0 };
      latest = [];
    })

unfoldable pub gap_size : Option Gap → ℕ
gap_size none = 0
gap_size (some g) = 1

-- `len(self)`
unfoldable pub depth : Ingest → ℕ
unfolding gap_size
depth q = length q.items + gap_size q.gap

-- `self.latest[kind] = note`
put_latest : String → Notification → List (String × Notification) → List (String × Notification)
put_latest kind n [] = (kind, n) ∷ []
put_latest kind n ((k, m) ∷ rest) =
    if str_eq k kind then (k, n) ∷ rest else (k, m) ∷ put_latest kind n rest

-- `self.latest.get(kind)`
unfoldable pub get_latest : String → List (String × Notification) → Option Notification
get_latest kind [] = none
get_latest kind ((k, m) ∷ rest) = if str_eq k kind then some m else get_latest kind rest

-- `_widen_gap`: the pending gap, and the count of gaps
widened : ℕ → ℕ → ℕ → Option Gap → Gap
widened seq mono wall none = record {
  first_lost_seq = seq;
  last_lost_seq = seq;
  monotonic_ns = mono;
  wall_ns = wall;
}
widened seq mono wall (some g) = record g {
  first_lost_seq = min g.first_lost_seq seq;
  last_lost_seq = max g.last_lost_seq seq;
}

opened : Option Gap → ℕ → ℕ
opened none gaps = gaps + 1
opened (some g) gaps = gaps

unfoldable pub widen_gap : ℕ → ℕ → ℕ → Ingest → Ingest
unfolding widened opened
widen_gap seq mono wall q = record q {
  gap = some (widened seq mono wall q.gap);
  metrics = record q.metrics { gaps = opened q.gap q.metrics.gaps };
}

-- the body of the `while` loop of `offer`, at the record that `popleft` returned
evict : ℕ → ℕ → Notification → Ingest → Ingest
unfolding widen_gap
evict mono wall evicted q =
    let q' : Ingest = record q { metrics = record q.metrics { dropped = q.metrics.dropped + 1 } } in
    widen_gap evicted.seq mono wall q'

-- the loop, over the queue: the oldest record goes until there is room
make_room : ℕ → ℕ → List Notification → Ingest → Ingest
make_room mono wall [] q = record q { items = [] }
make_room mono wall (oldest ∷ items) q =
    let rest = make_room mono wall items (evict mono wall oldest q) in
    if leb (maxlen q) (length (oldest ∷ items)) then rest else record q { items = oldest ∷ items }

-- number the record, and remember it as the latest of its kind
accept : String → List ℕ → String → ℕ → ℕ → Ingest → Notification × Ingest
unfolding put_latest
accept kind payload source mono wall q =
    let n : Notification = record {
      seq = q.seq + 1;
      kind = kind;
      payload = payload;
      monotonic_ns = mono;
      wall_ns = wall;
      source = source;
    } in
    (
      n,
      record q {
        seq = q.seq + 1;
        latest = put_latest kind n q.latest;
        metrics = record q.metrics { accepted = q.metrics.accepted + 1 };
      },
    )

enqueue : Notification → Ingest → Ingest
enqueue n q =
    let q' : Ingest = record q { items = q.items ++ (n ∷ []) } in
    record q' {
      metrics = record q'.metrics {
        depth = depth q';
        high_water = max q'.metrics.high_water (depth q');
      };
    }

unfoldable pub offer : String → List ℕ → String → ℕ → ℕ → Ingest → Notification × Ingest
unfolding accept enqueue make_room evict depth
offer kind payload source mono wall q =
    let (n, q') = accept kind payload source mono wall q in
    (n, enqueue n (make_room mono wall q'.items q'))

unfoldable pub notes : List Notification → List Entry
notes [] = []
notes (n ∷ items) = note n ∷ notes items

unfoldable pub gap_entries : Option Gap → List Entry
gap_entries none = []
gap_entries (some g) = lost g ∷ []

unfoldable pub drain : Ingest → List Entry × Ingest
unfolding notes gap_entries
drain q = (
  gap_entries q.gap ++ notes q.items,
  record q { gap = none; items = []; metrics = record q.metrics { depth = 0 } },
)

unfoldable pub pop_from : Option Gap → List Notification → Ingest → Option Entry × Ingest
pop_from (some g) items q =
    let q' : Ingest = record q { gap = none } in
    (some (lost g), record q' { metrics = record q'.metrics { depth = depth q' } })
pop_from none (n ∷ items) q =
    let q' : Ingest = record q { items = items } in
    (some (note n), record q' { metrics = record q'.metrics { depth = depth q' } })
pop_from none [] q = (none, q)

unfoldable pub pop : Ingest → Option Entry × Ingest
unfolding pop_from depth
pop q = pop_from q.gap q.items q
