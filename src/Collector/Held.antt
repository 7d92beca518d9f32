-- ===== src/Collector/Held.antt =====
-- What each step of `_Session.run` of src/uniden_r8/collector.py keeps.
use unidenr8_bluetooth.Prelude.{
  ℕ, ◌≡◌, refl, true, Option, none, some, List, [], ◌∷◌, ◌++◌, String, All, All-append, Bool-cases,
  inl, inr, ◌∙◌,
}
use unidenr8_bluetooth.Runtime.Float.{Float, IsOrdered}
use unidenr8_bluetooth.Runtime.Text.{Text, mem_text}
use unidenr8_bluetooth.Runtime.Unicode.{Unicode}
use unidenr8_bluetooth.Gatt.Catalogue.{live_read_uuids, live_notify_uuids}
use unidenr8_bluetooth.Gatt.{returned, assert_live_readable, assert_live_notifiable}
use unidenr8_bluetooth.Events.Ingest.Chain.{offer-Follows}
use unidenr8_bluetooth.Events.Ingest.{offer}
use unidenr8_bluetooth.Events.Tracker.{AlertEvent}
use unidenr8_bluetooth.Events.Tracker.Ledger.{Ledger, ledger, replay, replay-append}
use unidenr8_bluetooth.Collector.{Session, on_notification}
use unidenr8_bluetooth.Collector.Counts.{IsSteady, consume-Consumed}
use unidenr8_bluetooth.Collector.Link.{
  Access, read_of, subscribe_to, unsubscribe_from, Link, Device, Arrival, set_note, dispatch,
  publish, arrive, offer_read, unsubscribe, read_first, subscribe, consume_dispatch,
}

-- a call that the live path may make
abbrev pub Allowed : Access → Type 0
Allowed (read_of uuid) = mem_text uuid live_read_uuids ≡ true
Allowed (subscribe_to uuid) = mem_text uuid live_notify_uuids ≡ true
Allowed (unsubscribe_from uuid) = mem_text uuid live_notify_uuids ≡ true

-- the session is steady, the events that the sinks were sent replay to its tracker, and every call
-- of the client was allowed
pub record IsRunning {F : Type 0} ⦃u : Unicode⦄ (base before : ℕ) (start : Ledger) (l : Link F)
    : Type 0 where
  pub steady : IsSteady base before l.session
  pub told : replay l.dispatched start ≡ some (ledger l.session.tracker)
  pub allowed : All Allowed l.accesses

module _ {F : Type 0} ⦃f : Float F⦄ ⦃u : Unicode⦄ (base before : ℕ) (start : Ledger) where
  abbrev pub Runs : Link F → Type 0
  Runs l = IsRunning base before start l

  -- the invariant of a session, after a record was offered to its queue
  offered-IsSteady :
      (kind source : String) (payload : List ℕ) (mono wall : ℕ) (s : Session F)
      → IsSteady base before s
      → IsSteady base before
          (record s { ingest = (offer kind payload source mono wall s.ingest).1 })
  offered-IsSteady kind source payload mono wall s v = record {
    dealt = v.dealt;
    missed = v.missed;
    counted = v.counted;
    lost_counted = v.lost_counted;
    follows = (offer-Follows v.dealt v.missed mono wall kind payload source s.ingest v.follows).0;
    tracker = v.tracker;
  }

  pub set_note-IsRunning : (text : String) (l : Link F) → Runs l → Runs (set_note text l)
  set_note-IsRunning text l r = record {
    steady = record {
      dealt = r.steady.dealt;
      missed = r.steady.missed;
      counted = r.steady.counted;
      lost_counted = r.steady.lost_counted;
      follows = r.steady.follows;
      tracker = r.steady.tracker;
    };
    told = r.told;
    allowed = r.allowed;
  }

  pub publish-IsRunning : (l : Link F) → Runs l → Runs (publish l)
  unfolding publish
  publish-IsRunning l r = record { steady = r.steady; told = r.told; allowed = r.allowed }

  pub arrive-IsRunning : (arrivals : List Arrival) (l : Link F) → Runs l → Runs (arrive arrivals l)
  unfolding arrive on_notification
  arrive-IsRunning [] l r = r
  arrive-IsRunning (a ∷ arrivals) l r =
      arrive-IsRunning arrivals
        (record l { session = on_notification a.kind a.payload a.monotonic_ns a.wall_ns l.session })
        (record {
          steady =
              offered-IsSteady a.kind "notify" a.payload a.monotonic_ns a.wall_ns l.session
                r.steady;
          told = r.told;
          allowed = r.allowed;
        })

  pub offer_read-IsRunning :
      (kind : String) (o : Option (List ℕ × ℕ × ℕ)) (l : Link F)
      → Runs l
      → Runs (offer_read kind o l)
  unfolding offer_read
  offer_read-IsRunning kind none l r = r
  offer_read-IsRunning kind (some (payload, mono, wall)) l r = record {
    steady = offered-IsSteady kind "read" payload mono wall l.session r.steady;
    told = r.told;
    allowed = r.allowed;
  }

  -- after events that lead from the tracker of a link to that of a session
  pub dispatch-IsRunning :
      (events : List (AlertEvent F)) (s : Session F) (l : Link F)
      → Runs l
      → IsSteady base before s
      → replay events (ledger l.session.tracker) ≡ some (ledger s.tracker)
      → Runs (dispatch events (record l { session = s }))
  unfolding dispatch
  dispatch-IsRunning events s l r v told = record {
    steady = record {
      dealt = v.dealt;
      missed = v.missed;
      counted = v.counted;
      lost_counted = v.lost_counted;
      follows = v.follows;
      tracker = v.tracker;
    };
    told = replay-append l.dispatched events start (ledger l.session.tracker) r.told ∙ told;
    allowed = r.allowed;
  }

  pub consume_dispatch-IsRunning :
      IsOrdered F
      → (clock : ℕ → F) (l : Link F) → Runs l
      → (l' : Link F) × (consume_dispatch clock l ≡ some l')
        × Runs l'
        × (l'.session.ingest.gap ≡ none)
        × (l'.session.ingest.items ≡ [])
  unfolding consume_dispatch dispatch
  consume_dispatch-IsRunning o clock l r =
      let c = consume-Consumed o base before clock l.session r.steady in
      (
        dispatch c.events (record l { session = c.after }),
        rw (consume_dispatch, c.returned) refl,
        dispatch-IsRunning c.events c.after l r c.steady c.replays,
        c.empty.0,
        c.empty.1,
      )

  accessed-IsRunning :
      (access : Access) (l : Link F)
      → Allowed access
      → Runs l
      → Runs (record l { accesses = l.accesses ++ (access ∷ []) })
  accessed-IsRunning access l a r = record {
    steady = r.steady;
    told = r.told;
    allowed = All-append Allowed l.accesses (access ∷ []) r.allowed (a, tt);
  }

  pub unsubscribe-IsRunning :
      (subscribed : List Text) (l : Link F)
      → All (λ t. mem_text t live_notify_uuids ≡ true) subscribed
      → Runs l
      → Runs (unsubscribe subscribed l)
  unfolding unsubscribe
  unsubscribe-IsRunning [] l h r = r
  unsubscribe-IsRunning (t ∷ subscribed) l h r =
      unsubscribe-IsRunning subscribed
        (record l { accesses = l.accesses ++ (unsubscribe_from t ∷ []) }) h.1
        (accessed-IsRunning (unsubscribe_from t) l h.0 r)

  pub read_first-IsRunning :
      (d : Device F) (kind : String) (uuid : Text) (l : Link F)
      → assert_live_readable uuid ≡ returned uuid
      → mem_text uuid live_read_uuids ≡ true
      → Runs l
      → (l' : Link F) × (read_first d kind uuid (some l) ≡ some l') × Runs l'
  unfolding read_first
  read_first-IsRunning d kind uuid l gate m r = (
    _,
    rw (read_first, gate) refl,
    offer_read-IsRunning kind (d.answer uuid)
        (record l { accesses = l.accesses ++ (read_of uuid ∷ []) })
        (accessed-IsRunning (read_of uuid) l m r),
  )

  -- after a subscription: the list of those that succeeded, and the link
  abbrev pub Subscribed : List Text → Link F → Type 0
  Subscribed subscribed l = All (λ t. mem_text t live_notify_uuids ≡ true) subscribed × Runs l

  pub subscribe-IsRunning :
      (d : Device F) (uuid : Text) (subscribed : List Text) (l : Link F)
      → assert_live_notifiable uuid ≡ returned uuid
      → mem_text uuid live_notify_uuids ≡ true
      → Subscribed subscribed l
      → (after : List Text) × (l' : Link F) × (subscribe d uuid (some (subscribed, l))
          ≡ some (after, l'))
        × Subscribed after l'
  unfolding subscribe
  subscribe-IsRunning d uuid subscribed l gate m (h, r) =
      let asked = accessed-IsRunning (subscribe_to uuid) l m r in
      let l' : Link F = record l { accesses = l.accesses ++ (subscribe_to uuid ∷ []) } in
      elim (Bool-cases (d.subscribes uuid)) [
        | inl on ↦ (
          subscribed ++ (uuid ∷ []),
          l',
          rw (subscribe, gate, on) refl,
          (
            All-append (λ t. mem_text t live_notify_uuids ≡ true) subscribed (uuid ∷ []) h (m, tt),
            asked,
          ),
        )
        | inr off ↦ (
          subscribed,
          set_note "partial subscription" l',
          rw (subscribe, gate, off) refl,
          (h, set_note-IsRunning "partial subscription" l' asked),
        )
      ]
