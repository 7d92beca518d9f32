-- ===== src/Collector/Closed.antt =====
-- What the streaming loop of src/uniden_r8/collector.py keeps.
use unidenr8_bluetooth.Prelude.{
  ℕ, ◌≡◌, refl, true, not, ◌||◌, Option, some, List, [], ◌∷◌, all_of, sym, if-each,
}
use unidenr8_bluetooth.Runtime.Float.{Float, IsOrdered}
use unidenr8_bluetooth.Runtime.Text.{Text, mem_text}
use unidenr8_bluetooth.Runtime.Unicode.{Unicode}
use unidenr8_bluetooth.Gatt.{returned}
use unidenr8_bluetooth.Gatt.Passed.{KeepsMarks, is_mark, normalize_uuid-marks}
use unidenr8_bluetooth.Gatt.Gates.{Operation, gate, planned}
use unidenr8_bluetooth.Gatt.Plans.{gate-planned}
use unidenr8_bluetooth.Events.Tracker.{AlertEvent}
use unidenr8_bluetooth.Events.Tracker.Ledger.{Ledger}
use unidenr8_bluetooth.Collector.Counts.{consume-Consumed}
use unidenr8_bluetooth.Collector.Link.{Link, dispatch, publish, arrive}
use unidenr8_bluetooth.Collector.Pump.{
  PumpConfig, Round, Ending, Pump, Turn, next, ended, stopped, deadline_reached, cancelled, is_due,
  is_silent, some_events, at_least, after_probe, after_consume, turn, by_turn, pump,
}
use unidenr8_bluetooth.Collector.Held.{
  Runs, set_note-IsRunning, publish-IsRunning, arrive-IsRunning, dispatch-IsRunning,
}

module _ ⦃u : Unicode⦄ where
  -- a gate returns a canonical UUID of its plan as it is
  pub gate-same :
      KeepsMarks
      → (op : Operation) (uuid : Text) → all_of is_mark uuid ≡ true
      → mem_text uuid (planned op) ≡ true
      → gate op uuid ≡ returned uuid
  gate-same k op uuid marks m =
      (gate-planned k op uuid uuid).1 (sym (normalize_uuid-marks k uuid marks), m)

module _ {F : Type 0} ⦃f : Float F⦄ ⦃u : Unicode⦄ (base before : ℕ) (start : Ledger) where
  abbrev Going : Link F → Type 0
  Going l = Runs base before start l

  abbrev Turned : Turn F → Type 0
  Turned (next p) = Going p.link
  Turned (ended ending l) = Going l

  abbrev Turns : Option (Turn F) → Type 0
  Turns o = (t : Turn F) × (o ≡ some t) × Turned t

  after_probe-Turned :
      (config : PumpConfig F) (since : F) (r : Round F) (events : List (AlertEvent F))
      (last_health : F) (p : Pump F)
      → Going p.link
      → Turned (after_probe config since r events last_health p)
  unfolding after_probe
  after_probe-Turned config since r events last_health p g =
      let shown : Going (publish p.link) = publish-IsRunning base before start p.link g in
      if-each Turned (not r.is_connected) _ _
        (λ _. set_note-IsRunning base before start "link dropped" p.link g)
        (λ _.
          if-each Turned (is_silent since p.link r.now) _ _
            (λ _. set_note-IsRunning base before start "no packets" p.link g)
            (λ _.
              if-each Turned
                (some_events events || at_least (f.sub r.now p.last_publish) config.heartbeat) _ _
                (λ _. shown) (λ _. g)))

  after_consume-Turned :
      (config : PumpConfig F) (since : F) (r : Round F) (events : List (AlertEvent F)) (p : Pump F)
      → Going p.link
      → Turned (after_consume config since r events p)
  unfolding after_consume
  after_consume-Turned config since r events p g =
      if-each Turned (not (at_least (f.sub r.now p.last_health) config.obd_interval)) _ _
        (λ _. after_probe-Turned config since r events p.last_health p g)
        (λ _.
          if-each Turned r.obd_healthy _ _ (λ _. after_probe-Turned config since r events r.now p g)
            (λ _.
              publish-IsRunning base before start (record p.link { status = "obd-blocked" })
                (record { steady = g.steady; told = g.told; allowed = g.allowed })))

  turn-Turned :
      IsOrdered F
      → (config : PumpConfig F) (since : F) (r : Round F) (p : Pump F) → Going p.link
      → Turns (turn config since r p)
  unfolding turn
  turn-Turned o config since r p g =
      let l : Link F = arrive r.arrivals p.link in
      let arrived : Going l = arrive-IsRunning base before start r.arrivals p.link g in
      let c = consume-Consumed o base before r.clock l.session arrived.steady in
      let after : Pump F = record p { link = dispatch c.events (record l { session = c.after }) } in
      let kept : Going after.link =
        dispatch-IsRunning base before start c.events c.after l arrived c.steady c.replays in
      if-each Turns r.stop_at_head _ _ (λ _. (ended stopped p.link, refl, g))
        (λ _.
          if-each Turns (is_due config.heartbeat config.deadline r.head) _ _
            (λ _. (ended deadline_reached p.link, refl, g))
            (λ _.
              if-each Turns r.stop_after_wait _ _ (λ _. (ended stopped l, refl, arrived))
                (λ _. (
                  after_consume config since r c.events after,
                  rw c.returned refl,
                  after_consume-Turned config since r c.events after kept,
                ))))

  -- a loop that ends, or is cut off, with the link as it should be
  abbrev pub Pumped : Option (Ending × Link F) → Type 0
  Pumped o = (ending : Ending) × (l : Link F) × (o ≡ some (ending, l)) × Going l

  by_turn-Pumped :
      (rest : Pump F → Option (Ending × Link F)) (o : Option (Turn F))
      → ((p : Pump F) → Going p.link → Pumped (rest p))
      → Turns o
      → Pumped (by_turn rest o)
  by_turn-Pumped rest o h (next p, e, g) = rw e (h p g)
  by_turn-Pumped rest o h (ended ending l, e, g) = (ending, l, rw e refl, g)

  pub pump-Pumped :
      IsOrdered F
      → (config : PumpConfig F) (since : F) (rounds : List (Round F)) (p : Pump F) → Going p.link
      → Pumped (pump config since rounds p)
  unfolding pump
  pump-Pumped o config since [] p g = (cancelled, p.link, refl, g)
  pump-Pumped o config since (r ∷ rounds) p g =
      by_turn-Pumped (λ p'. pump config since rounds p') (turn config since r p)
        (λ p' g'. pump-Pumped o config since rounds p' g') (turn-Turned o config since r p g)
