-- ===== src/Collector/Pump.antt =====
-- `_Session._pump` of src/uniden_r8/collector.py. A `Round` is what the
-- clock and the rest of the process do in one round of the loop; where the rounds are over, the
-- loop was cancelled. `_record_history_fix`, a call of the history, is left out.
use unidenr8_bluetooth.Prelude.{
  ℕ, Bool, true, false, not, ◌||◌, Option, none, some, List, [], ◌∷◌, if◌then◌else◌,
}
use unidenr8_bluetooth.Prelude.Int.{pos}
use unidenr8_bluetooth.Runtime.Float.{Float, max_float, min_float}
use unidenr8_bluetooth.Runtime.Unicode.{Unicode}
use unidenr8_bluetooth.Events.Tracker.{AlertEvent}
use unidenr8_bluetooth.Collector.{consume}
use unidenr8_bluetooth.Collector.Link.{Link, Arrival, arrive, set_note, dispatch, publish}

-- `heartbeat_seconds`, `obd.interval_seconds` and the deadline of a trial
pub record PumpConfig (F : Type 0) : Type 0 where
  pub heartbeat : F
  pub obd_interval : F
  pub deadline : Option F

-- whether the stop event is set at the head of the loop and after the wait, the clock at these two
-- places and while the records are handled, what arrives during the wait, and what the probe and
-- the client say
pub record Round (F : Type 0) : Type 0 where
  pub stop_at_head : Bool
  pub head : F
  pub arrivals : List Arrival
  pub stop_after_wait : Bool
  pub now : F
  pub clock : ℕ → F
  pub obd_healthy : Bool
  pub is_connected : Bool

pub data Ending : Type 0 where
  stopped deadline_reached obd_blocked link_dropped no_packets cancelled : Ending

-- the variables of the loop
pub record Pump (F : Type 0) : Type 0 where
  pub link : Link F
  pub last_health : F
  pub last_publish : F

-- after a round: the next one, or the end of the loop
pub data Turn (F : Type 0) : Type 0 where
  next : Pump F → Turn F
  ended : Ending → Link F → Turn F

module _ {F : Type 0} ⦃f : Float F⦄ where
  abbrev pub zero_float : F
  zero_float = f.ratio (pos 0) (pos 1)

  -- `SILENCE_TIMEOUT_SECONDS`
  abbrev pub silence_timeout : F
  silence_timeout = f.ratio (pos 60) (pos 1)

  -- `a >= b`, of floats that are no NaN
  abbrev pub at_least : F → F → Bool
  at_least a b = not (f.lt a b)

  -- `wait <= 0`, which only a deadline makes possible
  abbrev pub is_due : F → Option F → F → Bool
  is_due heartbeat none head = false
  is_due heartbeat (some deadline) head =
      at_least zero_float (min_float heartbeat (max_float zero_float (f.sub deadline head)))

  -- `state.latest_at or 0.0`
  abbrev pub or_zero : Option F → F
  or_zero none = zero_float
  or_zero (some at) = at

  -- `silent_for > SILENCE_TIMEOUT_SECONDS`
  abbrev pub is_silent : F → Link F → F → Bool
  is_silent since l now =
      f.lt silence_timeout (f.sub now (max_float since (or_zero l.session.state.latest_at)))

  abbrev pub some_events : List (AlertEvent F) → Bool
  some_events [] = false
  some_events (e ∷ events) = true

  -- the end of a round, after the probe
  unfoldable pub after_probe :
      PumpConfig F → F → Round F → List (AlertEvent F) → F → Pump F → Turn F
  after_probe config since r events last_health p =
      if not r.is_connected
      then ended link_dropped (set_note "link dropped" p.link)
      else if is_silent since p.link r.now
      then ended no_packets (set_note "no packets" p.link)
      else if some_events events || at_least (f.sub r.now p.last_publish) config.heartbeat
      then next (record { link = publish p.link; last_health = last_health; last_publish = r.now })
      else next (record p { last_health = last_health })

  -- the round once the records are handled
  unfoldable pub after_consume : PumpConfig F → F → Round F → List (AlertEvent F) → Pump F → Turn F
  unfolding after_probe
  after_consume config since r events p =
      if not (at_least (f.sub r.now p.last_health) config.obd_interval)
      then after_probe config since r events p.last_health p
      else if r.obd_healthy
      then after_probe config since r events r.now p
      else ended obd_blocked (publish (record p.link { status = "obd-blocked" }))

module _ {F : Type 0} ⦃f : Float F⦄ ⦃u : Unicode⦄ where
  -- one round; `none` is an exception out of the tracker
  unfoldable pub turn : PumpConfig F → F → Round F → Pump F → Option (Turn F)
  turn config since r p =
      if r.stop_at_head
      then some (ended stopped p.link)
      else if is_due config.heartbeat config.deadline r.head
      then some (ended deadline_reached p.link)
      else let l = arrive r.arrivals p.link in
        if r.stop_after_wait then some (ended stopped l) else elim (consume r.clock l.session) [
          | none ↦ none
          | some (events, s) ↦ some (
              after_consume config since r events
                (record p { link = dispatch events (record l { session = s }) }))
        ]

  -- the loop
  abbrev pub by_turn :
      (Pump F → Option (Ending × Link F)) → Option (Turn F) → Option (Ending × Link F)
  by_turn rest none = none
  by_turn rest (some (ended ending l)) = some (ending, l)
  by_turn rest (some (next p)) = rest p

  unfoldable pub pump : PumpConfig F → F → List (Round F) → Pump F → Option (Ending × Link F)
  pump config since [] p = some (cancelled, p.link)
  pump config since (r ∷ rounds) p =
      by_turn (λ p'. pump config since rounds p') (turn config since r p)
