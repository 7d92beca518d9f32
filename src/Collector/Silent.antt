-- ===== src/Collector/Silent.antt =====
-- The silence of a link: the streaming loop of src/uniden_r8/collector.py where nothing arrives.
use unidenr8_bluetooth.Prelude.{
  ℕ, ◌≡◌, ◌≢◌, refl, true, false, not, Option, none, some, List, [], ◌∷◌, All, Any, if-each, inl,
  inr, sym, ◌∙◌, ap, subst,
}
use unidenr8_bluetooth.Runtime.Float.{Float, max_float}
use unidenr8_bluetooth.Runtime.Unicode.{Unicode}
use unidenr8_bluetooth.Events.Ingest.{gap_size, depth, pop, pop_from}
use unidenr8_bluetooth.Collector.{Session, consume, consume_loop, after_pop}
use unidenr8_bluetooth.Collector.Link.{Link, dispatch, publish, arrive}
use unidenr8_bluetooth.Collector.Pump.{
  PumpConfig, Round, Ending, Pump, Turn, next, ended, stopped, deadline_reached, obd_blocked,
  link_dropped, no_packets, cancelled, is_due, is_silent, at_least, or_zero, silence_timeout,
  after_probe, after_consume, turn, by_turn, pump,
}

module _ {F : Type 0} ⦃f : Float F⦄ ⦃u : Unicode⦄ where
  -- nothing is queued, and the last packet was at a time
  pub record IsQuiet (latest_at : Option F) (l : Link F) : Type 0 where
    pub no_gap : l.session.ingest.gap ≡ none
    pub no_item : l.session.ingest.items ≡ []
    pub packet : l.session.state.latest_at ≡ latest_at

  consume-quiet :
      (clock : ℕ → F) (s : Session F)
      → s.ingest.gap ≡ none
      → s.ingest.items ≡ []
      → consume clock s ≡ some ([], s)
  unfolding consume consume_loop after_pop depth pop pop_from gap_size
  consume-quiet clock s g i = rw (g, i) refl

  -- after a round: an end that is no cancellation, or a quiet link to go on with
  abbrev Each : (Turn F → Type 0) → F → Option F → F → Type 0
  Each P since latest_at now =
      ((ending : Ending) (l : Link F) → ending ≢ cancelled → P (ended ending l))
      × ((l : Link F) (last_health last_publish : F)
          → IsQuiet latest_at l
          → is_silent since l now ≡ false
          → P (next (record { link = l; last_health = last_health; last_publish = last_publish })))

  after_probe-each :
      (P : Turn F → Type 0) (config : PumpConfig F) (since : F) (latest_at : Option F) (r : Round F)
      (last_health : F) (p : Pump F)
      → Each P since latest_at r.now
      → IsQuiet latest_at p.link
      → P (after_probe config since r [] last_health p)
  unfolding after_probe publish
  after_probe-each P config since latest_at r last_health p (over, on) q =
      if-each P (not r.is_connected) _ _ (λ _. over link_dropped _ (λ e. absurd (cc e)))
        (λ _.
          if-each P (is_silent since p.link r.now) _ _ (λ _. over no_packets _ (λ e. absurd (cc e)))
            (λ loud.
              if-each P (at_least (f.sub r.now p.last_publish) config.heartbeat) _ _
                (λ _.
                  on (publish p.link) last_health r.now
                    (record { no_gap = q.no_gap; no_item = q.no_item; packet = q.packet }) loud)
                (λ _. on p.link last_health p.last_publish q loud)))

  after_consume-each :
      (P : Turn F → Type 0) (config : PumpConfig F) (since : F) (latest_at : Option F) (r : Round F)
      (p : Pump F)
      → Each P since latest_at r.now
      → IsQuiet latest_at p.link
      → P (after_consume config since r [] p)
  unfolding after_consume
  after_consume-each P config since latest_at r p each q =
      if-each P (not (at_least (f.sub r.now p.last_health) config.obd_interval)) _ _
        (λ _. after_probe-each P config since latest_at r p.last_health p each q)
        (λ _.
          if-each P r.obd_healthy _ _
            (λ _. after_probe-each P config since latest_at r r.now p each q)
            (λ _. each.0 obd_blocked _ (λ e. absurd (cc e))))

  turn-Each :
      (P : Turn F → Type 0) (config : PumpConfig F) (since : F) (latest_at : Option F) (r : Round F)
      (p : Pump F)
      → Each P since latest_at r.now
      → r.arrivals ≡ []
      → IsQuiet latest_at p.link
      → (t : Turn F) × (turn config since r p ≡ some t) × P t
  unfolding turn arrive dispatch
  turn-Each P config since latest_at r p each none_arrived q =
      let Turns : Option (Turn F) → Type 0 = λ o. (t : Turn F) × (o ≡ some t) × P t in
      let same : arrive r.arrivals p.link ≡ p.link = ap (λ a. arrive a p.link) none_arrived in
      let l0 : Link F = arrive r.arrivals p.link in
      let q0 : IsQuiet latest_at l0 = subst (IsQuiet latest_at) (sym same) q in
      let l : Link F = dispatch [] l0 in
      let quiet : IsQuiet latest_at l = record {
        no_gap = q0.no_gap;
        no_item = q0.no_item;
        packet = q0.packet;
      } in
      let idle = consume-quiet r.clock l0.session q0.no_gap q0.no_item in
      if-each Turns r.stop_at_head _ _
        (λ _. (ended stopped p.link, refl, each.0 stopped p.link (λ e. absurd (cc e))))
        (λ _.
          if-each Turns (is_due config.heartbeat config.deadline r.head) _ _
            (λ _. (
              ended deadline_reached p.link,
              refl,
              each.0 deadline_reached p.link (λ e. absurd (cc e)),
            ))
            (λ _.
              if-each Turns r.stop_after_wait _ _
                (λ _. (_, refl, each.0 stopped _ (λ e. absurd (cc e))))
                (λ _. (
                  after_consume config since r [] (record p { link = l }),
                  rw idle refl,
                  after_consume-each P config since latest_at r (record p { link = l }) each quiet,
                ))))

  -- a quiet link to go on with, or an end that is no cancellation; and only the latter
  abbrev Calm : Option F → Turn F → Type 0
  Calm latest_at (next p) = IsQuiet latest_at p.link
  Calm latest_at (ended ending l) = ending ≢ cancelled

  abbrev Over : Turn F → Type 0
  Over (next p) = ⊥
  Over (ended ending l) = ending ≢ cancelled

  -- the clock of a round says that the silence is too long
  abbrev pub IsSilence : F → Option F → Round F → Type 0
  IsSilence since latest_at r =
      f.lt silence_timeout (f.sub r.now (max_float since (or_zero latest_at))) ≡ true

  abbrev pub Ends : Option (Ending × Link F) → Type 0
  Ends o = (ending : Ending) × (l : Link F) × (o ≡ some (ending, l)) × (ending ≢ cancelled)

  Over-Ends :
      (rest : Pump F → Option (Ending × Link F)) (o : Option (Turn F))
      → (t : Turn F) × (o ≡ some t) × Over t
      → Ends (by_turn rest o)
  Over-Ends rest o (next p, e, bad) = absurd bad
  Over-Ends rest o (ended ending l, e, h) = (ending, l, rw e refl, h)

  Calm-Ends :
      (latest_at : Option F) (rest : Pump F → Option (Ending × Link F)) (o : Option (Turn F))
      → (t : Turn F) × (o ≡ some t) × Calm latest_at t
      → ((p : Pump F) → IsQuiet latest_at p.link → Ends (rest p))
      → Ends (by_turn rest o)
  Calm-Ends latest_at rest o (next p, e, q) h = rw e (h p q)
  Calm-Ends latest_at rest o (ended ending l, e, k) h = (ending, l, rw e refl, k)

  -- Where nothing is queued and nothing arrives: the streaming loop ends by itself, before its
  -- rounds are over, if in one of them more than the silence timeout has passed since the later of
  -- the start of the streaming and the last packet.
  pub pump-Ends :
      (config : PumpConfig F) (since : F) (latest_at : Option F) (rounds : List (Round F))
      (p : Pump F)
      → IsQuiet latest_at p.link
      → All (λ r. r.arrivals ≡ []) rounds
      → Any (IsSilence since latest_at) rounds
      → Ends (pump config since rounds p)
  unfolding pump
  pump-Ends config since latest_at [] p q still long = absurd long
  pump-Ends config since latest_at (r ∷ rounds) p q still (inl now) =
      Over-Ends (λ p'. pump config since rounds p') (turn config since r p)
        (turn-Each Over config since latest_at r p
          (
            λ ending l e. e,
            λ l last_health last_publish q' loud. absurd (
                cc (
                  sym now
                  ∙ ap (λ o. f.lt silence_timeout (f.sub r.now (max_float since (or_zero o))))
                      (sym q'.packet)
                  ∙ loud)),
          )
          still.0 q)
  pump-Ends config since latest_at (r ∷ rounds) p q still (inr later) =
      Calm-Ends latest_at (λ p'. pump config since rounds p') (turn config since r p)
        (turn-Each (Calm latest_at) config since latest_at r p
          (λ ending l e. e, λ l last_health last_publish q' loud. q') still.0 q)
        (λ p' q'. pump-Ends config since latest_at rounds p' q' still.1 later)
