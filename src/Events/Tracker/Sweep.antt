-- ===== src/Events/Tracker/Sweep.antt =====
-- The end pass of `observe` and `close`: the tracks that stay open, and the events of the others.
use mathlib.Core.List.{append_assoc}
use unidenr8_bluetooth.Prelude.{
  ℕ, ◌+◌, ◌≤◌, ◌<◌, ◌≡◌, refl, true, inl, inr, some, List, [], ◌∷◌, ◌++◌, arith, All, All-append,
  Bool-cases, has, ltb, sym, String,
}
use unidenr8_bluetooth.Runtime.Float.{Float}
use unidenr8_bluetooth.Runtime.Unicode.{Unicode}
use unidenr8_bluetooth.Events.Track.{AlertTrack}
use unidenr8_bluetooth.Events.Tracker.{AlertEvent, sweep, end_event, close_all}
use unidenr8_bluetooth.Events.Tracker.Valid.{ids, Rising, Rising-below, IsSound}
use unidenr8_bluetooth.Events.Tracker.Ledger.{Ledger, replay, without}

has-middle : (n : ℕ) (before after : List ℕ) → has (before ++ (n ∷ after)) n ≡ true
has-middle n [] after = ground arith
has-middle n (x ∷ before) after = ground (arith, has-middle n before after)

without-middle :
    (n : ℕ) (before after : List ℕ)
    → All (λ x. x < n) before
    → without n (before ++ (n ∷ after)) ≡ before ++ after
without-middle n [] after h = ground arith
without-middle n (x ∷ before) after h = ground (arith, without-middle n before after h.1, h.0)

All-below : (n m : ℕ) (xs : List ℕ) → n ≤ m → All (λ x. x < n) xs → All (λ x. x < m) xs
All-below n m [] h k = tt
All-below n m (x ∷ xs) h k = (omega arith, All-below n m xs h k.1)

module _ {F : Type 0} ⦃f : Float F⦄ where
  -- an end event of an open number
  enter_end :
      (t : AlertTrack F) (before : List ℕ) (ts : List (AlertTrack F)) (next : ℕ)
      (es : List (AlertEvent F)) (m : Ledger) (seq wall : ℕ) (reason : String)
      → All (λ x. x < t.track_id) before
      → replay es (record { open_ids = before ++ ids ts; next_id = next }) ≡ some m
      → replay
          (end_event t seq wall reason ∷ es)
          (record { open_ids = before ++ ids (t ∷ ts); next_id = next })
        ≡ some m
  unfolding end_event
  enter_end t before ts next es m seq wall reason h k =
      rw (has-middle t.track_id before (ids ts), without-middle t.track_id before (ids ts) h) k

-- The outcome `pass` of an end pass over the numbers `now`, with the numbers `before` in front.
pub record Swept {F : Type 0} ⦃u : Unicode⦄ (tolerance next low high : ℕ) (before now : List ℕ)
    (pass : List (AlertTrack F) × List (AlertEvent F)) : Type 0 where
  pub rising : Rising low pass.0 high
  pub sound : All (IsSound tolerance) pass.0
  pub replays :
      replay pass.1 (record { open_ids = before ++ now; next_id = next })
      ≡ some (record { open_ids = before ++ ids pass.0; next_id = next })

module _ {F : Type 0} ⦃f : Float F⦄ ⦃u : Unicode⦄ (tolerance : ℕ) (claimed : List ℕ)
    (seq wall next : ℕ) where
  -- a track that stays open
  kept-Swept :
      (low high : ℕ) (before now : List ℕ) (t : AlertTrack F)
      (pass : List (AlertTrack F) × List (AlertEvent F))
      → low ≤ t.track_id
      → IsSound tolerance t
      → Swept tolerance next (t.track_id + 1) high (before ++ (t.track_id ∷ [])) now pass
      → Swept tolerance next low high before (t.track_id ∷ now) (t ∷ pass.0, pass.1)
  kept-Swept low high before now t pass le s p = record {
    rising = (le, p.rising);
    sound = (s, p.sound);
    replays =
        rw
          (
            sym (append_assoc before (t.track_id ∷ []) now),
            sym (append_assoc before (t.track_id ∷ []) (ids pass.0)),
          )
          p.replays;
  }

  pub sweep-Swept :
      (low high : ℕ) (before : List ℕ) (ts : List (AlertTrack F))
      → All (λ x. x < low) before
      → Rising low ts high
      → All (IsSound tolerance) ts
      → Swept tolerance next low high before (ids ts) (sweep tolerance claimed seq wall ts)
  unfolding sweep
  sweep-Swept low high before [] h r s = record { rising = r; sound = tt; replays = refl }
  sweep-Swept low high before (t ∷ ts) h r s =
      let id = t.track_id in
      let older = All-below low id before r.0 h in
      let older' = All-below low (id + 1) before (omega arith) h in
      let pass = sweep tolerance claimed seq wall ts in
      let kept =
        sweep-Swept (id + 1) high (before ++ (id ∷ [])) ts
          (All-append (λ x. x < id + 1) before (id ∷ []) older' (omega arith, tt)) r.1 s.1 in
      let gone = sweep-Swept (id + 1) high before ts older' r.1 s.1 in
      let missed : AlertTrack F = record t { misses = t.misses + 1 } in
      elim (Bool-cases (has claimed id)) [
        | inl e ↦ rw e (kept-Swept low high before (ids ts) t pass r.0 s.0 kept)
        | inr e ↦ rw e (elim (Bool-cases (ltb tolerance (t.misses + 1))) [
          | inl out ↦ rw out (record {
            rising = Rising-below (id + 1) low high pass.0 (omega (arith, r.0)) gone.rising;
            sound = gone.sound;
            replays =
                enter_end missed before ts next pass.1 _ seq wall "timeout" older gone.replays;
          })
          | inr still ↦ rw still (
              kept-Swept low high before (ids ts) missed pass r.0
                (record { patient = ground arith; seen = s.0.seen; keyed = s.0.keyed }) kept)
        ])
      ]

  pub close_all-replay :
      (low high : ℕ) (ts : List (AlertTrack F)) (reason : String)
      → Rising low ts high
      → replay (close_all seq wall reason ts) (record { open_ids = ids ts; next_id = next })
        ≡ some (record { open_ids = []; next_id = next })
  unfolding close_all
  close_all-replay low high [] reason r = refl
  close_all-replay low high (t ∷ ts) reason r =
      enter_end t [] ts next (close_all seq wall reason ts) _ seq wall reason tt
        (close_all-replay (t.track_id + 1) high ts reason r.1)
