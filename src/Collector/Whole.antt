-- ===== src/Collector/Whole.antt =====
-- The whole of `_Session.run` of src/uniden_r8/collector.py, on a new session.
use unidenr8_bluetooth.Prelude.{
  ℕ, ◌≡◌, refl, Option, some, true, false, ◌⊎◌, ◌≢◌, inl, inr, List, [], ◌∷◌, ap, sym, arith,
}
use unidenr8_bluetooth.Runtime.Float.{Float, IsOrdered}
use unidenr8_bluetooth.Runtime.Text.{Text}
use unidenr8_bluetooth.Runtime.Unicode.{Unicode}
use unidenr8_bluetooth.Telemetry.Compatibility.{check_compatibility}
use unidenr8_bluetooth.Gatt.Passed.{KeepsMarks}
use unidenr8_bluetooth.Events.Tracker.Ledger.{Ledger}
use unidenr8_bluetooth.Collector.{Session, CollectorState, HistoryCall, new_session}
use unidenr8_bluetooth.Collector.Accounts.{new_session-IsFresh}
use unidenr8_bluetooth.Collector.Counts.{handled}
use unidenr8_bluetooth.Collector.Link.{Link, Device, set_note, publish}
use unidenr8_bluetooth.Collector.Pump.{PumpConfig, Round}
use unidenr8_bluetooth.Collector.Run.{by_missing, run}
use unidenr8_bluetooth.Collector.Held.{Runs}
use unidenr8_bluetooth.Collector.Finished.{IsFinished, started-Finishes}

abbrev pub new_ledger : Ledger
new_ledger = record { open_ids = []; next_id = 1 }

module _ {F : Type 0} ⦃f : Float F⦄ ⦃u : Unicode⦄ where
  -- the link of a session that was just made
  abbrev pub fresh_link : Session F → Link F
  fresh_link s = record {
    session = s;
    connected = false;
    compatible = false;
    status = "connecting";
    open_tracks = [];
    dispatched = [];
    accesses = [];
  }

  -- connected, with no note
  abbrev connected_link : Session F → Link F
  connected_link s = set_note "" (record (fresh_link s) { connected = true })

  -- what `run` leaves of it: a finished session of a compatible device, or a device that was refused
  -- and not touched
  abbrev pub Left : List Text → Link F → Type 0
  Left missing l =
      ((missing ≡ []) × IsFinished new_ledger l)
      ⊎ ((missing ≢ [])
          × (l.compatible ≡ false)
          × (l.status ≡ "incompatible")
          × (l.accesses ≡ [])
          × (l.dispatched ≡ []))

  -- `run` on a session, by what is missing
  by_missing-Left :
      IsOrdered F
      → KeepsMarks
      → (s : Session F) (config : PumpConfig F) (d : Device F) (since : F) (rounds : List (Round F))
        (missing : List Text)
      → Runs
          (handled s)
          s.state.lost_notifications
          new_ledger
          (record (connected_link s) { compatible = true })
      → (l : Link F) × (by_missing config d since rounds (connected_link s) missing ≡ some l)
        × Left missing l
  unfolding by_missing publish
  by_missing-Left o k s config d since rounds [] r =
      let (l, e, h) =
        started-Finishes (handled s) s.state.lost_notifications new_ledger o k config d since rounds
          (record (connected_link s) { compatible = true }) r in
      (l, e, inl (refl, h))
  by_missing-Left o k s config d since rounds (uuid ∷ missing) r =
      (_, refl, inr ((λ e. absurd (cc e)), refl, refl, refl, refl))

  -- With `<` a strict weak order on floats and a lower-casing that keeps canonical UUIDs: whatever
  -- the device answers and whatever happens in the rounds, run on a new session raises nothing of
  -- its own. Either the device lacks a required attribute, and is not touched; or, at the end, no
  -- alert and no open track is shown, the queue and the tracker are empty, the events that the
  -- sinks were sent end every track that they started, and every call of the client was a read or
  -- a subscription of the telemetry or alert characteristic.
  pub run-Left :
      IsOrdered F
      → KeepsMarks
      → (queue_size : ℕ) (state : CollectorState F) (every at : F)
        (history : Option (List (HistoryCall F))) {s : Session F}
      → new_session queue_size state every at history ≡ some s
      → (config : PumpConfig F) (d : Device F) (since : F) (rounds : List (Round F))
      → (l : Link F) × (run config d since rounds (fresh_link s) ≡ some l)
        × Left (check_compatibility d.services) l
  unfolding run
  run-Left o k queue_size state every at history {s} made config d since rounds =
      let n = new_session-IsFresh queue_size state every at history made in
      by_missing-Left o k s config d since rounds (check_compatibility d.services) (record {
        steady = record {
          dealt = 0;
          missed = 0;
          counted = omega arith;
          lost_counted = omega arith;
          follows = n.follows;
          tracker = n.tracker;
        };
        told = ap some (sym n.no_track);
        allowed = tt;
      })
