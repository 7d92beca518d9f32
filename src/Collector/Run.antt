-- ===== src/Collector/Run.antt =====
-- `_Session.run` of src/uniden_r8/collector.py: the check of the device, the first reads and the
-- subscriptions, the streaming loop, and the teardown behind them.
use unidenr8_bluetooth.Prelude.{
  ℕ, Option, none, some, List, [], ◌∷◌, String, ◌==◌, if◌then◌else◌, length, false, true,
}
use unidenr8_bluetooth.Runtime.Float.{Float}
use unidenr8_bluetooth.Runtime.Text.{Text}
use unidenr8_bluetooth.Runtime.Unicode.{Unicode}
use unidenr8_bluetooth.Telemetry.Compatibility.{check_compatibility}
use unidenr8_bluetooth.Collector.Link.{
  Link, Device, set_note, publish, reads, subscriptions, consume_dispatch, teardown,
}
use unidenr8_bluetooth.Collector.Pump.{PumpConfig, Round, Ending, pump, zero_float}

-- `f"{len(missing)} required attribute(s) absent"`, of one to three attributes
abbrev pub absent_note : ℕ → String
absent_note n =
    if n == 1
    then "1 required attribute(s) absent"
    else if n == 2
    then "2 required attribute(s) absent"
    else "3 required attribute(s) absent"

module _ {F : Type 0} ⦃f : Float F⦄ ⦃u : Unicode⦄ where
  abbrev pub finally_of : Device F → List Text → Option (Ending × Link F) → Option (Link F)
  finally_of d subscribed none = none
  finally_of d subscribed (some (ending, l)) = teardown d subscribed l

  -- the `try` block and its `finally`
  unfoldable pub streaming :
      PumpConfig F → Device F → F → List (Round F) → Option (List Text × Link F) → Option (Link F)
  streaming config d since rounds none = none
  streaming config d since rounds (some ([], l)) =
      teardown d [] (publish (record l { status = "degraded" }))
  streaming config d since rounds (some (permitted ∷ subscribed, l)) =
      finally_of d (permitted ∷ subscribed) (
        pump config since rounds (record {
          link = publish (record l { status = "streaming" });
          last_health = since;
          last_publish = zero_float;
        }))

  unfoldable pub after_first :
      PumpConfig F → Device F → F → List (Round F) → Option (Link F) → Option (Link F)
  after_first config d since rounds none = none
  after_first config d since rounds (some l) = streaming config d since rounds (subscriptions d l)

  unfoldable pub after_reads :
      PumpConfig F → Device F → F → List (Round F) → Option (Link F) → Option (Link F)
  unfolding after_first
  after_reads config d since rounds none = none
  after_reads config d since rounds (some l) =
      after_first config d since rounds (consume_dispatch d.first_clock l)

  unfoldable pub by_missing :
      PumpConfig F → Device F → F → List (Round F) → Link F → List Text → Option (Link F)
  unfolding after_reads
  by_missing config d since rounds l [] =
      after_reads config d since rounds (reads d (record l { compatible = true }))
  by_missing config d since rounds l (uuid ∷ missing) = some (
      publish (
        set_note (absent_note (length (uuid ∷ missing)))
          (record l { compatible = false; status = "incompatible" })))

  -- `run`, once the client is connected
  unfoldable pub run : PumpConfig F → Device F → F → List (Round F) → Link F → Option (Link F)
  unfolding by_missing
  run config d since rounds l =
      by_missing config d since rounds (set_note "" (record l { connected = true }))
        (check_compatibility d.services)
