-- ===== src/Tests/Links.antt =====
-- Runs of a whole session with a device.
use unidenr8_bluetooth.Prelude.{ℕ, ◌+◌, ◌*◌, ◌≡◌, refl, true, false, none, some, [], ◌∷◌, inl, inr}
use unidenr8_bluetooth.Prelude.Int.{ℤ, pos}
use unidenr8_bluetooth.Runtime.Text.{codes, text_eq}
use unidenr8_bluetooth.Runtime.Unicode.{ascii}
use unidenr8_bluetooth.Gatt.Catalogue.{data_service_uuid, telemetry_uuid, alert_uuid}
use unidenr8_bluetooth.Telemetry.Compatibility.{check_compatibility}
use unidenr8_bluetooth.Collector.Link.{Link, Device}
use unidenr8_bluetooth.Collector.Pump.{PumpConfig, Round, pump}
use unidenr8_bluetooth.Collector.Silent.{Ends, pump-Ends}
use unidenr8_bluetooth.Runtime.Float.{max_float, min_float}
use unidenr8_bluetooth.Collector.Run.{run}
use unidenr8_bluetooth.Collector.Whole.{fresh_link, Left, run-Left}
use unidenr8_bluetooth.Collector.Backoff.{IsDelay, jittered, next_backoff, next_backoff-IsDelay}
use unidenr8_bluetooth.Tests.Fixed.{fixed, fixed-IsOrdered}
use unidenr8_bluetooth.Tests.Sessions.{start_state, start_session, made}
use unidenr8_bluetooth.Tests.Gates.{ascii-KeepsMarks}

-- it answers the reads, and takes the subscription of the alerts only
abbrev device : Device ℤ
device = record {
  services = (data_service_uuid, telemetry_uuid ∷ alert_uuid ∷ []) ∷ [];
  answer = λ uuid. some (codes "1,00,K,3,120,24.150,F,1", 5, 1005);
  subscribes = λ uuid. text_eq uuid alert_uuid;
  late = record { kind = "alert"; payload = codes "0"; monotonic_ns = 9; wall_ns = 1009 } ∷ [];
  first_clock = λ n. pos n;
  last_clock = λ n. pos (n + 1);
  closing_wall_ns = 1010;
}

abbrev config : PumpConfig ℤ
config = record { heartbeat = pos 15_000_000; obd_interval = pos 15_000_000; deadline = none }

-- an alert arrives, and the link drops
abbrev round : Round ℤ
round = record {
  stop_at_head = false;
  head = pos 1_000_000;
  arrivals =
      record {
        kind = "alert";
        payload = codes "1,00,K,4,120,24.150,F,1";
        monotonic_ns = 7;
        wall_ns = 1007;
      }
      ∷ [];
  stop_after_wait = false;
  now = pos 2_000_000;
  clock = λ n. pos 2_000_000;
  obd_healthy = true;
  is_connected = false;
}

run-Left_example :
    (l : Link ℤ) × (run config device (pos 1_000_000) (round ∷ []) (fresh_link start_session)
      ≡ some l)
    × Left (check_compatibility device.services) l
run-Left_example =
    run-Left fixed-IsOrdered ascii-KeepsMarks 3 start_state (pos 10_000_000) (pos 0) (some []) made
      config device (pos 1_000_000) (round ∷ [])

-- two rounds without a packet, the second after more than a minute
abbrev quiet_round : ℕ → Round ℤ
quiet_round seconds = record {
  stop_at_head = false;
  head = pos (seconds * 1_000_000);
  arrivals = [];
  stop_after_wait = false;
  now = pos (seconds * 1_000_000);
  clock = λ n. pos (seconds * 1_000_000);
  obd_healthy = true;
  is_connected = true;
}

pump-Ends_example : Ends (
    pump config (pos 1_000_000) (quiet_round 10 ∷ quiet_round 70 ∷ []) (record {
      link = fresh_link start_session;
      last_health = pos 1_000_000;
      last_publish = pos 0;
    }))
unfolding max_float
pump-Ends_example =
    pump-Ends config (pos 1_000_000) none (quiet_round 10 ∷ quiet_round 70 ∷ [])
      (record {
        link = fresh_link start_session;
        last_health = pos 1_000_000;
        last_publish = pos 0;
      })
      (record { no_gap = refl; no_item = refl; packet = refl }) (refl, (refl, tt)) (inr (inl refl))

-- half a draw of randomness, at the third attempt and behind the last power of two
third_attempt : next_backoff 3 (pos 500_000) ≡ some (pos 20_000_000)
unfolding next_backoff jittered max_float min_float
third_attempt = refl

too_many : next_backoff 1025 (pos 500_000) ≡ none
unfolding next_backoff
too_many = refl

next_backoff-IsDelay_example : IsDelay 3 (next_backoff 3 (pos 500_000))
next_backoff-IsDelay_example = next_backoff-IsDelay fixed-IsOrdered 3 (pos 500_000)
