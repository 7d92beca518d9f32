-- ===== src/Tests/Scans.antt =====
-- Runs of a scan report, with a detector, a neighbour's device and one without a name.
use unidenr8_bluetooth.Prelude.{
  ℕ, ◌≡◌, refl, false, Option, none, some, List, [], ◌∷◌, if◌then◌else◌,
}
use unidenr8_bluetooth.Prelude.Int.{pos, negsuc}
use unidenr8_bluetooth.Runtime.Text.{Text, codes, text_eq}
use unidenr8_bluetooth.Runtime.Unicode.{ascii}
use unidenr8_bluetooth.Discovery.{
  Advertisement, summarise, bounded_seconds, min_scan_seconds, max_scan_seconds,
}
use unidenr8_bluetooth.Discovery.Listed.{IsReport, summarise-IsReport}
use unidenr8_bluetooth.Discovery.Window.{bounded_seconds-bounded}
use unidenr8_bluetooth.Tests.Fixed.{fixed, fixed-IsOrdered}

-- the two digits that the example has
abbrev octet : Text → Option ℕ
octet s = if text_eq s (codes "E0") then some 224 else none

abbrev advertised : Text → Option Text → Advertisement
advertised address name = record {
  address = address;
  name = name;
  rssi = some (negsuc 60);
  service_uuids = [];
}

abbrev seen : List Advertisement
seen =
    advertised (codes "E0:00:00:00:00:01") none
    ∷ advertised (codes "10:00:00:00:00:02") (some (codes "Phone"))
    ∷ advertised (codes "10:00:00:00:00:03") (some (codes "R8W@1"))
    ∷ []

summarise-IsReport_example : IsReport octet (λ s. s) seen (summarise octet (λ s. s) seen false)
summarise-IsReport_example = summarise-IsReport octet (λ s. s) seen false

bounded_seconds-bounded_example :
    (fixed.lt (bounded_seconds (some (pos 90_000_000))) min_scan_seconds ≡ false)
    × (fixed.lt max_scan_seconds (bounded_seconds (some (pos 90_000_000))) ≡ false)
bounded_seconds-bounded_example =
    bounded_seconds-bounded fixed-IsOrdered (some (pos 90_000_000)) refl refl
