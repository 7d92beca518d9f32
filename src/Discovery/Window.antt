-- ===== src/Discovery/Window.antt =====
-- The scan window of src/uniden_r8/discovery.py is within its limits.
use unidenr8_bluetooth.Prelude.{◌≡◌, false, Option, none, some, arith}
use unidenr8_bluetooth.Runtime.Float.{Float, IsOrdered, max_float, min_float}
use unidenr8_bluetooth.Discovery.{
  min_scan_seconds, max_scan_seconds, default_scan_seconds, bounded_seconds,
}

module _ {F : Type 0} ⦃f : Float F⦄ (o : IsOrdered F) where
  -- With `<` a strict weak order on floats under which 3, 20 and 60 are in their order: whatever
  -- was asked for, the scan lasts for no less than 3 seconds and for no more than 60.
  pub bounded_seconds-bounded :
      (seconds : Option F)
      → f.lt default_scan_seconds min_scan_seconds ≡ false
      → f.lt max_scan_seconds default_scan_seconds ≡ false
      → (f.lt (bounded_seconds seconds) min_scan_seconds ≡ false)
        × (f.lt max_scan_seconds (bounded_seconds seconds) ≡ false)
  unfolding bounded_seconds max_float min_float
  bounded_seconds-bounded none low high = (low, high)
  bounded_seconds-bounded (some a) low high = ground (
    arith,
    o.irreflexive min_scan_seconds,
    o.irreflexive max_scan_seconds,
    o.negatively_transitive max_scan_seconds default_scan_seconds min_scan_seconds high low,
    o.transitive min_scan_seconds a min_scan_seconds,
    o.transitive min_scan_seconds max_scan_seconds min_scan_seconds,
    o.transitive max_scan_seconds a max_scan_seconds,
  )
