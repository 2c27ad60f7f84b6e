-- ===== src/Buffer/Dedupe.antt =====
-- The test for near duplicates.
use plexplore.Prelude.{ℕ, ◌+◌, ◌≤◌, ◌<◌, ◌≡◌, String, Bool, some, arith, leb, ◌&&◌, not, string_eq}
use plexplore.Prelude.Dict
use plexplore.Prelude.Dict.{Dict}
use plexplore.Prelude.Int.{pos}
use plexplore.GoTime.{is_zero, max_duration, magnitude-sub_time, magnitude_saturated}
use plexplore.Float64.{Float64, FloatOps}
use plexplore.Ingest.Models.{SpoolRecord}
use plexplore.Buffer.{DedupeState, is_near_duplicate, haversine_meters}

module _ (fl : FloatOps) (r : SpoolRecord) (states : Dict String DedupeState) (prev : DedupeState)
    (delta : ℕ) (distance : Float64) (seen : Dict.lookup r.device_id states ≡ some prev) where
  abbrev is_close : Bool
  is_close = fl.le (haversine_meters fl prev.lat prev.lon r.point.lat r.point.lon) distance

  -- A device has a last kept point, and the record's time is at most 292 years before or after
  -- that point's. Then the record is a near duplicate exactly when both have a time, that is, one
  -- that is not the zero time, and both its time and its place are within the thresholds.
  pub near_duplicate_exact :
      r.point.timestamp_utc ≤ prev.timestamp_utc + max_duration
      → prev.timestamp_utc ≤ r.point.timestamp_utc + max_duration
      → is_near_duplicate fl r states (pos delta) distance ≡ (
          (not (is_zero r.point.timestamp_utc) && not (is_zero prev.timestamp_utc))
          && ((leb r.point.timestamp_utc (prev.timestamp_utc + delta)
                && leb prev.timestamp_utc (r.point.timestamp_utc + delta))
              && is_close))
  unfolding is_near_duplicate
  near_duplicate_exact h k =
      rw (seen, is_near_duplicate)
        (ground (arith, magnitude-sub_time r.point.timestamp_utc prev.timestamp_utc h k))

  -- A device has a last kept point; it and the record both have a time.
  -- A point dated more than 292 years before the last kept one passes every time threshold: the
  -- least int64 is its own negation. It is taken for a near duplicate by its place alone.
  pub near_duplicate_wraps :
      0 < r.point.timestamp_utc
      → 0 < prev.timestamp_utc
      → r.point.timestamp_utc + max_duration < prev.timestamp_utc
      → is_near_duplicate fl r states (pos delta) distance ≡ is_close
  unfolding is_near_duplicate
  near_duplicate_wraps dated prev_dated h =
      rw (seen, is_near_duplicate)
        (ground (arith, magnitude_saturated r.point.timestamp_utc prev.timestamp_utc h))
