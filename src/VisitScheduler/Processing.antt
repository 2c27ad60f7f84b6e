-- ===== src/VisitScheduler/Processing.antt =====
-- `processDevice`, `updateWatermarkStatus` and `runOnce`.
use plexplore.Prelude.{
  ℕ, ◌+◌, ◌-◌, Bool, true, false, Option, none, some, List, [], ◌∷◌, Outcome, ok, err, ltb, leb,
  ◌==◌, if◌then◌else◌,
}
use mathlib.Core.Option
use plexplore.Prelude.Int.{ℤ, pos, ltb_ℤ, pos_part}
use plexplore.Prelude.Actions.{pure, ◌>>=◌, ◌>>◌}
use plexplore.GoTime.{Time, Duration, is_zero, sub_time}
use plexplore.Float64.{FloatOps}
use plexplore.Ingest.Models.{Bytes}
use plexplore.Store.{Device}
use plexplore.VisitStore.{
  Sql, SqlError, VisitDb, rebuild_visits_for_device_range, get_visit_generation_state,
  upsert_visit_generation_state, get_max_point_seq_for_device, get_point_timestamp_for_device_seq,
  list_devices,
}
use plexplore.VisitScheduler.{
  VisitScheduler, VisitSchedulerConfig, VisitSchedulerRunResult, no_devices, Processed,
  skipped_device, sorted_unique_devices_by_id, select_device_batch, set_run_start, set_run_finish,
}

-- The start of the range to rebuild: the time of the last processed point, less the lookback.
unfoldable pub range_start : VisitSchedulerConfig → ℕ → Option ℕ → Sql (Option Time)
range_start cfg id none = pure none
range_start cfg id (some last) = do
  found ← get_point_timestamp_for_device_seq id last
  pure (Option.map (λ ts. ts - pos_part cfg.lookback) found)

-- `ok && maxSeq <= state.LastProcessedSeq`
unfoldable pub is_processed : ℕ → Option ℕ → Bool
is_processed top none = false
is_processed top (some last) = leb top last

-- What the watermarks of a batch come to.
pub record Watermarks : Type 0 where
  pub devices : ℕ
  pub min_seq : ℕ
  pub max_seq : ℕ
  pub max_timestamp : Time

unfoldable pub add_watermark : ℕ → Watermarks → Watermarks
add_watermark last w = record w {
  devices = w.devices + 1;
  min_seq = if w.min_seq == 0 then last else if ltb last w.min_seq then last else w.min_seq;
  max_seq = if ltb w.max_seq last then last else w.max_seq;
}

-- `if ts.After(maxTimestamp)`, where the timestamp was found
unfoldable pub add_timestamp : Outcome SqlError (Option Time) → Watermarks → Watermarks
add_timestamp (ok (some ts)) w =
    if ltb w.max_timestamp ts then record w { max_timestamp = ts } else w
add_timestamp (ok none) w = w
add_timestamp (err e) w = w

unfoldable pub watermark_of_device :
    ℕ → Outcome SqlError (Option ℕ) → Watermarks → VisitDb → Watermarks × VisitDb
watermark_of_device id (ok (some last)) w s =
    let (found, s') = get_point_timestamp_for_device_seq id last s in
    if last == 0 then (w, s) else (add_timestamp found (add_watermark last w), s')
watermark_of_device id (ok none) w s = (w, s)
watermark_of_device id (err e) w s = (w, s)

unfoldable pub watermarks : List Device → Watermarks → VisitDb → Watermarks × VisitDb
watermarks [] w s = (w, s)
watermarks (d ∷ ds) w s =
    let (state, s') = get_visit_generation_state d.id s in
    let (w', s'') = watermark_of_device d.id state w s' in watermarks ds w' s''

-- The status after `updateWatermarkStatus`
unfoldable pub set_watermarks : (Duration → ℤ) → Time → Watermarks → VisitScheduler → VisitScheduler
set_watermarks seconds now w s =
    let lag = seconds (sub_time now w.max_timestamp) in
    record s {
      status = record (s.status) {
        watermark_devices = w.devices;
        watermark_min_seq = w.min_seq;
        watermark_max_seq = w.max_seq;
        watermark_last_utc = w.max_timestamp;
        lag_seconds =
            if is_zero w.max_timestamp then pos 0 else if ltb_ℤ lag (pos 0) then pos 0 else lag;
      };
    }

-- A round of the loop of `runOnce`, on its counts.
unfoldable pub count_device :
    Outcome SqlError Processed → VisitSchedulerRunResult → VisitSchedulerRunResult
count_device (err e) r = record r {
  processed_devices = r.processed_devices + 1;
  errors = r.errors + 1;
}
count_device (ok p) r =
    if p.skipped
    then record r {
      processed_devices = r.processed_devices + 1;
      skipped_devices = r.skipped_devices + 1;
    }
    else record r {
      processed_devices = r.processed_devices + 1;
      updated_devices = if p.updated then r.updated_devices + 1 else r.updated_devices;
      created_visits = r.created_visits + p.created;
    }

module _ (text : Time → Bytes) (fl : FloatOps) where
  -- The rest of `processDevice`, for a device that has points up to `top`.
  unfoldable pub rebuild_device : VisitSchedulerConfig → ℕ → ℕ → Sql Processed
  rebuild_device cfg id top = do
    last ← get_visit_generation_state id
    if is_processed top last then pure skipped_device else do
      from ← range_start cfg id last
      created ← rebuild_visits_for_device_range text fl id from none cfg.detect_config
      upsert_visit_generation_state id top
      pure (record { created = created; updated = true; skipped = false })

  -- `processDevice`
  unfoldable pub process_device : VisitSchedulerConfig → ℕ → Sql Processed
  process_device cfg id = if id == 0 then pure skipped_device else do
    top ← get_max_point_seq_for_device id
    elim top [ none ↦ pure skipped_device | some n ↦ rebuild_device cfg id n ]

  -- The loop of `runOnce`.
  unfoldable pub process_devices :
      VisitSchedulerConfig
      → List Device
      → VisitSchedulerRunResult
      → VisitDb
      → VisitSchedulerRunResult × VisitDb
  process_devices cfg [] r s = (r, s)
  process_devices cfg (d ∷ ds) r s =
      let (processed, s') = process_device cfg d.id s in
      process_devices cfg ds (count_device processed r) s'

module _ (text : Time → Bytes) (fl : FloatOps) (seconds : Duration → ℤ) where
  -- `runOnce` once the batch is chosen.
  run_batch :
      Time
      → Time
      → List Device
      → VisitScheduler
      → VisitDb
      → Outcome SqlError VisitSchedulerRunResult × VisitScheduler × VisitDb
  run_batch finished now [] s db = (ok no_devices, set_run_finish finished no_devices none s, db)
  run_batch finished now (d ∷ ds) s db =
      let (result, db') = process_devices text fl s.cfg (d ∷ ds) no_devices db in
      let (w, db'') =
        watermarks (d ∷ ds) (record { devices = 0; min_seq = 0; max_seq = 0; max_timestamp = 0 })
          db' in
      (ok result, set_watermarks seconds now w (set_run_finish finished result none s), db'')

  run_listed :
      Time
      → Time
      → Outcome SqlError (List Device)
      → VisitScheduler
      → VisitDb
      → Outcome SqlError VisitSchedulerRunResult × VisitScheduler × VisitDb
  run_listed finished now (err e) s db = (err e, set_run_finish finished no_devices (some e) s, db)
  run_listed finished now (ok devices) s db =
      let (batch, s') = select_device_batch s (sorted_unique_devices_by_id devices) in
      run_batch finished now batch s' db

  -- `runOnce`, with the clock at the start, at the finish and at the status of the watermarks. The
  -- flag `running` is set during the call; a call that finds it set does nothing.
  unfoldable pub run_once :
      Time
      → Time
      → Time
      → VisitScheduler
      → VisitDb
      → Outcome SqlError VisitSchedulerRunResult × VisitScheduler × VisitDb
  unfolding run_listed run_batch
  run_once started finished now s db =
      if s.running
      then (ok no_devices, s, db)
      else let s1 = set_run_start started s in
        let (devices, db1) = list_devices db in run_listed finished now devices s1 db1
