-- ===== src/VisitScheduler.antt =====
-- internal/tasks/visit_scheduler.go, over the store of `VisitStore`. A run is a function of the
-- store, whose calls may fail, and of the clock's readings at its start, at its finish and at the
-- status of the watermarks. `Start`, `Stop` and the ticker only call `runOnce` again and again.
--
-- `ts.Add(-lookback)` stops at Go's zero time here. `seconds` is the conversion of a duration to
-- whole seconds by way of float64, a parameter.
pub mod Processing
pub mod Progress
pub mod Runs
pub mod RoundRobin
pub mod Devices
use plexplore.Prelude.{
  ℕ, zero, suc, ◌+◌, ◌*◌, ◌-◌, ◌%◌, String, Bool, true, false, Option, none, some, List, [], ◌∷◌,
  ◌++◌, Outcome, ok, err, length, ltb, leb, ◌==◌, ◌&&◌, ◌||◌, not, if◌then◌else◌, keep,
}
use plexplore.Prelude.Int.{ℤ, pos, leb_ℤ, ltb_ℤ, pos_part}
use plexplore.Prelude.Actions.{Action, pure, raise, gets, continue, ◌>>=◌, ◌>>◌}
use plexplore.Prelude.Sorting.{sort_by}
use plexplore.GoTime.{Time, Duration, is_zero, sub_time, second}
use plexplore.Float64.{Float64, FloatOps}
use plexplore.Ingest.Models.{Bytes}
use plexplore.Store.{Device, has_id}
use plexplore.Visits.{Config}
use plexplore.VisitStore.{
  Sql, SqlError, VisitDb, driver_call, rebuild_visits_for_device_range, get_visit_generation_state,
  upsert_visit_generation_state, get_max_point_seq_for_device, get_point_timestamp_for_device_seq,
}

pub record VisitSchedulerConfig : Type 0 where
  pub enabled : Bool
  pub interval : Duration
  pub device_batch_size : ℕ
  pub lookback : Duration
  pub detect_config : Config

pub record VisitSchedulerRunResult : Type 0 where
  pub processed_devices : ℕ
  pub skipped_devices : ℕ
  pub updated_devices : ℕ
  pub created_visits : ℕ
  pub errors : ℕ

pub record VisitSchedulerStatus : Type 0 where
  pub enabled : Bool
  pub running : Bool
  pub last_run_start_utc : Time
  pub last_run_finish_utc : Time
  pub last_success_utc : Time
  pub last_error : Option SqlError
  pub last_run : VisitSchedulerRunResult
  pub watermark_devices : ℕ
  pub watermark_min_seq : ℕ
  pub watermark_max_seq : ℕ
  pub watermark_last_utc : Time
  pub lag_seconds : ℤ

pub record VisitScheduler : Type 0 where
  pub cfg : VisitSchedulerConfig
  pub running : Bool
  pub round_robin_start : ℕ
  pub status : VisitSchedulerStatus

abbrev pub no_devices : VisitSchedulerRunResult
no_devices = record {
  processed_devices = 0;
  skipped_devices = 0;
  updated_devices = 0;
  created_visits = 0;
  errors = 0;
}

abbrev minutes : ℕ → Duration
minutes n = pos (n * (60 * second))

abbrev positive_or : Duration → Duration → Duration
positive_or default d = if leb_ℤ d (pos 0) then default else d

-- `NewVisitScheduler`
unfoldable pub new_visit_scheduler :
    FloatOps → Bool → Duration → ℤ → Duration → Config → VisitScheduler
new_visit_scheduler fl enabled interval batch lookback detect = record {
  cfg = record {
    enabled = enabled;
    interval = positive_or (minutes 15) interval;
    device_batch_size = if leb_ℤ batch (pos 0) then 10 else pos_part batch;
    lookback = positive_or (minutes 120) lookback;
    detect_config = record {
      min_dwell = positive_or (minutes 15) detect.min_dwell;
      max_radius_meters =
          if fl.le detect.max_radius_meters (fl.of_ℕ 0)
          then fl.of_ℕ 35
          else detect.max_radius_meters;
    };
  };
  running = false;
  round_robin_start = 0;
  status = record {
    enabled = enabled;
    running = false;
    last_run_start_utc = 0;
    last_run_finish_utc = 0;
    last_success_utc = 0;
    last_error = none;
    last_run = no_devices;
    watermark_devices = 0;
    watermark_min_seq = 0;
    watermark_max_seq = 0;
    watermark_last_utc = 0;
    lag_seconds = pos 0;
  };
}

-- `Status`
unfoldable pub status_of : VisitScheduler → VisitSchedulerStatus
status_of s = record (s.status) { running = s.running; enabled = s.cfg.enabled }

unfoldable pub unique_devices : List ℕ → List Device → List Device
unfolding has_id
unique_devices seen [] = []
unique_devices seen (d ∷ ds) =
    let skip = unique_devices seen ds in
    let take = d ∷ unique_devices (d.id ∷ seen) ds in
    if d.id == 0 then skip else if has_id d.id seen then skip else take

-- `sortedUniqueDevicesByID`; no two ids are equal when the list is sorted, so the comparison of the
-- names never runs.
unfoldable pub sorted_unique_devices_by_id : List Device → List Device
sorted_unique_devices_by_id devices = sort_by (λ d e. leb d.id e.id) (unique_devices [] devices)

-- `devices[i]`
unfoldable pub device_at : ℕ → List Device → Option Device
device_at i [] = none
device_at zero (d ∷ ds) = some d
device_at (suc i) (d ∷ ds) = device_at i ds

-- `append(batch, devices[i])`
unfoldable pub append_at : ℕ → List Device → List Device → List Device
append_at i devices batch = elim (device_at i devices) [ none ↦ batch | some d ↦ batch ++ d ∷ [] ]

-- The first `n` rounds of the loop of `selectDeviceBatch`.
unfoldable pub select_loop : ℕ → ℕ → List Device → List Device
select_loop start zero devices = []
select_loop start (suc n) devices =
    append_at ((start + n) % length devices) devices (select_loop start n devices)

-- `selectDeviceBatch`
unfoldable pub select_device_batch : VisitScheduler → List Device → List Device × VisitScheduler
select_device_batch s devices =
    if leb (length devices) s.cfg.device_batch_size then (devices, s) else (
      select_loop (s.round_robin_start % length devices) s.cfg.device_batch_size devices,
      record s {
        round_robin_start =
            (s.round_robin_start % length devices + s.cfg.device_batch_size) % length devices;
      },
    )

-- What `processDevice` returns beside its error.
pub record Processed : Type 0 where
  pub created : ℕ
  pub updated : Bool
  pub skipped : Bool

abbrev pub skipped_device : Processed
skipped_device = record { created = 0; updated = false; skipped = true }

-- `setRunStart` and `setRunFinish`
unfoldable pub set_run_start : Time → VisitScheduler → VisitScheduler
set_run_start at s = record s {
  status = record (s.status) { enabled = s.cfg.enabled; last_run_start_utc = at; running = true };
}

unfoldable pub set_run_finish :
    Time → VisitSchedulerRunResult → Option SqlError → VisitScheduler → VisitScheduler
set_run_finish at result (some e) s = record s {
  status = record (s.status) {
    enabled = s.cfg.enabled;
    running = false;
    last_run_finish_utc = at;
    last_run = result;
    last_error = some e;
  };
}
set_run_finish at result none s = record s {
  status = record (s.status) {
    enabled = s.cfg.enabled;
    running = false;
    last_run_finish_utc = at;
    last_run = result;
    last_success_utc = at;
    last_error = none;
  };
}
