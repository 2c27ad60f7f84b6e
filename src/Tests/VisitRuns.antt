-- ===== src/Tests/VisitRuns.antt =====
-- The scheduler of the visits and its store, at three points of one device.
use plexplore.Prelude.{
  ℕ, ◌*◌, ◌<◌, ◌≡◌, refl, none, some, List, [], ◌∷◌, true, false, ok, arith, Memᴰ, length, All, ◌⊎◌,
  Bool,
}
use plexplore.Prelude.Int.{pos}
use plexplore.GoTime.{Time}
use plexplore.Ingest.Models.{Bytes}
use plexplore.Store.{Device, RawPoint}
use plexplore.VisitStore.{VisitDb, rebuild_visits_for_device_range}
use plexplore.VisitStore.Rewriting.{Ended, rebuild-Rewritten}
use plexplore.VisitStore.Again.{contents, rebuild-again}
use plexplore.VisitScheduler.{
  VisitScheduler, no_devices, new_visit_scheduler, device_at, select_device_batch,
  sorted_unique_devices_by_id,
}
use plexplore.VisitScheduler.Processing.{process_devices}
use plexplore.VisitScheduler.Runs.{Ran, process_devices-Ran}
use plexplore.VisitScheduler.RoundRobin.{after_runs, select_device_batch-reaches}
use plexplore.VisitScheduler.Devices.{Strict, sorted_unique-Strict}
use plexplore.Tests.Samples.{whole_numbers}
use plexplore.Tests.StoreRuns.{phone, stored_row, one_row}
use plexplore.Tests.OtherRuns.{wide}

-- Texts of one letter, in the order of the times.
abbrev pub letter : Time → Bytes
letter t = t ∷ []

abbrev row_at : ℕ → ℕ → RawPoint
row_at seq t = record stored_row { id = seq; seq = seq; timestamp_utc = t }

-- The first call to the database is to work, the next one to fail, where `faults` says so.
abbrev pub three_rows : List Bool → VisitDb
three_rows faults = record {
  tables = record one_row { raw_points = row_at 1 1_000 ∷ row_at 2 1_200 ∷ row_at 3 1_300 ∷ [] };
  visits = [];
  next_visit_id = 1;
  states = [];
  faults = faults;
}

rebuild-Rewritten_example :
    Ended letter 1 none none whole_numbers wide
      (three_rows [])
      (rebuild_visits_for_device_range letter whole_numbers 1 none none wide (three_rows []))
rebuild-Rewritten_example = rebuild-Rewritten letter whole_numbers 1 none none wide (three_rows [])

abbrev three : List Device
three = phone ∷ record phone { id = 2 } ∷ record phone { id = 3 } ∷ []

abbrev one_by_one : VisitScheduler
one_by_one = new_visit_scheduler whole_numbers true (pos 1) (pos 1) (pos 5) wide

one_positive : 0 < one_by_one.cfg.device_batch_size
unfolding new_visit_scheduler
one_positive = omega arith

third : device_at 2 three ≡ some (record phone { id = 3 })
unfolding device_at
third = refl

rebuild-again_example :
    let run = rebuild_visits_for_device_range letter whole_numbers 1 none none wide in
    let first = run (three_rows []) in
    let second = run first.1 in
    (((n : ℕ) × (first.0 ≡ ok n)) × (second.0 ≡ first.0))
    × (contents letter whole_numbers second.1.visits ≡ contents letter whole_numbers first.1.visits)
rebuild-again_example =
    rebuild-again letter whole_numbers 1 none none wide (three_rows []) refl refl refl refl

select_device_batch-reaches_example :
    (k : ℕ) × (k * one_by_one.cfg.device_batch_size < length three)
    × Memᴰ (record phone { id = 3 }) (select_device_batch (after_runs k three one_by_one) three).0
select_device_batch-reaches_example =
    select_device_batch-reaches one_by_one three 2 (record phone { id = 3 }) one_positive third

sorted_unique-Strict_example :
    Strict (sorted_unique_devices_by_id three)
    × ((P : ℕ → Type 0)
        → All (λ e. P e.id) (sorted_unique_devices_by_id three)
        → All (λ d. (d.id ≡ 0) ⊎ P d.id) three)
sorted_unique-Strict_example = sorted_unique-Strict three

process_devices-Ran_example :
    let (r', s') =
      process_devices letter whole_numbers one_by_one.cfg
        (phone ∷ [])
        no_devices
        (three_rows (false ∷ true ∷ [])) in
    Ran (phone ∷ []) no_devices r' (three_rows (false ∷ true ∷ [])) s'
process_devices-Ran_example =
    process_devices-Ran letter whole_numbers one_by_one.cfg (phone ∷ []) no_devices
      (three_rows (false ∷ true ∷ []))
