-- ===== src/Tests/IngestRuns.antt =====
-- The theorem on the ingest, at a spool of one segment and a buffer with room for one record.
use plexplore.Prelude.{true, false, none, [], ◌∷◌, arith}
use plexplore.Spool.World.{balanced}
use plexplore.Spool.Log.{calm}
use plexplore.IngestApi.{Dependencies, Pipeline, append_and_enqueue}
use plexplore.IngestApi.Durable.{Accepted, append_and_enqueue-Accepted}
use plexplore.Tests.Samples.{whole_numbers, short_formats, home, unary_json}
use plexplore.Tests.SpoolRuns.{
  one_segment, one_file, later_manager, one_file-IsLog, later_manager_mode, two_written,
}
use plexplore.Tests.BufferRuns.{two_waiting}

abbrev with_flusher : Dependencies
with_flusher = record { has_flusher = true; flush_trigger_points = 3; flush_trigger_bytes = 0 }

abbrev before : Pipeline
before = record {
  world = calm later_manager one_file none;
  buffer = two_waiting;
  triggered = false;
}

append_and_enqueue-Accepted_example :
    Accepted whole_numbers short_formats unary_json 2_000 with_flusher none
      (home ∷ [])
      one_segment
      later_manager
      before
      (append_and_enqueue whole_numbers short_formats unary_json 2_000 with_flusher
        (home ∷ [])
        "owntracks"
        before)
append_and_enqueue-Accepted_example =
    append_and_enqueue-Accepted whole_numbers short_formats unary_json 2_000 with_flusher none
      (home ∷ []) "owntracks" one_segment later_manager one_file balanced two_waiting false
      one_file-IsLog later_manager_mode (omega arith) (two_written, tt)
