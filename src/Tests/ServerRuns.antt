-- ===== src/Tests/ServerRuns.antt =====
-- The flusher over the store and the spool of the process: one record through the buffer.
use plexplore.Prelude.{All, ◌≡◌, refl, none, [], ◌∷◌, ◌++◌, true, false, ok, arith, String}
use plexplore.Prelude.Int.{pos}
use plexplore.Spool.Codec.{SpoolError}
use plexplore.Spool.Log.{calm}
use plexplore.Spool.Replay.{contents_of}
use plexplore.Store.{Db, StoreError}
use plexplore.Buffer.{
  enqueue, enqueue_filtered, admit, incoming_bytes, items, filter_near_duplicates, dedupe_loop,
  is_near_duplicate, estimate_record_bytes, new_manager_with_dedupe,
}
use plexplore.Flusher.{Backend, Flusher, Config, tick, handle}
use plexplore.Flusher.Durable.{Durable, View}
use plexplore.Flusher.Runs.{Reaches, start, accepted, handled, Reaches-Sound}
use plexplore.Flusher.Sound.{Sound, Fresh, taken, filled}
use plexplore.Server.{Persisted, flusher_backend}
use plexplore.Server.Storage.{flusher_view, number_of, flusher_backend-Durable}
use plexplore.Tests.Samples.{whole_numbers, unary_json, unary_json-Lawful, at_home}
use plexplore.Tests.SpoolRuns.{later_manager, one_file, two_spooled}

abbrev store_text : StoreError → String
store_text e = "store"

abbrev spool_text : SpoolError → String
spool_text e = "spool"

abbrev empty_db : Db
empty_db = record {
  users = [];
  devices = [];
  next_device_id = 1;
  raw_points = [];
  next_raw_point_id = 1;
  points = [];
}

-- The first insert is to fail.
abbrev at_start : Persisted
at_start = record {
  db = empty_db;
  spool = calm later_manager one_file none;
  store_faults = true ∷ [];
}

abbrev idle : Flusher Persisted
idle = record {
  state = record {
    buffer = new_manager_with_dedupe whole_numbers (pos 10) (pos 10_000) (pos 0) 0;
    world = at_start;
  };
  started = true;
  stopped = false;
  done = false;
  triggered = false;
  last_result = none;
  last_success_at = 0;
}

flusher_backend-Durable_example :
    Durable
      (flusher_backend unary_json 9 store_text spool_text)
      (flusher_view unary_json unary_json-Lawful 9 (omega arith) store_text spool_text)
flusher_backend-Durable_example =
    flusher_backend-Durable unary_json unary_json-Lawful 9 (omega arith) store_text spool_text

abbrev by_two : Config
by_two = record { flush_interval = pos 1; flush_batch_size = 2 }

abbrev be : Backend Persisted
be = flusher_backend unary_json 9 store_text spool_text

abbrev view : View Persisted
view = flusher_view unary_json unary_json-Lawful 9 (omega arith) store_text spool_text

abbrev laws : Durable be view
laws = flusher_backend-Durable unary_json unary_json-Lawful 9 (omega arith) store_text spool_text

readable : view.Good at_start
unfolding contents_of
readable = record {
  calm_disk = refl;
  current = record { last_committed_seq = 0; updated_at_utc = 0 };
  reads_as = refl;
}

no_items : items idle.state.buffer ≡ []
unfolding new_manager_with_dedupe
no_items = refl

enqueued : (enqueue whole_numbers unary_json 9 idle.state.buffer (at_home 2 ∷ [])).0 ≡ ok tt
unfolding enqueue enqueue_filtered admit filter_near_duplicates dedupe_loop incoming_bytes
    estimate_record_bytes is_near_duplicate new_manager_with_dedupe
enqueued = refl

two-Fresh :
    Fresh be view laws unary_json
      (view.checkpoint at_start)
      2
      (taken be view laws unary_json whole_numbers idle.state (at_home 2 ∷ []))
unfolding filter_near_duplicates dedupe_loop is_near_duplicate new_manager_with_dedupe number_of
    contents_of
two-Fresh = record {
  wider = omega arith;
  rising = (tt, tt);
  above = (omega arith, tt);
  below = (omega arith, tt);
  encodable = ((_, refl), tt);
}

in_spool :
    All
      (λ r. view.Spooled r.seq at_start)
      (taken be view laws unary_json whole_numbers idle.state (at_home 2 ∷ []))
unfolding filter_near_duplicates dedupe_loop is_near_duplicate new_manager_with_dedupe
in_spool = (two_spooled, tt)

-- The first tick meets the fault of the store, the second one stores the record.
reached :
    Reaches be view laws unary_json by_two
      ([] ++ taken be view laws unary_json whole_numbers idle.state (at_home 2 ∷ []))
      2
      (handle be unary_json 12 by_two 2 tick (
        handle be unary_json 11 by_two 2 tick
          (filled be view laws unary_json whole_numbers 9 (at_home 2 ∷ []) idle)))
reached = handled 12 2 tick (
    handled 11 2 tick (
      accepted whole_numbers 9 2 (at_home 2 ∷ []) enqueued two-Fresh in_spool
        (start idle readable no_items)))

Reaches-Sound_example :
    Sound be view laws unary_json
      ([] ++ taken be view laws unary_json whole_numbers idle.state (at_home 2 ∷ []))
      2
      (handle be unary_json 12 by_two 2 tick (
        handle be unary_json 11 by_two 2 tick
          (filled be view laws unary_json whole_numbers 9 (at_home 2 ∷ []) idle))).state
Reaches-Sound_example = Reaches-Sound be view laws unary_json by_two _ 2 _ reached
