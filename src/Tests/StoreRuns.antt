-- ===== src/Tests/StoreRuns.antt =====
-- The theorems on the store, at tables of one row.
use plexplore.Prelude.{ℕ, ◌≡◌, refl, true, false, none, [], ◌∷◌, err}
use plexplore.Ingest.Models.{SpoolRecord}
use plexplore.Store.{Db, Device, RawPoint, StoreError, has_hash, has_seq, insert_spool_batch}
use plexplore.Store.Rounds.{Consistent}
use plexplore.Store.Batches.{Committed, insert_spool_batch-Committed, insert_spool_batch-Consistent}
use plexplore.Store.Refusals.{insert_spool_batch-refused}
use plexplore.Text.{codes}
use plexplore.Tests.Samples.{home, at_home}

abbrev pub phone : Device
phone = record {
  id = 1;
  user_id = 1;
  name = codes "phone";
  source_type = codes "owntracks";
  last_seen_at = none;
  last_seq_received = 1;
}

abbrev pub stored_row : RawPoint
stored_row = record {
  id = 1;
  seq = 1;
  user_id = 1;
  device_id = 1;
  source_type = codes "owntracks";
  timestamp_utc = 1_000;
  point = home;
  raw_payload_json = none;
  ingest_hash = "h";
}

abbrev pub one_row : Db
one_row = record {
  users = 1 ∷ [];
  devices = phone ∷ [];
  next_device_id = 2;
  raw_points = stored_row ∷ [];
  next_raw_point_id = 2;
  points = 1 ∷ [];
}

-- A record like the stored one, with another hash.
abbrev elsewhere : ℕ → SpoolRecord
elsewhere seq = record (at_home seq) { point = record home { ingest_hash = "other" } }

one_row-Consistent : Consistent one_row
unfolding has_hash has_seq
one_row-Consistent = record { distinct = (refl, refl, tt); linked = refl }

hash_new : has_hash "other" one_row.raw_points ≡ false
unfolding has_hash
hash_new = refl

seq_there : has_seq 1 one_row.raw_points ≡ true
unfolding has_seq
seq_there = refl

insert_spool_batch-Committed_example :
    Committed (elsewhere 2 ∷ []) one_row (insert_spool_batch 3_000 false (elsewhere 2 ∷ []) one_row)
insert_spool_batch-Committed_example =
    insert_spool_batch-Committed 3_000 false (elsewhere 2 ∷ []) one_row

insert_spool_batch-Consistent_example :
    Consistent (insert_spool_batch 3_000 false (elsewhere 2 ∷ []) one_row).1
insert_spool_batch-Consistent_example =
    insert_spool_batch-Consistent 3_000 false (elsewhere 2 ∷ []) one_row one_row-Consistent

insert_spool_batch-refused_example :
    (e : StoreError) × (insert_spool_batch 3_000 false (at_home 2 ∷ elsewhere 1 ∷ []) one_row
      ≡ (err e, one_row))
insert_spool_batch-refused_example =
    insert_spool_batch-refused 3_000 false (at_home 2 ∷ []) [] (elsewhere 1) one_row hash_new
      seq_there (refl, tt)
