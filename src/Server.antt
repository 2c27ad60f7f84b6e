-- ===== src/Server.antt =====
-- cmd/server/main.go: the flusher's store and its checkpoint manager are the SQLite store and the
-- spool of the process. The texts of their errors are parameters.
pub mod Storage
use plexplore.Prelude.{ℕ, Bool, true, false, Option, some, List, [], ◌∷◌, Outcome, ok, err, String}
use plexplore.GoTime.{Time}
use plexplore.Ingest.Models.{SpoolRecord}
use plexplore.Ingest.Json.{Json}
use plexplore.Spool.Codec.{SpoolError}
use plexplore.Spool.World.{World}
use plexplore.Spool.Replay.{advance_checkpoint}
use plexplore.Spool.Compaction.{compact_committed_segments}
use plexplore.Store.{Db, StoreError, insert_spool_batch}
use plexplore.Flusher.{Backend}

-- What outlives the process. Each call of `InsertSpoolBatch` takes the next entry of `store_faults`,
-- which says whether a call of the driver fails in it; when the list is used up none does.
pub record Persisted : Type 0 where
  pub db : Db
  pub spool : World
  pub store_faults : List Bool

with_text : {E A : Type 0} → (E → String) → Outcome E A → Outcome String A
with_text text (ok a) = ok a
with_text text (err e) = err (text e)

-- The result of `AdvanceCheckpoint` is not used.
without_value : {E A : Type 0} → Outcome E A → Outcome E (Unit {0})
without_value (ok _) = ok tt
without_value (err e) = err e

next_fault : List Bool → Bool × List Bool
next_fault [] = (false, [])
next_fault (b ∷ bs) = (b, bs)

module _ (j : Json) (now : Time) (store_text : StoreError → String)
    (spool_text : SpoolError → String) where
  insert_batch : List SpoolRecord → Persisted → Outcome String ℕ × Persisted
  unfolding with_text next_fault
  insert_batch rs s =
      let (failing, rest) = next_fault s.store_faults in
      let (result, db) = insert_spool_batch now failing rs s.db in
      (with_text store_text result, record s { db = db; store_faults = rest })

  advance_to : ℕ → Persisted → Outcome String (Unit {0}) × Persisted
  unfolding with_text without_value
  advance_to n s =
      let (result, w) = advance_checkpoint j now n s.spool in
      (with_text spool_text (without_value result), record s { spool = w })

  compact_segments : Persisted → Outcome String ℕ × Persisted
  unfolding with_text
  compact_segments s =
      let (result, w) = compact_committed_segments j s.spool in
      (with_text spool_text result, record s { spool = w })

  -- The `Store` and the `CheckpointManager` that `flusher.New` is given.
  unfoldable pub flusher_backend : Backend Persisted
  unfolding insert_batch advance_to compact_segments
  flusher_backend = record {
    insert_spool_batch = insert_batch;
    advance_checkpoint = advance_to;
    compact = some compact_segments;
  }
