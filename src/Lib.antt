-- ===== src/Lib.antt =====
-- Exploripi, a location history tracker: points arrive over HTTP, are appended to a spool on disk,
-- wait in a bounded buffer in RAM, and are flushed in batches to SQLite. A checkpoint file holds the
-- sequence number up to which everything is in the database; on start the spool past it is replayed.
--
-- The parts and where they are modelled:
-- - Ingest: internal/ingest/models.go and ingest_hash.go, the canonical point, the spool record and
--   its hash. Ingest/Json is encoding/json as a parameter, with what its documentation states of
--   the texts that Marshal writes (`Lawful`). SHA-256 and the text formats are parameters too.
-- - Spool: internal/spool. A `World` has the manager's fields, the directory as a map from names to
--   contents, the checkpoint file, and a list of faults that says which of the next calls of `os`
--   fail, and after how many bytes a write does. Each method is an action on the world that
--   returns a value or an error: AppendCanonicalPoints in Spool/Append, AdvanceCheckpoint and
--   ReplayAfterCheckpoint in Spool/Replay, CompactCommittedSegments in Spool/Compaction. Spool/Log
--   is the abstract view: a spool directory is a list of segments with their records.
-- - Buffer: internal/buffer/manager.go, every method as a function on the manager's fields. The
--   clock's reading is an argument. Buffer/Marking describes which records become markers.
-- - Flusher: internal/flusher/flusher.go over `Backend`, an interface for the store, the checkpoint
--   and the compactor with a state of their own. `handle` is one event of the goroutine.
--   Flusher/Durable states what the flusher relies on of a backend, and Flusher/Runs is the step
--   relation of a flusher whose buffer the handlers fill. A flush of one batch is one step there:
--   what a handler enqueues between the drain of a batch and its commit is not modelled. Server, cmd/server/main.go, is the backend
--   of the process: the store and the spool together, with Spool/Keeping for its compaction.
-- - Store: internal/store/sqlite_store.go, InsertSpoolBatch on tables that are lists of rows, with
--   the constraints of migrations/0001_init_schema.sql. A failure of the driver is an argument, as
--   for a sequence number of 2^63 or more, which the driver refuses.
-- - IngestApi: internal/api/ingest.go from the parsed points on: the spool, then the buffer, then
--   the request for a flush.
-- - Recovery: internal/tasks/startup_recovery.go over `ReplaySource`, an interface for the spool.
-- - VisitStore: internal/store/visits.go and visit_generation_state.go, the tables of visits and
--   watermarks; each call to the database takes an entry of a list that says whether it fails.
--   VisitScheduler: internal/tasks/visit_scheduler.go over that store, a run as a function of the
--   store and of the clock's readings. VisitStore/Rewriting describes a rebuild by what the table
--   has before and after it.
-- - Points: internal/store/points.go over the same tables. PointsApi: internal/api/points.go, and
--   Exports: internal/api/exports.go, from the texts of the query's parameters to the points of the
--   reply, with the parameters that internal/api/visits.go shares.
-- - Visits: internal/visits/detector.go. RateLimit: internal/api/rate_limit.go.
-- - Prelude, Text, GoTime and Float64 are what these share: lists and maps, the functions of
--   `strings` and `strconv` that are used, times and durations with the int64 arithmetic of
--   durations, and floating-point numbers as a parameter.
-- - Tests has concrete instances of the parameters and runs the theorems on them.
--
-- Numbers: sequence numbers are uint64 and wrap in `% 2 ^ 64`; durations are int64 and saturate or
-- wrap as in Go; sizes and counts are int in Go and stay far below its range, so they are natural
-- numbers here. Instants before year 1 have no value. The loops of the flusher run on fuel, one
-- more than the records in the buffer, as every round takes at least one; the loops of the detector
-- on the number of points; the loop of the recovery on the number of replayed records, as every
-- chunk has at least one. Other loops are structural.
--
-- Not modelled: the other HTTP handlers and the UI, the parsers of the two upload formats, the
-- other queries of the store, sessions and users, the migrator, the configuration, reverse geocoding
-- and the commands. They are request handling, SQL text or wiring around the core
-- above.
pub mod Prelude
pub mod GoTime
pub mod Float64
pub mod Ingest
pub mod Text
pub mod Points
pub mod PointsApi
pub mod Server
pub mod Spool
pub mod Buffer
pub mod Exports
pub mod Flusher
pub mod Store
pub mod VisitScheduler
pub mod VisitStore
pub mod Visits
pub mod RateLimit
pub mod IngestApi
pub mod Recovery
pub mod Tests
