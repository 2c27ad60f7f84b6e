-- ===== src/IngestApi.antt =====
-- internal/api/ingest.go, from the parsed points on: the spool, the buffer and the request for a
-- flush. `now` is the clock during one call. Parsing and HTTP are left out.
pub mod Durable
use plexplore.Prelude.{
  ℕ, ◌+◌, String, Bool, true, false, Option, none, some, List, [], ◌∷◌, map, Outcome, ok, err,
  length, ltb, leb, ◌&&◌, ◌||◌, if◌then◌else◌, str_eq,
}
use plexplore.GoTime.{Time}
use plexplore.Float64.{FloatOps}
use plexplore.Ingest.Models.{CanonicalPoint, SpoolRecord}
use plexplore.Ingest.Json.{Json}
use plexplore.Ingest.Hash.{Formats, generate_deterministic_ingest_hash}
use plexplore.Spool.Codec.{SpoolError}
use plexplore.Spool.World.{World}
use plexplore.Spool.Append.{append_canonical_points}
use plexplore.Buffer.{
  Manager, Error, max_points_exceeded, max_bytes_exceeded, estimate_failed, enqueue, stats,
}

-- The fields of `Dependencies` that the ingest uses; a threshold of 0 stands for any that is not
-- positive.
pub record Dependencies : Type 0 where
  pub has_flusher : Bool
  pub flush_trigger_points : ℕ
  pub flush_trigger_bytes : ℕ

-- What the handlers change: the spool's world, the buffer, and the flusher's channel of requests.
pub record Pipeline : Type 0 where
  pub world : World
  pub buffer : Manager
  pub triggered : Bool

pub record IngestSuccessResponse : Type 0 where
  pub ok : Bool
  pub source : String
  pub accepted : ℕ
  pub spooled : ℕ
  pub enqueued : ℕ
  pub max_seq : ℕ

pub data IngestError : Type 0 where
  spool_failed : SpoolError → IngestError
  buffer_failed : Error → IngestError

-- The call of `TriggerFlush`, where there is a flusher.
abbrev trigger : Dependencies → Pipeline → Pipeline
trigger deps st = record st { triggered = deps.has_flusher || st.triggered }

unfoldable pub maybe_trigger_pressure_flush : Dependencies → Time → Pipeline → Pipeline
maybe_trigger_pressure_flush deps now st =
    let s = stats now st.buffer in
    if ltb 0 deps.flush_trigger_points && leb deps.flush_trigger_points s.total_buffered_points
    then trigger deps st
    else if ltb 0 deps.flush_trigger_bytes && leb deps.flush_trigger_bytes s.total_buffered_bytes
    then trigger deps st
    else st

unfoldable pub highest_seq : ℕ → List SpoolRecord → ℕ
highest_seq top [] = top
highest_seq top (r ∷ rs) = highest_seq (if ltb top r.seq then r.seq else top) rs

-- `mapIngestErrorStatus`, with `none` for nil
unfoldable pub map_ingest_error_status : Option IngestError → ℕ
map_ingest_error_status none = 200
map_ingest_error_status (some (buffer_failed max_bytes_exceeded)) = 503
map_ingest_error_status (some (buffer_failed max_points_exceeded)) = 503
map_ingest_error_status (some (buffer_failed estimate_failed)) = 500
map_ingest_error_status (some (spool_failed e)) = 500

-- `normalizeForAuthenticatedDevice`, of the user's id as a text and the device's name
unfoldable pub normalize_for_authenticated_device :
    String → String → List CanonicalPoint → List CanonicalPoint
normalize_for_authenticated_device user name =
    map (λ (p : CanonicalPoint). record p { user_id = user; device_id = name })

-- `ensureIngestHashes`
unfoldable pub ensure_ingest_hashes : FloatOps → Formats → List CanonicalPoint → List CanonicalPoint
ensure_ingest_hashes fl fmt = map λ (p : CanonicalPoint).
    if str_eq p.ingest_hash ""
    then record p { ingest_hash = generate_deterministic_ingest_hash fl fmt p }
    else p

module _ (fl : FloatOps) (fmt : Formats) (j : Json) (now : Time) (deps : Dependencies) where
  -- The reply to points that are in the spool and in the buffer.
  abbrev response : List CanonicalPoint → List SpoolRecord → String → IngestSuccessResponse
  response points records source = record {
    ok = true;
    source = source;
    accepted = length points;
    spooled = length records;
    enqueued = length records;
    max_seq = highest_seq 0 records;
  }

  unfoldable pub enqueue_records :
      List CanonicalPoint
      → String
      → List SpoolRecord
      → Pipeline
      → Outcome IngestError IngestSuccessResponse × Pipeline
  enqueue_records points source records st =
      let (result, m) = enqueue fl j now st.buffer records in
      elim result [
        | err e ↦ (err (buffer_failed e), trigger deps (record st { buffer = m }))
        | ok _ ↦ (
          ok (response points records source),
          maybe_trigger_pressure_flush deps now (record st { buffer = m }),
        )
      ]

  -- The call once the spool has answered.
  after_append :
      List CanonicalPoint
      → String
      → Pipeline
      → Outcome SpoolError (List SpoolRecord) × World
      → Outcome IngestError IngestSuccessResponse × Pipeline
  after_append points source st (err e, w) = (err (spool_failed e), record st { world = w })
  after_append points source st (ok records, w) =
      enqueue_records points source records (record st { world = w })

  -- `appendAndEnqueue`
  unfoldable pub append_and_enqueue :
      List CanonicalPoint → String → Pipeline → Outcome IngestError IngestSuccessResponse × Pipeline
  unfolding after_append
  append_and_enqueue points source st =
      after_append points source st (append_canonical_points fl fmt j now points st.world)
