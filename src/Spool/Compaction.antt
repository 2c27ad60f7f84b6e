-- ===== src/Spool/Compaction.antt =====
-- internal/spool/compaction.go: deleting segments whose records are all committed.
use plexplore.Prelude.{
  ℕ, ◌+◌, ◌-◌, Bool, true, false, none, some, List, [], ◌∷◌, Outcome, ok, err, ltb, ◌==◌,
  if◌then◌else◌,
}
use plexplore.Ingest.Models.{SpoolRecord, Bytes}
use plexplore.Ingest.Json.{Json}
use plexplore.Spool.Segment.{segment_file_name}
use plexplore.Spool.Codec.{SpoolError, not_exist}
use plexplore.Spool.World.{FileSpoolManager, Io, pure, gets, ◌>>=◌, remove_file}
use plexplore.Spool.Replay.{read_checkpoint, list_segment_starts, read_segment_file}

-- The highest sequence number from a first one on.
unfoldable pub max_seq_from : ℕ → List SpoolRecord → ℕ
max_seq_from top [] = top
max_seq_from top (r ∷ rs) = max_seq_from (if ltb top r.seq then r.seq else top) rs

-- `maxRecordSeqInSegment`, of the records read
unfoldable pub max_seq_of : ℕ → List SpoolRecord → ℕ
unfolding max_seq_from
max_seq_of start [] = if start == 0 then 0 else start - 1
max_seq_of start (r ∷ rs) = max_seq_from r.seq rs

-- The currently writable segment.
unfoldable pub is_active : FileSpoolManager → ℕ → Bool
is_active m start = elim m.active_file [
  | none ↦ false
  | some name ↦ start == m.active_segment_start
]

-- How `os.Remove` ends a round: whether the file was deleted.
unfoldable pub removed : Outcome SpoolError (Unit {0}) → Outcome SpoolError Bool
removed (ok _) = ok true
removed (err not_exist) = ok false
removed (err e) = err e

unfoldable pub try_remove : Bytes → Io Bool
unfolding remove_file removed
try_remove name w = let (r, w') = remove_file name w in (removed r, w')

-- One round of the loop: whether the segment was deleted.
unfoldable pub compact_one : Json → ℕ → ℕ → Io Bool
unfolding try_remove
compact_one j committed start = do
  active ← gets (λ w. is_active w.manager start)
  if active then pure false else if ltb committed start then pure false else do
    records ← read_segment_file j (segment_file_name start)
    if ltb committed (max_seq_of start records)
        then pure false
        else try_remove (segment_file_name start)

unfoldable pub compact_loop : Json → ℕ → ℕ → List ℕ → Io ℕ
compact_loop j committed deleted [] = pure deleted
compact_loop j committed deleted (start ∷ starts) = do
  done ← compact_one j committed start
  compact_loop j committed (if done then deleted + 1 else deleted) starts

-- `CompactCommittedSegments`; the count beside an error is only logged, and left out here.
unfoldable pub compact_committed_segments : Json → Io ℕ
compact_committed_segments j = do
  checkpoint ← read_checkpoint j
  starts ← list_segment_starts
  compact_loop j checkpoint.last_committed_seq 0 starts
