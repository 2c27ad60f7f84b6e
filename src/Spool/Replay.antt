-- ===== src/Spool/Replay.antt =====
-- internal/spool/replay.go and status.go: the checkpoint, and reading the segments back.
use mathlib.Core.List.{reverse}
use plexplore.Prelude.{
  ℕ, Option, none, some, List, [], ◌∷◌, ◌++◌, Outcome, ok, err, length, keep, ltb, leb, ◌==◌, take,
  if◌then◌else◌,
}
use plexplore.GoTime.{Time}
use plexplore.Ingest.Models.{SpoolRecord, Bytes}
use plexplore.Ingest.Json.{Json, Checkpoint, newline}
use plexplore.Spool.Segment.{segment_file_name, parse_segment_start_seq}
use plexplore.Spool.Codec.{
  SpoolError, io_failed, serialize_checkpoint, deserialize_checkpoint, deserialize_record,
}
use plexplore.Spool.World.{Io, pure, lift, ◌>>=◌, ◌>>◌, take_fault, os_call, read_file, read_dir}

unfoldable pub contents_of : Json → Option Bytes → Outcome SpoolError Checkpoint
unfolding deserialize_checkpoint
contents_of j none = ok (record { last_committed_seq = 0; updated_at_utc = 0 })
contents_of j (some contents) = deserialize_checkpoint j contents

-- `readCheckpointLocked`, and `ReadCheckpoint`
unfoldable pub read_checkpoint : Json → Io Checkpoint
unfolding os_call contents_of
read_checkpoint j = do os_call; (λ w. (contents_of j w.checkpoint_file, w))

-- `Write` to the checkpoint file once it is open and empty.
after_checkpoint_write : Bytes → Option ℕ → Io (Unit {0})
after_checkpoint_write contents none w = (ok tt, record w { checkpoint_file = some contents })
after_checkpoint_write contents (some k) w =
    (err io_failed, record w { checkpoint_file = some (take k contents) })

truncate_checkpoint : Io (Unit {0})
truncate_checkpoint w = (ok tt, record w { checkpoint_file = some [] })

-- `OpenFile` with O_TRUNC, `Write`, `Sync` and `Close`. The old contents are gone once the file is
-- open, whatever comes after.
unfoldable pub write_checkpoint_file : Bytes → Io (Unit {0})
unfolding os_call take_fault after_checkpoint_write truncate_checkpoint
write_checkpoint_file contents = do
  os_call
  truncate_checkpoint
  f ← take_fault
  after_checkpoint_write contents f
  os_call
  os_call

-- `AdvanceCheckpoint`
unfoldable pub advance_checkpoint : Json → Time → ℕ → Io Checkpoint
unfolding os_call
advance_checkpoint j now last_committed = do
  os_call
  current ← read_checkpoint j
  let next : Checkpoint = record { last_committed_seq = last_committed; updated_at_utc = now }
  if leb last_committed current.last_committed_seq then pure current else do
    contents ← lift (serialize_checkpoint j now next)
    write_checkpoint_file contents
    pure next

unfoldable pub insert_sorted : ℕ → List ℕ → List ℕ
insert_sorted n [] = n ∷ []
insert_sorted n (m ∷ ms) = if leb n m then n ∷ m ∷ ms else m ∷ insert_sorted n ms

-- `slices.Sort`
unfoldable pub sort : List ℕ → List ℕ
unfolding insert_sorted
sort [] = []
sort (n ∷ ns) = insert_sorted n (sort ns)

-- The start sequence numbers of the names that are segments'.
unfoldable pub starts_of : List Bytes → List ℕ
starts_of [] = []
starts_of (name ∷ names) =
    let rest = starts_of names in
    elim (parse_segment_start_seq name) [ none ↦ rest | some start ↦ start ∷ rest ]

-- `listSegmentStartsLocked`
unfoldable pub list_segment_starts : Io (List ℕ)
unfolding read_dir starts_of sort
list_segment_starts = do names ← read_dir; pure (sort (starts_of names))

-- `SegmentCount`
unfoldable pub segment_count : Io ℕ
unfolding list_segment_starts
segment_count = do starts ← list_segment_starts; pure (length starts)

last_line : Bytes → List Bytes
last_line [] = []
last_line (p ∷ part) = reverse (p ∷ part) ∷ []

-- The lines of a file, each with its newline; `part` is the line so far, last byte first.
unfoldable pub split_lines : Bytes → Bytes → List Bytes
unfolding last_line
split_lines [] part = last_line part
split_lines (c ∷ s) part =
    let line = split_lines s [] in
    let more = split_lines s (c ∷ part) in if c == newline then reverse (c ∷ part) ∷ line else more

-- Every line must decode.
unfoldable pub decode_lines : Json → List Bytes → Outcome SpoolError (List SpoolRecord)
decode_lines j [] = ok []
decode_lines j (line ∷ lines) =
    let rest = decode_lines j lines in
    elim (deserialize_record j line) [
      | err e ↦ err e
      | ok r ↦ elim rest [ err e ↦ err e | ok rs ↦ ok (r ∷ rs) ]
    ]

-- `readSegmentFile`
unfoldable pub read_segment_file : Json → Bytes → Io (List SpoolRecord)
unfolding read_file
read_segment_file j name = do
  contents ← read_file name
  lift (decode_lines j (split_lines contents []))

-- The loop of `ReplayAfterCheckpoint` over the segments.
unfoldable pub replay_segments : Json → ℕ → List ℕ → Io (List SpoolRecord)
replay_segments j committed [] = pure []
replay_segments j committed (start ∷ starts) = do
  records ← read_segment_file j (segment_file_name start)
  rest ← replay_segments j committed starts
  pure (keep (λ r. ltb committed r.seq) records ++ rest)

-- `ReplayAfterCheckpoint`
unfoldable pub replay_after_checkpoint : Json → Io (List SpoolRecord)
replay_after_checkpoint j = do
  checkpoint ← read_checkpoint j
  starts ← list_segment_starts
  replay_segments j checkpoint.last_committed_seq starts
