-- ===== src/Spool/Checkpoints.antt =====
-- `AdvanceCheckpoint`: what the checkpoint file reads as afterwards.
use plexplore.Prelude.{
  ℕ, ◌≡◌, ◌<◌, refl, inl, inr, ◌⊎◌, Option, none, some, [], ◌∷◌, Outcome, ok, err, arith, leb, max,
  false, Bool-cases, Outcome-cases,
}
use plexplore.Prelude.Dict.{Dict}
use plexplore.GoTime.{Time}
use plexplore.Ingest.Models.{Bytes}
use plexplore.Ingest.Json.{Json, Lawful, Checkpoint}
use plexplore.Text.{trim_space}
use plexplore.Spool.Codec.{
  SpoolError, io_failed, checkpoint_empty_data, serialize_checkpoint, deserialize_checkpoint,
  deserialize-serialize_checkpoint,
}
use plexplore.Spool.World.{FileSpoolManager, World, Node, os_call}
use plexplore.Spool.Replay.{contents_of, read_checkpoint, write_checkpoint_file, advance_checkpoint}
use plexplore.Spool.Log.{calm}
use plexplore.Spool.Log.Reading.{read_checkpoint-calm}

empty_file : (j : Json) → contents_of j (some []) ≡ err checkpoint_empty_data
unfolding contents_of deserialize_checkpoint trim_space
empty_file j = refl

module _ (j : Json) (now : Time) (n : ℕ) (m : FileSpoolManager) (d : Dict Bytes Node)
    (cp : Option Bytes) (c : Checkpoint) (current : contents_of j cp ≡ ok c) where
  abbrev asked : Checkpoint
  asked = record { last_committed_seq = n; updated_at_utc = now }

  -- An advance that returns a checkpoint: it is the one that the file reads as.
  pub record Advanced (r : Outcome SpoolError Checkpoint × World) : Type 0 where
    pub next : Checkpoint
    pub file : Option Bytes
    pub result : r ≡ (ok next, calm m d file)
    pub reads_as : contents_of j file ≡ ok next
    pub highest : next.last_committed_seq ≡ max n c.last_committed_seq

  -- An advance to a later number whose checkpoint has no text: it returns that error, and the world
  -- is as it was.
  pub record Unwritten (r : Outcome SpoolError Checkpoint × World) : Type 0 where
    pub later : c.last_committed_seq < n
    pub error : SpoolError
    pub no_text : serialize_checkpoint j now asked ≡ err error
    pub result : r ≡ (err error, calm m d cp)

  -- When no call of `os` fails, the codec is lawful, the clock is past year 1 and the checkpoint
  -- file reads as a checkpoint, `AdvanceCheckpoint` returns the checkpoint that the file reads as
  -- afterwards, and its sequence number is the larger of the old one and the argument, so that the
  -- checkpoint never goes back; nothing else changes. Only where the argument is the larger one and
  -- the new checkpoint cannot be serialized does it return an error, the one of the serialization,
  -- and then nothing changes at all.
  pub advance_checkpoint-Advanced :
      Lawful j
      → 0 < now
      → let r = advance_checkpoint j now n (calm m d cp) in Advanced r ⊎ Unwritten r
  unfolding advance_checkpoint write_checkpoint_file contents_of
  advance_checkpoint-Advanced law dated =
      let reading = read_checkpoint-calm j law m cp d c current in
      elim (Bool-cases (leb n c.last_committed_seq)) [
        | inl old ↦ inl (record {
          next = c;
          file = cp;
          result = rw (reading, old) refl;
          reads_as = current;
          highest = ground arith;
        })
        | inr new ↦ elim (Outcome-cases (serialize_checkpoint j now asked)) [
          | inl (contents, written) ↦ inl (record {
            next = asked;
            file = some contents;
            result = rw (reading, new, written) refl;
            reads_as = deserialize-serialize_checkpoint j now asked contents law dated written;
            highest = ground arith;
          })
          | inr (x, failed) ↦ inr (record {
            later = ground arith;
            error = x;
            no_text = failed;
            result = rw (reading, new, failed) refl;
          })
        ]
      ]

module _ (j : Json) (now : Time) (n : ℕ) (m : FileSpoolManager) (d : Dict Bytes Node)
    (cp : Option Bytes) (c : Checkpoint) (contents : Bytes) (current : contents_of j cp ≡ ok c)
    (written : serialize_checkpoint j now (record { last_committed_seq = n; updated_at_utc = now })
      ≡ ok contents) where
  -- The world in which the write of the next checkpoint is cut short: `MkdirAll`, the read of the
  -- old file and the open, which empties it, work, and then no byte is written.
  abbrev pub cut_short : World
  cut_short = record {
    manager = m;
    disk = d;
    checkpoint_file = cp;
    faults = none ∷ none ∷ none ∷ some 0 ∷ [];
  }

  -- The checkpoint file reads as a checkpoint, and the next one can be serialized.
  -- An `AdvanceCheckpoint` to a later sequence number whose write stops at its first byte loses the
  -- old checkpoint: the file is empty from then on, and reading it is an error.
  pub advance_checkpoint-cut :
      c.last_committed_seq < n
      → (w : World) × (advance_checkpoint j now n cut_short ≡ (err io_failed, w))
        × (contents_of j w.checkpoint_file ≡ err checkpoint_empty_data)
  unfolding advance_checkpoint read_checkpoint write_checkpoint_file os_call
  advance_checkpoint-cut later =
      let newer : leb n c.last_committed_seq ≡ false = ground arith in
      (
        record { manager = m; disk = d; checkpoint_file = some []; faults = [] },
        rw (current, newer, written) refl,
        empty_file j,
      )
