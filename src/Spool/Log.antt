-- ===== src/Spool/Log.antt =====
-- The spool as a log: the segments on disk, and the records in them.
pub mod Disk
pub mod Steps
pub mod Laws
pub mod Reading
pub mod Restart
use plexplore.Prelude.{ℕ, suc, ◌+◌, ◌≤◌, ◌<◌, ◌≡◌, Option, none, some, List, [], ◌∷◌, ◌++◌, map}
use plexplore.Prelude.Dict.{Dict}
use plexplore.Ingest.Models.{SpoolRecord, Bytes}
use plexplore.Ingest.Json.{Json}
use plexplore.Spool.Segment.{segment_file_name}
use plexplore.Spool.World.{FileSpoolManager, World, Node, file}
use plexplore.Spool.Lines.{Written}

-- A segment: its start sequence number and its records.
abbrev pub Segment : Type 0
Segment = ℕ × List SpoolRecord

-- All records of the log, in the order of the segments.
abbrev pub contents : List Segment → List SpoolRecord
contents [] = []
contents ((start, rs) ∷ segs) = rs ++ contents segs

-- The directory holds these segment files and no others.
abbrev pub OnDisk : Json → List Segment → Dict Bytes Node → Type 0
OnDisk j [] disk = disk ≡ []
OnDisk j ((start, rs) ∷ segs) disk =
    (text : Bytes) × (others : Dict Bytes Node) × (disk
      ≡ (segment_file_name start, file text) ∷ others)
    × Written j rs text
    × OnDisk j segs others

-- The starts rise strictly, from `low` on and below `high`.
abbrev pub Ascending : ℕ → ℕ → List Segment → Type 0
Ascending low high [] = low ≤ high
Ascending low high ((start, rs) ∷ segs) =
    (low ≤ start) × (start < high) × Ascending (suc start) high segs

-- A world in which every further call of `os` works.
abbrev pub calm : FileSpoolManager → Dict Bytes Node → Option Bytes → World
calm m disk checkpoint = record {
  manager = m;
  disk = disk;
  checkpoint_file = checkpoint;
  faults = [];
}

-- The open segment, if there is one, is the last.
abbrev pub ActiveIsLast : Option Bytes → List Segment → Type 0
ActiveIsLast none segs = Unit {0}
ActiveIsLast (some name) segs =
    (closed : List Segment) × (start : ℕ) × (rs : List SpoolRecord) × (segs
      ≡ closed ++ (start, rs) ∷ [])
    × (name ≡ segment_file_name start)

-- The directory and the manager hold the log `segs`.
pub record IsLog (j : Json) (segs : List Segment) (m : FileSpoolManager) (disk : Dict Bytes Node)
    : Type 0 where
  pub on_disk : OnDisk j segs disk
  pub ascending : Ascending 0 m.next_seq segs
  pub active_last : ActiveIsLast m.active_file segs
