-- ===== src/Spool/Deletion.antt =====
-- Which segments `CompactCommittedSegments` deletes.
use plexplore.Prelude.{
  ℕ, ◌≡◌, ◌≤◌, refl, inl, inr, ◌⊎◌, true, false, Option, some, List, [], ◌∷◌, ok, arith, ltb,
  if◌then◌else◌, Bool-cases, ltb→le, All,
}
use plexplore.Prelude.Dict
use plexplore.Prelude.Dict.{Dict}
use plexplore.Ingest.Models.{SpoolRecord, Bytes}
use plexplore.Ingest.Json.{Json, Lawful}
use plexplore.Spool.Segment.{segment_file_name}
use plexplore.Spool.World.{FileSpoolManager, Node, file, bytes_eq, remove_file}
use plexplore.Spool.Compaction.{max_seq_from, max_seq_of, is_active, compact_one}
use plexplore.Spool.Lines.{Written}
use plexplore.Spool.Log.{calm}
use plexplore.Spool.Log.Reading.{read_segment-calm}

max_seq_from-covers :
    (top : ℕ) (rs : List SpoolRecord)
    → (top ≤ max_seq_from top rs) × All (λ r. r.seq ≤ max_seq_from top rs) rs
unfolding max_seq_from
max_seq_from-covers top [] = (omega arith, tt)
max_seq_from-covers top (r ∷ rs) =
    let rest = max_seq_from-covers (if ltb top r.seq then r.seq else top) rs in
    (ground (arith, rest.0), (ground (arith, rest.0), rest.1))

All-weaken :
    (top bound : ℕ) (rs : List SpoolRecord)
    → top ≤ bound
    → All (λ r. r.seq ≤ top) rs
    → All (λ r. r.seq ≤ bound) rs
All-weaken top bound [] h a = tt
All-weaken top bound (r ∷ rs) h (a, as') = (omega arith, All-weaken top bound rs h as')

pub max_seq_of-covers :
    (start bound : ℕ) (rs : List SpoolRecord)
    → max_seq_of start rs ≤ bound
    → All (λ r. r.seq ≤ bound) rs
unfolding max_seq_of
max_seq_of-covers start bound [] h = tt
max_seq_of-covers start bound (r ∷ rs) h =
    let (first, rest) = max_seq_from-covers r.seq rs in
    (omega arith, All-weaken (max_seq_from r.seq rs) bound rs h rest)

-- A round of `CompactCommittedSegments` on a segment of records, when no call of `os` fails and the
-- codec is lawful: it keeps the segment and changes nothing, or it deletes its file, and then the
-- segment is not the writable one and the checkpoint covers every record in it.
pub compact_one-committed :
    (j : Json) (m : FileSpoolManager) (d : Dict Bytes Node) (cp : Option Bytes)
    (committed start : ℕ) (rs : List SpoolRecord) (text : Bytes)
    → Lawful j
    → Dict.lookup (segment_file_name start) d ≡ some (file text)
    → Written j rs text
    → (compact_one j committed start (calm m d cp) ≡ (ok false, calm m d cp))
      ⊎ ((is_active m start ≡ false)
          × All (λ r. r.seq ≤ committed) rs
          × (compact_one j committed start (calm m d cp)
              ≡ (ok true, calm m (Dict.erase (segment_file_name start) d) cp)))
unfolding compact_one remove_file
compact_one-committed j m d cp committed start rs text law found w =
    let reading = read_segment-calm j law m cp d start rs text found w in
    elim (Bool-cases (is_active m start)) [
      | inl writable ↦ inl (rw writable refl)
      | inr closed ↦ elim (Bool-cases (ltb committed start)) [
        | inl later ↦ inl (rw (closed, later) refl)
        | inr started ↦ elim (Bool-cases (ltb committed (max_seq_of start rs))) [
          | inl above ↦ inl (rw (closed, started, reading, above) refl)
          | inr covered ↦ inr (
            closed,
            max_seq_of-covers start committed rs (ltb→le committed (max_seq_of start rs) covered),
            rw (closed, started, reading, covered, found) refl,
          )
        ]
      ]
    ]
