-- ===== src/Spool/Log/Reading.antt =====
-- Replay of a log, when no call of `os` fails.
use plexplore.Prelude.{
  ℕ, suc, ◌≤◌, ◌≡◌, refl, sym, ap, ◌∙◌, Option, some, List, [], ◌∷◌, ok, arith, ltb, keep,
  keep-append, le→leb,
}
use plexplore.Prelude.Dict
use plexplore.Prelude.Dict.{Dict}
use plexplore.Ingest.Models.{SpoolRecord, Bytes}
use plexplore.Ingest.Json.{Json, Lawful, Checkpoint}
use plexplore.Text.{u64_mod}
use plexplore.Spool.Segment.{segment_file_name, parse-segment_file_name}
use plexplore.Spool.World.{FileSpoolManager, Node, file, bytes_eq, file_names, read_dir}
use plexplore.Spool.Replay.{
  contents_of, read_checkpoint, insert_sorted, sort, starts_of, list_segment_starts,
  read_segment_file, replay_segments, replay_after_checkpoint,
}
use plexplore.Spool.Lines.{Written, decode-Written}
use plexplore.Spool.Log.{Segment, OnDisk, Ascending, contents, calm}
use plexplore.Spool.Log.Disk.{Readable, OnDisk-Readable}

abbrev pub starts : List Segment → List ℕ
starts [] = []
starts ((s, rs) ∷ segs) = s ∷ starts segs

starts_of-OnDisk :
    (j : Json) (low high : ℕ) (segs : List Segment) (d : Dict Bytes Node)
    → OnDisk j segs d
    → Ascending low high segs
    → high ≤ u64_mod
    → starts_of (file_names d) ≡ starts segs
unfolding starts_of file_names
starts_of-OnDisk j low high [] d o a k = rw o refl
starts_of-OnDisk j low high ((s, rs) ∷ segs) d (text, others, shape, w, o) a k =
    ap (λ x. starts_of (file_names x)) shape
    ∙ rw (parse-segment_file_name s (omega arith), starts_of)
        (ap (◌∷◌ s) (starts_of-OnDisk j (suc s) high segs others o a.2 k))

sort-starts :
    (low high : ℕ) (segs : List Segment)
    → Ascending low high segs
    → sort (starts segs) ≡ starts segs
unfolding sort insert_sorted
sort-starts low high [] a = refl
sort-starts low high ((s, rs) ∷ []) a = refl
sort-starts low high ((s, rs) ∷ (t, qs) ∷ segs) a =
    ap (insert_sorted s) (sort-starts (suc s) high ((t, qs) ∷ segs) a.2)
    ∙ rw (le→leb s t (omega arith), insert_sorted) refl

module _ (j : Json) (law : Lawful j) (m : FileSpoolManager) (cp : Option Bytes) where
  list_segment_starts-calm :
      (high : ℕ) (segs : List Segment) (d : Dict Bytes Node)
      → OnDisk j segs d
      → Ascending 0 high segs
      → high ≤ u64_mod
      → list_segment_starts (calm m d cp) ≡ (ok (starts segs), calm m d cp)
  unfolding list_segment_starts read_dir
  list_segment_starts-calm high segs d o a k =
      rw (starts_of-OnDisk j 0 high segs d o a k, sort-starts 0 high segs a) refl

  pub read_segment-calm :
      (d : Dict Bytes Node) (s : ℕ) (rs : List SpoolRecord) (text : Bytes)
      → Dict.lookup (segment_file_name s) d ≡ some (file text)
      → Written j rs text
      → read_segment_file j (segment_file_name s) (calm m d cp) ≡ (ok rs, calm m d cp)
  unfolding read_segment_file
  read_segment-calm d s rs text found w =
      rw (found, read_segment_file) (rw (decode-Written j rs text law w) refl)

  replay_segments-calm :
      (committed : ℕ) (segs : List Segment) (d : Dict Bytes Node)
      → Readable j segs d
      → replay_segments j committed (starts segs) (calm m d cp)
        ≡ (ok (keep (λ r. ltb committed r.seq) (contents segs)), calm m d cp)
  unfolding replay_segments
  replay_segments-calm committed [] d h = refl
  replay_segments-calm committed ((s, rs) ∷ segs) d ((text, found, w), rest) =
      rw
        (
          read_segment-calm d s rs text found w,
          replay_segments,
          replay_segments-calm committed segs d rest,
        )
        (ap (λ xs. (ok xs, calm m d cp))
          (sym (keep-append (λ r. ltb committed r.seq) rs (contents segs))))

  pub read_checkpoint-calm :
      (d : Dict Bytes Node) (c : Checkpoint)
      → contents_of j cp ≡ ok c
      → read_checkpoint j (calm m d cp) ≡ (ok c, calm m d cp)
  unfolding read_checkpoint
  read_checkpoint-calm d c e = ap (λ r. (r, calm m d cp)) e

  -- When no call of `os` fails, the codec is lawful and the checkpoint file reads as a checkpoint,
  -- `ReplayAfterCheckpoint` on the segments of a log returns their records past the checkpoint, in
  -- order, and changes nothing, whatever the manager's fields are.
  pub replay_after_checkpoint-calm :
      (high : ℕ) (segs : List Segment) (d : Dict Bytes Node) (c : Checkpoint)
      → OnDisk j segs d
      → Ascending 0 high segs
      → high ≤ u64_mod
      → contents_of j cp ≡ ok c
      → replay_after_checkpoint j (calm m d cp)
        ≡ (ok (keep (λ r. ltb c.last_committed_seq r.seq) (contents segs)), calm m d cp)
  unfolding replay_after_checkpoint
  replay_after_checkpoint-calm high segs d c o a k e =
      rw
        (
          read_checkpoint-calm d c e,
          replay_after_checkpoint,
          list_segment_starts-calm high segs d o a k,
        )
        (replay_segments-calm c.last_committed_seq segs d (OnDisk-Readable j 0 high segs d o a k))
