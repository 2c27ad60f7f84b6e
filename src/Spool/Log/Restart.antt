-- ===== src/Spool/Log/Restart.antt =====
-- What a process that starts on an existing spool reads back, and what it writes.
use plexplore.Prelude.{
  ℕ, ◌+◌, ◌≤◌, ◌<◌, ◌≡◌, refl, ap, ◌∙◌, Option, some, List, [], ◌∷◌, ◌++◌, ok, arith, length, ltb,
  keep, All,
}
use plexplore.Prelude.Dict.{Dict}
use plexplore.Prelude.Int.{ℤ}
use plexplore.GoTime.{Time}
use plexplore.Float64.{FloatOps}
use plexplore.Ingest.Models.{CanonicalPoint, SpoolRecord, Bytes}
use plexplore.Ingest.Json.{Json, Lawful, Checkpoint}
use plexplore.Ingest.Hash.{Formats}
use plexplore.Text.{u64_mod}
use plexplore.Spool.World.{
  FileSpoolManager, FsyncMode, ManagerOptions, World, Node, new_file_spool_manager,
}
use plexplore.Spool.Append.{append_canonical_points, record_of}
use plexplore.Spool.Replay.{contents_of, replay_after_checkpoint}
use plexplore.Spool.Log.{Segment, contents, calm, IsLog}
use plexplore.Spool.Log.Laws.{CanSpool, records_of, append_canonical_points-calm}
use plexplore.Spool.Log.Reading.{replay_after_checkpoint-calm}

-- The world that the next process finds: the files as they are, and a manager of its own.
abbrev pub restarted : FileSpoolManager → World → World
restarted m w = record w { manager = m }

-- The records past a checkpoint.
abbrev pub past : Checkpoint → List SpoolRecord → List SpoolRecord
past c = keep λ r. ltb c.last_committed_seq r.seq

module _ (fl : FloatOps) (fmt : Formats) (j : Json) (now : Time) (cp : Option Bytes)
    (law : Lawful j) (c : Checkpoint) (checkpoint : contents_of j cp ≡ ok c) where
  -- Points that are appended to a log while no call of `os` fails are replayed by whatever manager
  -- reads the spool next: it returns exactly the records past the checkpoint, those of the log
  -- before those of the points. The codec is lawful, the checkpoint file reads as that checkpoint,
  -- the points have JSON texts, and the sequence numbers do not reach 2^64.
  pub replay-append :
      (ps : List CanonicalPoint) (segs : List Segment) (m m' : FileSpoolManager)
      (d : Dict Bytes Node) (mode : FsyncMode)
      → IsLog j segs m d
      → m.fsync_mode ≡ some mode
      → m.next_seq + length ps < u64_mod
      → All (CanSpool fl fmt j now cp) ps
      → (replay_after_checkpoint j
          (restarted m' (append_canonical_points fl fmt j now ps (calm m d cp)).1)).0
        ≡ ok (past c (contents segs ++ records_of fl fmt j now cp m.next_seq ps))
  replay-append ps segs m m' d mode log known k can =
      let done = append_canonical_points-calm fl fmt j now cp ps segs m d mode log known k can in
      ap (λ r. (replay_after_checkpoint j (restarted m' r.1)).0) done.result
      ∙ ap (λ r. r.0)
          (replay_after_checkpoint-calm j law m' cp done.manager.next_seq done.log done.disk c
            done.is_log.on_disk done.is_log.ascending (omega (arith, done.next)) checkpoint)
      ∙ ap (λ rs. ok (past c rs)) done.at_end

  past-records_of :
      (seq : ℕ) (ps : List CanonicalPoint)
      → seq + length ps ≤ c.last_committed_seq + 1
      → past c (records_of fl fmt j now cp seq ps) ≡ []
  unfolding record_of
  past-records_of seq [] h = refl
  past-records_of seq (p ∷ ps) h =
      let rest = past-records_of (seq + 1) ps (omega arith) in ground (arith, rest)

  -- A new manager starts its sequence numbers at 1. On a spool whose segments were all compacted,
  -- with a checkpoint of at least the number of points that it appends, none of these points is
  -- replayed, though no call of `os` fails, the codec is lawful and the points have JSON texts.
  pub restart_loses_appended :
      (ps : List CanonicalPoint) (max_bytes : ℤ) (options : ManagerOptions) (m' : FileSpoolManager)
      → length ps ≤ c.last_committed_seq
      → c.last_committed_seq + 1 < u64_mod
      → All (CanSpool fl fmt j now cp) ps
      → (replay_after_checkpoint j (
          restarted m'
            (append_canonical_points fl fmt j now ps
              (calm (new_file_spool_manager max_bytes options) [] cp)).1)).0
        ≡ ok []
  unfolding new_file_spool_manager
  restart_loses_appended ps max_bytes options m' short small can =
      replay-append ps [] (new_file_spool_manager max_bytes options) m' [] _
        (record { on_disk = refl; ascending = omega arith; active_last = tt }) refl (omega arith)
        can
      ∙ ap ok (past-records_of 1 ps (omega arith))
