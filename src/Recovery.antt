-- ===== src/Recovery.antt =====
-- internal/tasks/startup_recovery.go: the spool past the checkpoint goes through the buffer before
-- the server takes requests. The spool is the interface `ReplaySource`, over the flusher's state
-- `S`; `none` means that the fuel of a flush, or of the loop, ran out. The arguments are not nil.
use plexplore.Prelude.{
  ℕ, zero, suc, ◌+◌, String, Option, none, some, List, [], ◌∷◌, Outcome, ok, err, length, take,
  drop, if◌then◌else◌,
}
use plexplore.Prelude.Int.{ℤ, pos, leb_ℤ, pos_part}
use plexplore.GoTime.{Time}
use plexplore.Float64.{FloatOps}
use plexplore.Ingest.Models.{SpoolRecord}
use plexplore.Ingest.Json.{Json}
use plexplore.Buffer.{
  Error, Manager, max_points_exceeded, max_bytes_exceeded, estimate_failed, enqueue,
}
use plexplore.Flusher.{Backend, Config, Flusher, flush_now}

-- The methods of `SpoolManager` that the recovery calls; a checkpoint is its sequence number.
pub record ReplaySource (S : Type 0) : Type 0 where
  pub read_checkpoint : S → Outcome String ℕ × S
  pub replay_after_checkpoint : S → Outcome String (List SpoolRecord) × S

pub record RecoveryResult : Type 0 where
  pub checkpoint_seq : ℕ
  pub replayed : ℕ
  pub enqueued : ℕ

-- The stages of the call, as the prefixes of its errors.
pub data RecoveryError : Type 0 where
  read_checkpoint_failed replay_failed flush_failed final_flush_failed : String → RecoveryError
  enqueue_failed enqueue_after_flush_failed : Error → RecoveryError

-- The default of `EnqueueBatchSize`.
unfoldable pub enqueue_batch_size : ℤ → ℕ
enqueue_batch_size n = if leb_ℤ n (pos 0) then 64 else pos_part n

module _ {S : Type 0} (fl : FloatOps) (be : Backend S) (src : ReplaySource S) (j : Json)
    (now : Time) (cfg : Config) where
  abbrev with_buffer : Manager → Flusher S → Flusher S
  with_buffer m f = record f { state = record (f.state) { buffer = m } }

  abbrev with_world : S → Flusher S → Flusher S
  with_world s f = record f { state = record (f.state) { world = s } }

  -- The second try of a chunk, after a flush.
  retry_chunk : List SpoolRecord → Flusher S → Outcome RecoveryError (Unit {0}) × Flusher S
  retry_chunk chunk f =
      let (result, m) = enqueue fl j now f.state.buffer chunk in
      (elim result [ ok _ ↦ ok tt | err e ↦ err (enqueue_after_flush_failed e) ], with_buffer m f)

  after_flush :
      List SpoolRecord
      → Option (Outcome String (Unit {0}) × Flusher S)
      → Option (Outcome RecoveryError (Unit {0}) × Flusher S)
  after_flush chunk none = none
  after_flush chunk (some (err e, f)) = some (err (flush_failed e), f)
  after_flush chunk (some (ok _, f)) = some (retry_chunk chunk f)

  on_full :
      ℕ
      → List SpoolRecord
      → Error
      → Flusher S
      → Option (Outcome RecoveryError (Unit {0}) × Flusher S)
  on_full fuel chunk max_points_exceeded f = after_flush chunk (flush_now be j now cfg fuel f)
  on_full fuel chunk max_bytes_exceeded f = after_flush chunk (flush_now be j now cfg fuel f)
  on_full fuel chunk estimate_failed f = some (err (enqueue_failed estimate_failed), f)

  -- One round of the loop over the replayed records.
  unfoldable pub enqueue_chunk :
      ℕ → List SpoolRecord → Flusher S → Option (Outcome RecoveryError (Unit {0}) × Flusher S)
  unfolding on_full after_flush retry_chunk
  enqueue_chunk fuel chunk f =
      let (result, m) = enqueue fl j now f.state.buffer chunk in
      elim result [
        | ok _ ↦ some (ok tt, with_buffer m f)
        | err e ↦ on_full fuel chunk e (with_buffer m f)
      ]

  -- The loop, with the count of the enqueued records.
  unfoldable pub enqueue_all :
      ℕ → ℕ → ℕ → List SpoolRecord → ℕ → Flusher S → Option (Outcome RecoveryError ℕ × Flusher S)
  enqueue_all rounds fuel batch [] enqueued f = some (ok enqueued, f)
  enqueue_all zero fuel batch (r ∷ rs) enqueued f = none
  enqueue_all (suc rounds) fuel batch (r ∷ rs) enqueued f =
      let chunk = take batch (r ∷ rs) in
      elim (enqueue_chunk fuel chunk f) [
        | none ↦ none
        | some (err e, f') ↦ some (err e, f')
        | some (ok _, f') ↦
            enqueue_all rounds fuel batch (drop batch (r ∷ rs)) (enqueued + length chunk) f'
      ]

  after_final_flush :
      RecoveryResult
      → Option (Outcome String (Unit {0}) × Flusher S)
      → Option (Outcome RecoveryError RecoveryResult × Flusher S)
  after_final_flush result none = none
  after_final_flush result (some (ok _, f)) = some (ok result, f)
  after_final_flush result (some (err e, f)) = some (err (final_flush_failed e), f)

  after_loop :
      ℕ
      → ℕ
      → ℕ
      → Option (Outcome RecoveryError ℕ × Flusher S)
      → Option (Outcome RecoveryError RecoveryResult × Flusher S)
  unfolding after_final_flush
  after_loop fuel checkpoint replayed none = none
  after_loop fuel checkpoint replayed (some (err e, f)) = some (err e, f)
  after_loop fuel checkpoint replayed (some (ok enqueued, f)) =
      after_final_flush
        (record { checkpoint_seq = checkpoint; replayed = replayed; enqueued = enqueued })
        (flush_now be j now cfg fuel f)

  -- The rest of the call, once the spool is read. Nothing is flushed where nothing was replayed.
  recover_records :
      ℕ
      → ℕ
      → ℕ
      → List SpoolRecord
      → Flusher S
      → Option (Outcome RecoveryError RecoveryResult × Flusher S)
  unfolding after_loop
  recover_records fuel batch checkpoint [] f =
      some (ok (record { checkpoint_seq = checkpoint; replayed = 0; enqueued = 0 }), f)
  recover_records fuel batch checkpoint (r ∷ rs) f =
      after_loop fuel checkpoint (length (r ∷ rs))
        (enqueue_all (length (r ∷ rs)) fuel batch (r ∷ rs) 0 f)

  after_replay :
      ℕ
      → ℕ
      → ℕ
      → Flusher S
      → Outcome String (List SpoolRecord) × S
      → Option (Outcome RecoveryError RecoveryResult × Flusher S)
  unfolding recover_records
  after_replay fuel batch checkpoint f (err e, s) = some (err (replay_failed e), with_world s f)
  after_replay fuel batch checkpoint f (ok records, s) =
      recover_records fuel batch checkpoint records (with_world s f)

  after_checkpoint :
      ℕ
      → ℕ
      → Flusher S
      → Outcome String ℕ × S
      → Option (Outcome RecoveryError RecoveryResult × Flusher S)
  unfolding after_replay
  after_checkpoint fuel batch f (err e, s) = some (err (read_checkpoint_failed e), with_world s f)
  after_checkpoint fuel batch f (ok checkpoint, s) =
      after_replay fuel batch checkpoint (with_world s f) (src.replay_after_checkpoint s)

  -- `RecoverFromSpool`
  unfoldable pub recover_from_spool :
      ℕ → ℤ → Flusher S → Option (Outcome RecoveryError RecoveryResult × Flusher S)
  unfolding after_checkpoint
  recover_from_spool fuel batch_size f =
      after_checkpoint fuel (enqueue_batch_size batch_size) f (src.read_checkpoint f.state.world)
