-- ===== src/Flusher.antt =====
-- internal/flusher/flusher.go. The store and the checkpoint manager are the interface `Backend`,
-- over a state `S` of their own; the buffer is the one of internal/buffer. `now` is the clock
-- during one call. The goroutine of `run` is the function `handle` of one event of its `select`.
pub mod Batch
pub mod Passes
pub mod Durable
pub mod Commit
pub mod Safety
pub mod Events
pub mod Sound
pub mod Runs
use plexplore.Prelude.{
  ℕ, zero, suc, ◌+◌, String, Bool, true, false, Option, none, some, List, [], ◌∷◌, map, Outcome, ok,
  err, ltb, leb, ◌==◌, ◌&&◌, not, max, if◌then◌else◌, ◌||◌, ◌*◌,
}
use plexplore.Prelude.Int.{ℤ, pos, leb_ℤ, pos_part}
use plexplore.GoTime.{Time, Duration, second}
use plexplore.Ingest.Models.{SpoolRecord}
use plexplore.Ingest.Json.{Json}
use plexplore.Buffer.{Manager, drain_batch, requeue_front}

-- `Store`, `CheckpointManager` and `SpoolCompactor`; the errors are their texts. `compact` is
-- `none` where the checkpoint manager is no `SpoolCompactor`.
pub record Backend (S : Type 0) : Type 0 where
  pub insert_spool_batch : List SpoolRecord → S → Outcome String ℕ × S
  pub advance_checkpoint : ℕ → S → Outcome String (Unit {0}) × S
  pub compact : Option (S → Outcome String ℕ × S)

pub record Config : Type 0 where
  pub flush_interval : Duration
  pub flush_batch_size : ℕ

-- The defaults of `New`.
unfoldable pub new_config : Duration → ℤ → Config
new_config interval batch_size = record {
  flush_interval = if leb_ℤ interval (pos 0) then pos (10 * second) else interval;
  flush_batch_size = if leb_ℤ batch_size (pos 0) then 128 else pos_part batch_size;
}

pub record LastFlushResult : Type 0 where
  pub at_utc : Time
  pub last_success_at_utc : Time
  pub success : Bool
  pub error : String

-- The state that a flush pass works on.
pub record State (S : Type 0) : Type 0 where
  pub buffer : Manager
  pub world : S

pub record Flusher (S : Type 0) : Type 0 where
  pub state : State S
  pub started : Bool
  pub stopped : Bool
  pub done : Bool
  pub triggered : Bool
  pub last_result : Option LastFlushResult
  pub last_success_at : Time

-- `splitWriteAndCheckpointBatch`: the records to write, and the highest sequence number of all.
unfoldable pub split_batch : List SpoolRecord → ℕ → List SpoolRecord × ℕ
split_batch [] max_seq = ([], max_seq)
split_batch (r ∷ rs) max_seq =
    let (write, top) = split_batch rs (if ltb max_seq r.seq then r.seq else max_seq) in
    (if r.checkpoint_only then write else r ∷ write, top)

-- The cases of the `select` in `run`.
pub data Event : Type 0 where
  tick trigger stop : Event

module _ {S : Type 0} (be : Backend S) (j : Json) (now : Time) (cfg : Config) where
  -- `InsertSpoolBatch` of a batch that is not empty, and the sequence number to commit.
  unfoldable pub write_batch : List SpoolRecord → ℕ → S → Outcome String ℕ × S
  write_batch [] max_seq s = (ok max_seq, s)
  write_batch (r ∷ rs) max_seq s =
      let (result, s') = be.insert_spool_batch (r ∷ rs) s in
      (
        elim result [
          | ok committed ↦ ok (if ltb max_seq committed then committed else max_seq)
          | err e ↦ err e
        ],
        s',
      )

  -- Compaction is best effort: its error is only logged.
  unfoldable pub compact_best_effort : S → S
  compact_best_effort s = elim be.compact [ none ↦ s | some run ↦ (run s).1 ]

  unfoldable pub advance : ℕ → S → Outcome String (Unit {0}) × S
  advance zero s = (ok tt, s)
  advance (suc n) s =
      let (result, s') = be.advance_checkpoint (suc n) s in
      elim result [ ok _ ↦ (ok tt, compact_best_effort s') | err e ↦ (err e, s') ]

  unfoldable pub commit_batch : List SpoolRecord → S → Outcome String (Unit {0}) × S
  commit_batch batch s =
      let (write, max_seq) = split_batch batch 0 in
      let (written, s') = write_batch write max_seq s in
      elim written [ ok top ↦ advance top s' | err e ↦ (err e, s') ]

  -- Of a batch that is not empty: both errors put the batch back.
  finish_batch :
      List SpoolRecord → Manager → Outcome String (Unit {0}) × S → Outcome String Bool × State S
  finish_batch batch m (ok _, s) = (ok true, record { buffer = m; world = s })
  finish_batch batch m (err e, s) =
      (err e, record { buffer = (requeue_front j now m batch).1; world = s })

  after_drain : List SpoolRecord → Manager → S → Outcome String Bool × State S
  after_drain [] m s = (ok false, record { buffer = m; world = s })
  after_drain (r ∷ rs) m s = finish_batch (r ∷ rs) m (commit_batch (r ∷ rs) s)

  -- `flushOneBatch` as one step. The code holds the lock of the buffer only in `DrainBatch` and in
  -- `RequeueFront`, so a handler can enqueue between the two; such a call is not modelled here.
  unfoldable pub flush_one_batch : State S → Outcome String Bool × State S
  unfolding after_drain finish_batch
  flush_one_batch st =
      let (batch, m) = drain_batch cfg.flush_batch_size st.buffer in after_drain batch m st.world

  -- The loop of `flushPass`; `none` means that the fuel ran out.
  unfoldable pub flush_loop : ℕ → State S → Option (Outcome String (Unit {0}) × State S)
  flush_loop zero st = none
  flush_loop (suc fuel) st =
      let (flushed, st') = flush_one_batch st in
      let again = flush_loop fuel st' in
      elim flushed [
        | err e ↦ some (err e, st')
        | ok more ↦
            if not more
              || st'.buffer.total_points == 0
              || ltb st'.buffer.total_points cfg.flush_batch_size
            then some (ok tt, st')
            else again
      ]

  unfoldable pub flush_pass : ℕ → Bool → State S → Option (Outcome String (Unit {0}) × State S)
  flush_pass fuel timer_mode st =
      if st.buffer.total_points == 0
      then some (ok tt, st)
      else if not timer_mode && ltb st.buffer.total_points cfg.flush_batch_size
      then some (ok tt, st)
      else flush_loop fuel st

  unfoldable pub flush_until_empty : ℕ → State S → Option (Outcome String (Unit {0}) × State S)
  flush_until_empty zero st = none
  flush_until_empty (suc fuel) st =
      let (flushed, st') = flush_one_batch st in
      let again = flush_until_empty fuel st' in
      elim flushed [
        | err e ↦ some (err e, st')
        | ok more ↦ if more then again else some (ok tt, st')
      ]

  unfoldable pub record_flush_result : Outcome String (Unit {0}) → Flusher S → Flusher S
  record_flush_result (ok _) f = record f {
    last_success_at = now;
    last_result =
        some (record { at_utc = now; last_success_at_utc = now; success = true; error = "" });
  }
  record_flush_result (err e) f = record f {
    last_result = some (record {
      at_utc = now;
      last_success_at_utc = f.last_success_at;
      success = false;
      error = e;
    });
  }

  -- A pass whose result is recorded.
  unfoldable pub recorded :
      Flusher S
      → Option (Outcome String (Unit {0}) × State S)
      → Option (Outcome String (Unit {0}) × Flusher S)
  recorded f none = none
  recorded f (some (result, st)) =
      some (result, record_flush_result result (record f { state = st }))

  unfoldable pub flush_now : ℕ → Flusher S → Option (Outcome String (Unit {0}) × Flusher S)
  unfolding recorded record_flush_result
  flush_now fuel f = recorded f (flush_pass fuel true f.state)

  -- One round of the loop of `run`. A `trigger` is received only when one is in the channel; after
  -- `stop` the goroutine has returned.
  unfoldable pub finish : Option (Outcome String (Unit {0}) × Flusher S) → Flusher S → Flusher S
  finish none f = f
  finish (some (_, f')) f = f'

  unfoldable pub handle : ℕ → Event → Flusher S → Flusher S
  unfolding recorded record_flush_result finish
  handle fuel tick f = if f.done then f else finish (recorded f (flush_pass fuel true f.state)) f
  handle fuel trigger f =
      if f.done || not f.triggered
      then f
      else let f' = record f { triggered = false } in
        finish (recorded f' (flush_pass fuel false f.state)) f'
  handle fuel stop f =
      if f.done
      then f
      else finish
          (recorded (record f { stopped = true; done = true }) (flush_until_empty fuel f.state)) f

-- `TriggerFlush`: the channel holds one request, and a further one is dropped.
unfoldable pub trigger_flush : {S : Type 0} → Flusher S → Flusher S
trigger_flush f = record f { triggered = true }
