-- ===== src/Flusher/Durable.antt =====
-- What the flusher relies on of its store and its checkpoint, as an interface: a record once stored
-- stays, an insert that succeeds has stored its batch, the checkpoint rises no further than to what
-- is asked and never goes back, and what a replay needs is not compacted away.
use plexplore.Prelude.{ℕ, ◌≤◌, ◌<◌, ◌≡◌, List, Outcome, ok, some, All, String}
use plexplore.Ingest.Models.{SpoolRecord}
use plexplore.Flusher.{Backend}

-- What is seen of a state: whether the laws are about it, the records in the store, the checkpoint,
-- and the sequence numbers of the records that the spool has.
pub record View (S : Type 0) : Type 1 where
  pub Good : S → Type 0
  pub Stored : SpoolRecord → S → Type 0
  pub checkpoint : S → ℕ
  pub Spooled : ℕ → S → Type 0

pub record Durable {S : Type 0} (be : Backend S) (v : View S) : Type 0 where
  pub insert_good :
      (rs : List SpoolRecord) (s : S) → v.Good s → v.Good (be.insert_spool_batch rs s).1
  pub insert_keeps :
      (rs : List SpoolRecord) (s : S)
      → v.Good s
      → (r : SpoolRecord) → v.Stored r s
      → v.Stored r (be.insert_spool_batch rs s).1
  pub insert_stores :
      (rs : List SpoolRecord) (s : S) (n : ℕ)
      → v.Good s
      → (be.insert_spool_batch rs s).0 ≡ ok n
      → All (λ r. v.Stored r (be.insert_spool_batch rs s).1) rs
  -- The number that an insert returns is no higher than the batch's.
  pub insert_number :
      (rs : List SpoolRecord) (s : S) (n bound : ℕ)
      → v.Good s
      → (be.insert_spool_batch rs s).0 ≡ ok n
      → All (λ r. r.seq ≤ bound) rs
      → n ≤ bound
  pub insert_checkpoint :
      (rs : List SpoolRecord) (s : S)
      → v.Good s
      → v.checkpoint (be.insert_spool_batch rs s).1 ≡ v.checkpoint s
  pub insert_spooled :
      (rs : List SpoolRecord) (s : S)
      → v.Good s
      → (k : ℕ) → v.Spooled k s
      → v.Spooled k (be.insert_spool_batch rs s).1
  pub advance_good : (n : ℕ) (s : S) → v.Good s → v.Good (be.advance_checkpoint n s).1
  pub advance_keeps :
      (n : ℕ) (s : S)
      → v.Good s
      → (r : SpoolRecord) → v.Stored r s
      → v.Stored r (be.advance_checkpoint n s).1
  pub advance_bound :
      (n bound : ℕ) (s : S)
      → v.Good s
      → n ≤ bound
      → v.checkpoint s ≤ bound
      → v.checkpoint (be.advance_checkpoint n s).1 ≤ bound
  pub advance_rises :
      (n : ℕ) (s : S) → v.Good s → v.checkpoint s ≤ v.checkpoint (be.advance_checkpoint n s).1
  pub advance_spooled :
      (n : ℕ) (s : S)
      → v.Good s
      → (k : ℕ) → v.Spooled k s
      → v.Spooled k (be.advance_checkpoint n s).1
  pub compact_good :
      (run : S → Outcome String ℕ × S) (s : S) → be.compact ≡ some run → v.Good s → v.Good (run s).1
  pub compact_keeps :
      (run : S → Outcome String ℕ × S) (s : S)
      → be.compact ≡ some run
      → v.Good s
      → (r : SpoolRecord) → v.Stored r s
      → v.Stored r (run s).1
  pub compact_checkpoint :
      (run : S → Outcome String ℕ × S) (s : S)
      → be.compact ≡ some run
      → v.Good s
      → v.checkpoint (run s).1 ≡ v.checkpoint s
  -- A record past the checkpoint stays in the spool.
  pub compact_spooled :
      (run : S → Outcome String ℕ × S) (s : S)
      → be.compact ≡ some run
      → v.Good s
      → (k : ℕ) → v.checkpoint s < k
      → v.Spooled k s
      → v.Spooled k (run s).1
