-- ===== src/Buffer/Reachable.antt =====
-- The buffers that the calls of the program reach from a new one.
use plexplore.Prelude.{ℕ, ◌≡◌, refl, List, ok, arith}
use plexplore.Prelude.Dict
use plexplore.Prelude.Int.{ℤ}
use plexplore.GoTime.{Time, Duration}
use plexplore.Float64.{Float64, FloatOps}
use plexplore.Ingest.Models.{SpoolRecord}
use plexplore.Ingest.Json.{Json}
use plexplore.Buffer.{Manager, new_manager_with_dedupe, enqueue, drain_batch, requeue_front}
use plexplore.Buffer.Accounts.{
  Accounts, enqueue-Accounts, drain_batch-Accounts, requeue_front-Accounts,
}

-- Any sequence of calls on a new buffer, in which a requeue succeeds.
pub data Reachable (fl : FloatOps) (j : Json) : Manager → Type 0 where
  start :
      (points bytes : ℤ) (delta : Duration) (distance : Float64)
      → Reachable fl j (new_manager_with_dedupe fl points bytes delta distance)
  enqueued :
      {m : Manager}
      → (now : Time) (rs : List SpoolRecord) → Reachable fl j m
      → Reachable fl j (enqueue fl j now m rs).1
  drained : {m : Manager} → (n : ℕ) → Reachable fl j m → Reachable fl j (drain_batch n m).1
  requeued :
      {m : Manager}
      → (now : Time) (rs : List SpoolRecord) → (requeue_front j now m rs).0 ≡ ok tt
      → Reachable fl j m
      → Reachable fl j (requeue_front j now m rs).1

-- In every buffer that is reached from a new one by calls of `Enqueue`, of `DrainBatch` and of
-- `RequeueFront` that return nil, the totals of points and bytes and the count of each device are
-- those of the queue.
pub Reachable-Accounts :
    (fl : FloatOps) (j : Json) (m : Manager) → Reachable fl j m → Accounts m m.queue
unfolding new_manager_with_dedupe Dict.lookup
Reachable-Accounts fl j _ (start points bytes delta distance) = record {
  points = refl;
  bytes = refl;
  counts = λ id. ground arith;
}
Reachable-Accounts fl j _ (enqueued {m = m} now rs h) =
    enqueue-Accounts fl j now m rs (Reachable-Accounts fl j m h)
Reachable-Accounts fl j _ (drained {m = m} n h) =
    drain_batch-Accounts n m (Reachable-Accounts fl j m h)
Reachable-Accounts fl j _ (requeued {m = m} now rs e h) =
    requeue_front-Accounts j now m rs (Reachable-Accounts fl j m h) e
