-- ===== src/Tests/FlusherRuns.antt =====
-- The theorems on the flusher, over a store that takes one batch and then fails.
use plexplore.Prelude.{ℕ, ◌+◌, true, none, ok, err, arith, if◌then◌else◌, ltb}
use plexplore.Prelude.Int.{pos}
use plexplore.Flusher.{Backend, Config, State, flush_one_batch, flush_pass, flush_until_empty}
use plexplore.Flusher.Batch.{Took, flush_one_batch-items}
use plexplore.Flusher.Passes.{Ended, Passed, flush_until_empty-Ended, flush_pass-Passed}
use plexplore.Tests.Samples.{unary_json}
use plexplore.Tests.BufferRuns.{two_waiting, two_waiting-Accounts, two_waiting-CanEncode}

-- The state is the number of batches written; `limit` is the number that the store takes.
abbrev counting : ℕ → Backend ℕ
counting limit = record {
  insert_spool_batch = λ rs n. if ltb n limit then (ok 0, n + 1) else (err "full", n);
  advance_checkpoint = λ seq n. (ok tt, n);
  compact = none;
}

abbrev by_one : Config
by_one = record { flush_interval = pos 1; flush_batch_size = 1 }

abbrev two_left : State ℕ
two_left = record { buffer = two_waiting; world = 0 }

flush_one_batch-items_example :
    Took
      (counting 0)
      unary_json
      9
      by_one
      two_left
      (flush_one_batch (counting 0) unary_json 9 by_one two_left)
flush_one_batch-items_example =
    flush_one_batch-items (counting 0) unary_json 9 by_one two_left two_waiting-CanEncode

flush_until_empty-Ended_example :
    Ended
      (counting 1)
      unary_json
      9
      by_one
      two_left
      (flush_until_empty (counting 1) unary_json 9 by_one 3 two_left)
flush_until_empty-Ended_example =
    flush_until_empty-Ended (counting 1) unary_json 9 by_one 3 two_left (omega arith) (omega arith)
      two_waiting-CanEncode

flush_pass-Passed_example :
    Passed
      (counting 2)
      unary_json
      9
      by_one
      two_left
      (flush_pass (counting 2) unary_json 9 by_one 3 true two_left)
flush_pass-Passed_example =
    flush_pass-Passed (counting 2) unary_json 9 by_one 3 true two_left (omega arith) (omega arith)
      two_waiting-CanEncode two_waiting-Accounts
