-- ===== src/Tests/BufferRuns.antt =====
-- The theorems on the buffer, at a buffer of two records.
use plexplore.Prelude.{
  ℕ, ◌≡◌, ◌+◌, refl, String, some, [], ◌∷◌, ◌++◌, ok, err, arith, All, leb, ◌&&◌, not, ◌⊎◌,
  string_eq,
}
use plexplore.Prelude.Int.{pos}
use plexplore.GoTime.{is_zero}
use plexplore.Prelude.Dict
use plexplore.Prelude.Dict.{Dict}
use plexplore.Buffer.{
  new_manager_with_dedupe, Error, Manager, Entry, DedupeState, items, enqueue, drain_batch,
  requeue_front, filter_near_duplicates, is_near_duplicate, haversine_meters,
}
use plexplore.Buffer.Accounts.{Accounts}
use plexplore.Buffer.Reachable.{start, enqueued, drained, Reachable-Accounts}
use plexplore.Buffer.Limits.{WithinLimits, enqueue-WithinLimits}
use plexplore.Buffer.Fifo.{CanEncode, seqs, enqueue_all_or_nothing, requeue-drain}
use plexplore.Buffer.Dedupe.{near_duplicate_exact, near_duplicate_wraps}
use plexplore.Tests.Samples.{whole_numbers, at_home, unary_json}

abbrev waiting : ℕ → ℕ → Entry
waiting seq size = record { item = at_home seq; size_bytes = size; enqueued_at = 5 }

-- Two records wait; the limits leave room for one more.
abbrev pub two_waiting : Manager
two_waiting = record {
  max_points = 3;
  max_bytes = 100;
  total_points = 2;
  total_bytes = 9;
  queue = waiting 1 4 ∷ waiting 2 5 ∷ [];
  device_counts = ("phone", 2) ∷ [];
  last_by_device = [];
  dedupe_time = pos 0;
  dedupe_dist_m = 0;
}

pub two_waiting-Accounts : Accounts two_waiting two_waiting.queue
unfolding Dict.lookup
two_waiting-Accounts = record { points = refl; bytes = refl; counts = λ id. ground arith }

pub two_waiting-CanEncode : All (CanEncode unary_json) (items two_waiting)
two_waiting-CanEncode = ((_, refl), ((_, refl), tt))

enqueue_all_or_nothing_example :
    let (result, m') = enqueue whole_numbers unary_json 6 two_waiting (at_home 3 ∷ []) in
    (((e : Error) × (result ≡ err e)) × (m' ≡ two_waiting))
    ⊎ ((result ≡ ok tt)
        × (items m'
            ≡ items two_waiting
              ++ (filter_near_duplicates whole_numbers two_waiting (at_home 3 ∷ [])).0)
        × (seqs (items m') ≡ seqs (items two_waiting) ++ seqs (at_home 3 ∷ [])))
enqueue_all_or_nothing_example =
    enqueue_all_or_nothing whole_numbers unary_json 6 two_waiting (at_home 3 ∷ [])

enqueue-WithinLimits_example :
    WithinLimits (enqueue whole_numbers unary_json 6 two_waiting (at_home 3 ∷ at_home 4 ∷ [])).1
enqueue-WithinLimits_example =
    enqueue-WithinLimits whole_numbers unary_json 6 two_waiting (at_home 3 ∷ at_home 4 ∷ [])
      (record { points = omega arith; bytes = omega arith })

drained_CanEncode : All (CanEncode unary_json) (drain_batch 1 two_waiting).0
unfolding drain_batch
drained_CanEncode = ((_, refl), tt)

requeue-drain_example :
    items (requeue_front unary_json 6 (drain_batch 1 two_waiting).1 (drain_batch 1 two_waiting).0).1
    ≡ items two_waiting
requeue-drain_example = requeue-drain unary_json 6 1 two_waiting drained_CanEncode

-- The last kept point of the phone, at the same place and a second later, or 300 years later.
abbrev kept_at : ℕ → DedupeState
kept_at t = record { timestamp_utc = t; lat = 50; lon = 8 }

abbrev kept : ℕ → Dict String DedupeState
kept t = ("phone", kept_at t) ∷ []

kept_found : (t : ℕ) → Dict.lookup "phone" (kept t) ≡ some (kept_at t)
unfolding Dict.lookup
kept_found t = refl

near_duplicate_exact_example :
    is_near_duplicate whole_numbers (at_home 1) (kept 1_500) (pos 600) 10 ≡ (
      (not (is_zero 1_000) && not (is_zero 1_500))
      && (leb 1_000 (1_500 + 600) && leb 1_500 (1_000 + 600))
      && leb (haversine_meters whole_numbers 50 8 50 8) 10)
near_duplicate_exact_example =
    near_duplicate_exact whole_numbers (at_home 1) (kept 1_500) (kept_at 1_500) 600 10
      (kept_found 1_500) (omega arith) (omega arith)

near_duplicate_wraps_example :
    is_near_duplicate whole_numbers (at_home 1) (kept 9_500_000_000_000_000_000) (pos 600) 10
    ≡ leb (haversine_meters whole_numbers 50 8 50 8) 10
near_duplicate_wraps_example =
    near_duplicate_wraps whole_numbers (at_home 1) (kept 9_500_000_000_000_000_000)
      (kept_at 9_500_000_000_000_000_000) 600 10 (kept_found 9_500_000_000_000_000_000)
      (omega arith) (omega arith) (omega arith)

abbrev empty : Manager
empty = new_manager_with_dedupe whole_numbers (pos 10) (pos 1_000) (pos 0) 0

abbrev one_left : Manager
one_left =
    (drain_batch 1 (enqueue whole_numbers unary_json 6 empty (at_home 3 ∷ at_home 4 ∷ [])).1).1

Reachable-Accounts_example : Accounts one_left one_left.queue
Reachable-Accounts_example =
    Reachable-Accounts whole_numbers unary_json one_left
      (drained 1 (enqueued 6 (at_home 3 ∷ at_home 4 ∷ []) (start (pos 10) (pos 1_000) (pos 0) 0)))
