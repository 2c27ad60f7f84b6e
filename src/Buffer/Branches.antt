-- ===== src/Buffer/Branches.antt =====
-- `Enqueue` by its branches: refused with nothing changed, or every filtered record appended
-- within the limits.
use mathlib.Core.List.{foldl}
use plexplore.Prelude.{
  ℕ, ◌+◌, ◌≤◌, ◌≡◌, refl, ◌⊎◌, inl, inr, String, Option, none, some, List, [], ◌∷◌, ◌++◌, arith,
  Outcome, ok, err, length, ltb, Option-cases, Outcome-cases, Bool-cases,
}
use plexplore.Prelude.Dict.{Dict}
use plexplore.GoTime.{Time}
use plexplore.Float64.{FloatOps}
use plexplore.Ingest.Models.{SpoolRecord}
use plexplore.Ingest.Json.{Json}
use plexplore.Buffer.{
  Error, max_points_exceeded, max_bytes_exceeded, merge_states, Manager, DedupeState, push_back,
  admit, enqueue_filtered, enqueue, incoming_bytes, filter_near_duplicates, dedupe_loop,
  requeue_loop, requeue_front, Entry, entry, count_in, estimate_record_bytes,
}

-- The filtered records are within the limits of the buffer.
abbrev pub Fits : Json → Manager → List SpoolRecord → Type 0
Fits j m rs =
    (incoming : ℕ) × (incoming_bytes j rs ≡ some incoming)
    × (m.total_points + length rs ≤ m.max_points)
    × (m.total_bytes + incoming ≤ m.max_bytes)

abbrev pub Enqueued :
    Json → Time → Manager → List SpoolRecord → Outcome Error (Unit {0}) × Manager → Type 0
Enqueued j now m rs r =
    ((e : Error) × (r ≡ (err e, m)))
    ⊎ ((last : Dict String DedupeState) × (r
          ≡ (ok tt, record (foldl (push_back j now) m rs) { last_by_device = last }))
        × ((rs ≡ []) ⊎ Fits j m rs))

admit_cases :
    (j : Json) (now : Time) (m : Manager) (rs : List SpoolRecord) (next : Dict String DedupeState)
    (o : Option ℕ)
    → incoming_bytes j rs ≡ o
    → Enqueued j now m rs (admit j now m rs next o)
unfolding admit
admit_cases j now m rs next none h = inl (_, refl)
admit_cases j now m rs next (some incoming) h =
    elim (Bool-cases (ltb m.max_points (m.total_points + length rs))) [
      | inl over ↦ inl (max_points_exceeded, rw over)
      | inr fits ↦ elim (Bool-cases (ltb m.max_bytes (m.total_bytes + incoming))) [
        | inl over ↦ inl (max_bytes_exceeded, rw (fits, over))
        | inr room ↦ inr (
          merge_states (foldl (push_back j now) m rs).last_by_device next,
          rw (fits, room),
          inr (incoming, h, ground arith, ground arith),
        )
      ]
    ]

enqueue_filtered_cases :
    (j : Json) (now : Time) (m : Manager) (rs : List SpoolRecord) (next : Dict String DedupeState)
    → Enqueued j now m rs (enqueue_filtered j now m rs next)
unfolding enqueue_filtered
enqueue_filtered_cases j now m [] next = inr (m.last_by_device, refl, inl refl)
enqueue_filtered_cases j now m (r ∷ rs) next = admit_cases j now m (r ∷ rs) next _ refl

pub filter_nil : (fl : FloatOps) (m : Manager) → (filter_near_duplicates fl m []).0 ≡ []
unfolding filter_near_duplicates dedupe_loop
filter_nil fl m = ground arith

pub enqueue_cases :
    (fl : FloatOps) (j : Json) (now : Time) (m : Manager) (rs : List SpoolRecord)
    → Enqueued j now m (filter_near_duplicates fl m rs).0 (enqueue fl j now m rs)
unfolding enqueue
enqueue_cases fl j now m [] = rw (filter_nil fl m) (inr (m.last_by_device, refl, inl refl))
enqueue_cases fl j now m (r ∷ rs) =
    enqueue_filtered_cases j now m (filter_near_duplicates fl m (r ∷ rs)).0
      (filter_near_duplicates fl m (r ∷ rs)).1

-- A round of `requeue_loop` that did not fail, and what it did.
pub requeue_loop-ok :
    (j : Json) (now : Time) (r : SpoolRecord) (rs : List SpoolRecord) (m : Manager)
    (es : List Entry)
    → (requeue_loop j now (r ∷ rs) m).0 ≡ ok es
    → (size : ℕ) × (fs : List Entry) × (estimate_record_bytes j r ≡ some size)
      × ((requeue_loop j now rs (count_in m r size)).0 ≡ ok fs)
      × (es ≡ entry now r size ∷ fs)
      × ((requeue_loop j now (r ∷ rs) m).1 ≡ (requeue_loop j now rs (count_in m r size)).1)
unfolding requeue_loop
requeue_loop-ok j now r rs m es h = elim (Option-cases (estimate_record_bytes j r)) [
  | inl e ↦ absurd (ground arith)
  | inr (size, e) ↦ elim (Outcome-cases (requeue_loop j now rs (count_in m r size)).0) [
    | inl (fs, f) ↦ (size, fs, e, f, ground arith, ground arith)
    | inr (x, f) ↦ absurd (ground arith)
  ]
]

-- The loop does not touch the queue.
pub requeue_loop-queue :
    (j : Json) (now : Time) (rs : List SpoolRecord) (m : Manager)
    → (requeue_loop j now rs m).1.queue ≡ m.queue
unfolding requeue_loop
requeue_loop-queue j now [] m = refl
requeue_loop-queue j now (r ∷ rs) m = elim (Option-cases (estimate_record_bytes j r)) [
  | inl e ↦ rw (e, requeue_loop)
  | inr (size, e) ↦ rw (e, requeue_loop) (requeue_loop-queue j now rs (count_in m r size))
]

-- A `RequeueFront` that returned nil.
pub requeue_front-ok :
    (j : Json) (now : Time) (m : Manager) (rs : List SpoolRecord)
    → (requeue_front j now m rs).0 ≡ ok tt
    → (es : List Entry) × ((requeue_loop j now rs m).0 ≡ ok es)
      × ((requeue_front j now m rs).1
          ≡ record ((requeue_loop j now rs m).1) { queue = es ++ m.queue })
unfolding requeue_front
requeue_front-ok j now m rs h = elim (Outcome-cases (requeue_loop j now rs m).0) [
  | inl (es, e) ↦ (es, e, rw (e, requeue_front) (ground (arith, requeue_loop-queue j now rs m)))
  | inr (x, e) ↦ absurd (ground arith)
]
