-- ===== src/Buffer/Fifo.antt =====
-- The buffer as a FIFO of records: what each operation does to the records in the queue.
use mathlib.Core.List.{foldl}
use plexplore.Prelude.{
  ℕ, zero, suc, ◌+◌, ◌≡◌, String, refl, sym, ap, ◌∙◌, some, List, [], ◌∷◌, ◌++◌, map, min, arith,
  ok, err, length, take, drop, inl, inr, ◌⊎◌, map-append, append_assoc, append-nil,
  take-append-drop, map-take, map-drop, All,
}
use plexplore.Prelude.Dict.{Dict}
use plexplore.GoTime.{Time, Duration}
use plexplore.Float64.{Float64, FloatOps}
use plexplore.Ingest.Models.{SpoolRecord, Bytes}
use plexplore.Ingest.Json.{Json}
use plexplore.Buffer.{
  Error, Manager, Entry, DedupeState, items, entry, count_in, estimate_record_bytes, push_back,
  drain_batch, requeue_loop, requeue_front, enqueue, filter_near_duplicates, dedupe_loop,
  is_near_duplicate, remember,
}
use plexplore.Buffer.Branches.{enqueue_cases, requeue_loop-queue}

abbrev pub seqs : List SpoolRecord → List ℕ
seqs = map (λ r. r.seq)

items-push_all :
    (j : Json) (now : Time) (m : Manager) (rs : List SpoolRecord)
    → items (foldl (push_back j now) m rs) ≡ items m ++ rs
unfolding push_back
items-push_all j now m [] = sym (append-nil (items m))
items-push_all j now m (r ∷ rs) =
    items-push_all j now (push_back j now m r) rs ∙ simp (map-append, append_assoc)

-- The filter keeps every sequence number, in order.
seqs-dedupe_loop :
    (fl : FloatOps) (t : Duration) (d : Float64) (rs : List SpoolRecord)
    (candidate updated : Dict String DedupeState)
    → seqs (dedupe_loop fl t d rs candidate updated).0 ≡ seqs rs
unfolding dedupe_loop
seqs-dedupe_loop fl t d [] candidate updated = refl
seqs-dedupe_loop fl t d (r ∷ rs) candidate updated =
    let near = is_near_duplicate fl r candidate t d in
    ground (
      arith,
      seqs-dedupe_loop fl t d rs (remember fl near r candidate) (remember fl near r updated),
    )

-- The filter keeps every sequence number, in order: a near duplicate is marked, not dropped.
pub seqs-filter_near_duplicates :
    (fl : FloatOps) (m : Manager) (rs : List SpoolRecord)
    → seqs (filter_near_duplicates fl m rs).0 ≡ seqs rs
unfolding filter_near_duplicates
seqs-filter_near_duplicates fl m rs =
    ground (arith, seqs-dedupe_loop fl m.dedupe_time m.dedupe_dist_m rs m.last_by_device [])

-- `Enqueue` is all or nothing: it returns an error and leaves the buffer as it was, or returns nil
-- and the queue is extended by the filtered records, in order, which have the sequence numbers of
-- all records of the call.
pub enqueue_all_or_nothing :
    (fl : FloatOps) (j : Json) (now : Time) (m : Manager) (rs : List SpoolRecord)
    → let (result, m') = enqueue fl j now m rs in
      (((e : Error) × (result ≡ err e)) × (m' ≡ m))
      ⊎ ((result ≡ ok tt)
          × (items m' ≡ items m ++ (filter_near_duplicates fl m rs).0)
          × (seqs (items m') ≡ seqs (items m) ++ seqs rs))
enqueue_all_or_nothing fl j now m rs = elim (enqueue_cases fl j now m rs) [
  | inl (e, eq) ↦ inl ((e, ap (λ r. r.0) eq), ap (λ r. r.1) eq)
  | inr (last, eq, _) ↦
      let pushed =
        ap (λ r. items r.1) eq ∙ items-push_all j now m (filter_near_duplicates fl m rs).0 in
      inr (
        ap (λ r. r.0) eq,
        pushed,
        ap seqs pushed
            ∙ map-append (λ r. r.seq) (items m) (filter_near_duplicates fl m rs).0
            ∙ ap (◌++◌ (seqs (items m))) (seqs-filter_near_duplicates fl m rs),
      )
]

take-min {ℓ} : {A : Type ℓ} (n : ℕ) (xs : List A) → take (min n (length xs)) xs ≡ take n xs
take-min zero xs = let e : min 0 (length xs) ≡ 0 = omega arith in rw e refl
take-min (suc n) [] = let e : min (suc n) 0 ≡ 0 = omega arith in rw e refl
take-min (suc n) (x ∷ xs) =
    let e : min (suc n) (suc (length xs)) ≡ suc (min n (length xs)) = omega arith in
    rw e (ap (◌∷◌ x) (take-min n xs))

drop-min {ℓ} : {A : Type ℓ} (n : ℕ) (xs : List A) → drop (min n (length xs)) xs ≡ drop n xs
drop-min zero xs = let e : min 0 (length xs) ≡ 0 = omega arith in rw e refl
drop-min (suc n) [] = let e : min (suc n) 0 ≡ 0 = omega arith in rw e refl
drop-min (suc n) (x ∷ xs) =
    let e : min (suc n) (suc (length xs)) ≡ suc (min n (length xs)) = omega arith in
    rw e (drop-min n xs)

-- `DrainBatch` takes the oldest records and leaves the others.
pub drain_batch-items :
    (n : ℕ) (m : Manager)
    → ((drain_batch n m).0 ≡ take n (items m)) × (items (drain_batch n m).1 ≡ drop n (items m))
unfolding drain_batch
drain_batch-items n m = (
  ap (map (λ e. e.item)) (take-min n m.queue) ∙ map-take (λ e. e.item) n m.queue,
  ap (map (λ e. e.item)) (drop-min n m.queue) ∙ map-drop (λ e. e.item) n m.queue,
)

pub drain_batch-append :
    (n : ℕ) (m : Manager) → (drain_batch n m).0 ++ items (drain_batch n m).1 ≡ items m
drain_batch-append n m =
    rw ((drain_batch-items n m).0, (drain_batch-items n m).1) (take-append-drop n (items m))

-- The record has a JSON text.
abbrev pub CanEncode : Json → SpoolRecord → Type 0
CanEncode j r = (text : Bytes) × (j.marshal r ≡ some text)

requeue_loop-items :
    (j : Json) (now : Time) (rs : List SpoolRecord) (m : Manager)
    → All (CanEncode j) rs
    → (es : List Entry) × ((requeue_loop j now rs m).0 ≡ ok es) × (map (λ e. e.item) es ≡ rs)
unfolding requeue_loop estimate_record_bytes
requeue_loop-items j now [] m h = ([], refl, refl)
requeue_loop-items j now (r ∷ rs) m h =
    let size = length h.0.0 + 1 in
    let (es, done, same) = requeue_loop-items j now rs (count_in m r size) h.1 in
    (entry now r size ∷ es, ground (arith, h.0.1, done), ap (◌∷◌ r) same)

-- `RequeueFront` of records that have a JSON text returns nil and puts them back before the others.
pub requeue_front-items :
    (j : Json) (now : Time) (m : Manager) (rs : List SpoolRecord)
    → All (CanEncode j) rs
    → ((requeue_front j now m rs).0 ≡ ok tt) × (items (requeue_front j now m rs).1 ≡ rs ++ items m)
unfolding requeue_front
requeue_front-items j now m rs h =
    let (es, done, same) = requeue_loop-items j now rs m h in
    let returned : (requeue_front j now m rs).0 ≡ ok tt = ground (arith, done) in
    (
      returned,
      rw (done, requeue_front)
          (ap (λ q. map (λ e. e.item) (es ++ q)) (requeue_loop-queue j now rs m)
            ∙ map-append (λ e. e.item) es m.queue
            ∙ ap (λ xs. xs ++ items m) same),
    )

-- A batch that `DrainBatch` took and `RequeueFront` puts back, of records that have JSON texts,
-- leaves the records of the queue as they were.
pub requeue-drain :
    (j : Json) (now : Time) (n : ℕ) (m : Manager)
    → All (CanEncode j) (drain_batch n m).0
    → items (requeue_front j now (drain_batch n m).1 (drain_batch n m).0).1 ≡ items m
requeue-drain j now n m h =
    (requeue_front-items j now (drain_batch n m).1 (drain_batch n m).0 h).1 ∙ drain_batch-append n m
