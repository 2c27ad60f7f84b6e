-- ===== src/Buffer/Accounts.antt =====
-- The counters of the buffer: each of its operations keeps them equal to what the queue holds.
use mathlib.Core.List.{foldl}
use mathlib.Core.Option.{get_or}
use plexplore.Prelude.{
  ℕ, subst, ◌+◌, ◌≡◌, sym, ap, ◌∙◌, String, Option, none, some, List, [], ◌∷◌, ◌++◌, min, arith, ok,
  length, take, drop, ◌==◌, string_eq, if◌then◌else◌, str_eq, str_eq_iff, length-append,
  take-append-drop, inl, inr,
}
use plexplore.Prelude.Dict
use plexplore.Prelude.Dict.{Dict, lookup-insert, lookup-erase}
use plexplore.GoTime.{Time}
use plexplore.Float64.{FloatOps}
use plexplore.Ingest.Models.{SpoolRecord}
use plexplore.Ingest.Json.{Json}
use plexplore.Buffer.Branches.{enqueue_cases, requeue_loop-ok, requeue_front-ok}
use plexplore.Buffer.{
  Manager, Entry, DedupeState, estimate_record_bytes, count_up, count_down, count_in, count_out,
  entry, push_back, drain_batch, requeue_loop, requeue_front, enqueue, filter_near_duplicates,
}

abbrev pub size_sum : List Entry → ℕ
size_sum [] = 0
size_sum (e ∷ es) = e.size_bytes + size_sum es

-- How many of the entries belong to a device.
abbrev pub count_of : String → List Entry → ℕ
count_of id [] = 0
count_of id (e ∷ es) = (if str_eq e.item.device_id id then 1 else 0) + count_of id es

-- What the map of counts holds for a device with `n` entries.
abbrev pub counted : ℕ → Option ℕ
counted n = if n == 0 then none else some n

-- The counters are those of a queue with the entries `es`.
pub record Accounts (m : Manager) (es : List Entry) : Type 0 where
  pub points : m.total_points ≡ length es
  pub bytes : m.total_bytes ≡ size_sum es
  pub counts : (id : String) → Dict.lookup id m.device_counts ≡ counted (count_of id es)

pub size_sum-append : (xs ys : List Entry) → size_sum (xs ++ ys) ≡ size_sum xs + size_sum ys
size_sum-append [] ys = omega arith
size_sum-append (x ∷ xs) ys = omega (arith, size_sum-append xs ys)

pub count_of-append :
    (id : String) (xs ys : List Entry) → count_of id (xs ++ ys) ≡ count_of id xs + count_of id ys
count_of-append id [] ys = omega arith
count_of-append id (x ∷ xs) ys = omega (arith, count_of-append id xs ys)

-- The counters do not depend on where in the queue an entry stands.
Accounts-middle :
    {m : Manager} (xs ys : List Entry) (e : Entry)
    → Accounts m (xs ++ e ∷ ys)
    → Accounts m (e ∷ xs ++ ys)
Accounts-middle xs ys e a = record {
  points = omega (arith, a.points, length-append xs (e ∷ ys), length-append xs ys);
  bytes = omega (arith, a.bytes, size_sum-append xs (e ∷ ys), size_sum-append xs ys);
  counts = λ id.
      a.counts id
      ∙ ap counted (omega (arith, count_of-append id xs (e ∷ ys), count_of-append id xs ys));
}

lookup-count_up :
    (id j : String) (n : ℕ) (counts : Dict String ℕ)
    → Dict.lookup id counts ≡ counted n
    → Dict.lookup j (count_up id counts)
      ≡ (if str_eq id j then some (n + 1) else Dict.lookup j counts)
unfolding count_up
lookup-count_up id j n counts h = lookup-insert id j _ counts ∙ ground (arith, h)

lookup-count_down :
    (id j : String) (n : ℕ) (counts : Dict String ℕ)
    → Dict.lookup id counts ≡ counted (n + 1)
    → Dict.lookup j (count_down id counts)
      ≡ (if str_eq id j then counted n else Dict.lookup j counts)
unfolding count_down
lookup-count_down id j n counts h =
    ground (arith, lookup-erase id j counts, lookup-insert id j n counts)

pub count_in-Accounts :
    {m : Manager} (es : List Entry) (now : Time) (r : SpoolRecord) (size : ℕ)
    → Accounts m es
    → Accounts (count_in m r size) (entry now r size ∷ es)
count_in-Accounts {m} es now r size a = record {
  points = omega (arith, a.points);
  bytes = omega (arith, a.bytes);
  counts = λ id. ground (
    arith,
    lookup-count_up r.device_id id (count_of r.device_id es) m.device_counts,
    a.counts r.device_id,
    a.counts id,
    str_eq_iff r.device_id id,
  );
}

pub count_out-Accounts :
    {m : Manager} (es : List Entry) (e : Entry) → Accounts m (e ∷ es) → Accounts (count_out m e) es
unfolding count_out
count_out-Accounts {m} es e a = record {
  points = omega (arith, a.points);
  bytes = omega (arith, a.bytes);
  counts = λ id. ground (
    arith,
    lookup-count_down e.item.device_id id (count_of e.item.device_id es) m.device_counts,
    a.counts e.item.device_id,
    a.counts id,
    str_eq_iff e.item.device_id id,
    str_eq_iff e.item.device_id e.item.device_id,
  );
}

pub push_back-Accounts :
    (j : Json) (now : Time) (m : Manager) (r : SpoolRecord)
    → Accounts m m.queue
    → Accounts (push_back j now m r) (push_back j now m r).queue
unfolding push_back
push_back-Accounts j now m r a =
    let size = get_or (estimate_record_bytes j r) 0 in
    let grown = count_in-Accounts m.queue now r size a in
    record {
      points = omega (arith, grown.points, length-append m.queue (entry now r size ∷ []));
      bytes = omega (arith, grown.bytes, size_sum-append m.queue (entry now r size ∷ []));
      counts = λ id.
          grown.counts id
          ∙ ap counted (omega (arith, count_of-append id m.queue (entry now r size ∷ [])));
    }

push_all-Accounts :
    (j : Json) (now : Time) (m : Manager) (rs : List SpoolRecord)
    → Accounts m m.queue
    → Accounts (foldl (push_back j now) m rs) (foldl (push_back j now) m rs).queue
push_all-Accounts j now m [] a = a
push_all-Accounts j now m (r ∷ rs) a =
    push_all-Accounts j now (push_back j now m r) rs (push_back-Accounts j now m r a)

count_out_all-Accounts :
    (m : Manager) (ds es : List Entry) → Accounts m (ds ++ es) → Accounts (foldl count_out m ds) es
count_out_all-Accounts m [] es a = a
count_out_all-Accounts m (d ∷ ds) es a =
    count_out_all-Accounts (count_out m d) ds es (count_out-Accounts (ds ++ es) d a)

-- What is set beside the counters and the queue does not matter.
Accounts-last :
    {m : Manager} (last : Dict String DedupeState) (es : List Entry)
    → Accounts m es
    → Accounts (record m { last_by_device = last }) es
Accounts-last last es a = record { points = a.points; bytes = a.bytes; counts = a.counts }

-- `Enqueue`, on every branch, keeps the counters true: where the total of points, the total of bytes
-- and the count of each device were those of the queue, they are those of the queue it leaves.
pub enqueue-Accounts :
    (fl : FloatOps) (j : Json) (now : Time) (m : Manager) (rs : List SpoolRecord)
    → Accounts m m.queue
    → Accounts (enqueue fl j now m rs).1 (enqueue fl j now m rs).1.queue
enqueue-Accounts fl j now m rs a = elim (enqueue_cases fl j now m rs) [
  | inl (e, eq) ↦ subst (λ r. Accounts r.1 r.1.queue) (sym eq) a
  | inr (last, eq, _) ↦
      subst (λ r. Accounts r.1 r.1.queue) (sym eq)
        (Accounts-last last _ (push_all-Accounts j now m (filter_near_duplicates fl m rs).0 a))
]

-- `DrainBatch` keeps the counters true: where the totals and the count of each device were those of
-- the queue, they are those of what is left in it.
pub drain_batch-Accounts :
    (n : ℕ) (m : Manager)
    → Accounts m m.queue
    → Accounts (drain_batch n m).1 (drain_batch n m).1.queue
unfolding drain_batch
drain_batch-Accounts n m a =
    let count = min n (length m.queue) in
    let left =
      count_out_all-Accounts m (take count m.queue) (drop count m.queue)
        (subst (Accounts m) (sym (take-append-drop count m.queue)) a) in
    record { points = left.points; bytes = left.bytes; counts = left.counts }

requeue_loop-Accounts :
    (j : Json) (now : Time) (rs : List SpoolRecord) (m : Manager) (es pre : List Entry)
    → Accounts m es
    → (requeue_loop j now rs m).0 ≡ ok pre
    → Accounts (requeue_loop j now rs m).1 (pre ++ es)
unfolding requeue_loop
requeue_loop-Accounts j now [] m es pre a h = ground arith
requeue_loop-Accounts j now (r ∷ rs) m es pre a h =
    let (size, fs, _, tail, shape, same) = requeue_loop-ok j now r rs m pre h in
    let grown = count_in-Accounts es now r size a in
    let rest =
      requeue_loop-Accounts j now rs (count_in m r size) (entry now r size ∷ es) fs grown tail in
    subst (λ n. Accounts n (pre ++ es)) (sym same)
      (subst (λ xs. Accounts (requeue_loop j now rs (count_in m r size)).1 (xs ++ es)) (sym shape)
        (Accounts-middle fs es (entry now r size) rest))

-- `RequeueFront` that returns nil keeps the counters true: where the totals and the count of each
-- device were those of the queue, they are those of the queue with the batch in front.
pub requeue_front-Accounts :
    (j : Json) (now : Time) (m : Manager) (rs : List SpoolRecord)
    → Accounts m m.queue
    → (requeue_front j now m rs).0 ≡ ok tt
    → Accounts (requeue_front j now m rs).1 (requeue_front j now m rs).1.queue
unfolding requeue_front
requeue_front-Accounts j now m rs a h =
    let (es, done, after) = requeue_front-ok j now m rs h in
    let counted_in = requeue_loop-Accounts j now rs m m.queue es a done in
    subst (λ n. Accounts n n.queue) (sym after)
      (record { points = counted_in.points; bytes = counted_in.bytes; counts = counted_in.counts })
