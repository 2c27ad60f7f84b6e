-- ===== src/VisitScheduler/RoundRobin.antt =====
-- The round robin of `selectDeviceBatch` reaches every device.
use native.Mathlib.Nat.{
  add_assoc, add_comm, suc-mul, mod-lt, mod-eq_of_lt, mod-add-mod, add-mod-mod, add-mod_right,
  div-add-mod',
}
use plexplore.Prelude.{
  ℕ, zero, suc, ◌+◌, ◌-◌, ◌*◌, ◌/◌, ◌%◌, ◌<◌, ◌≡◌, refl, sym, ap, subst, ◌∙◌, inl, inr, false, some,
  List, [], ◌∷◌, length, leb, Memᴰ, arith, Bool-cases, Option-cases, ◌==◌,
}
use plexplore.Prelude.Memᴰ
use plexplore.Store.{Device}
use plexplore.VisitScheduler.{
  VisitScheduler, device_at, append_at, select_loop, select_device_batch,
}

-- The scheduler after a number of runs over the same devices.
unfoldable pub after_runs : ℕ → List Device → VisitScheduler → VisitScheduler
after_runs zero devices s = s
after_runs (suc k) devices s = after_runs k devices (select_device_batch s devices).1

append_at-keeps :
    (i : ℕ) (devices batch : List Device) (d : Device)
    → Memᴰ d batch
    → Memᴰ d (append_at i devices batch)
unfolding append_at
append_at-keeps i devices batch d m = elim (Option-cases (device_at i devices)) [
  | inl e ↦ rw (e, append_at) m
  | inr (x, e) ↦ rw (e, append_at) (Memᴰ.append_left (x ∷ []) m)
]

append_at-adds :
    (i : ℕ) (devices batch : List Device) (d : Device)
    → device_at i devices ≡ some d
    → Memᴰ d (append_at i devices batch)
unfolding append_at
append_at-adds i devices batch d e = rw (e, append_at) (Memᴰ.append_right batch (Memᴰ.head refl))

-- A device of the rounds is in the batch.
select_loop-Memᴰ :
    (devices : List Device) (start n j : ℕ) (d : Device)
    → j < n
    → device_at ((start + j) % length devices) devices ≡ some d
    → Memᴰ d (select_loop start n devices)
unfolding select_loop
select_loop-Memᴰ devices start zero j d low here = absurd (omega arith)
select_loop-Memᴰ devices start (suc n) j d low here = elim (Bool-cases (j == n)) [
  | inl e ↦
      let same : j ≡ n = ground arith in
      append_at-adds _ devices (select_loop start n devices) d
        (subst (λ x. device_at ((start + x) % length devices) devices ≡ some d) same here)
  | inr e ↦
      let less : j < n = ground arith in
      append_at-keeps _ devices (select_loop start n devices) d
        (select_loop-Memᴰ devices start n j d less here)
]

device_at-Memᴰ :
    (i : ℕ) (devices : List Device) (d : Device) → device_at i devices ≡ some d → Memᴰ d devices
unfolding device_at
device_at-Memᴰ i [] d e = absurd (ground arith)
device_at-Memᴰ zero (x ∷ xs) d e = Memᴰ.head (ground arith)
device_at-Memᴰ (suc i) (x ∷ xs) d e = Memᴰ.tail (device_at-Memᴰ i xs d e)

device_at-bound :
    (i : ℕ) (devices : List Device) (d : Device) → device_at i devices ≡ some d → i < length devices
unfolding device_at
device_at-bound i [] d e = absurd (ground arith)
device_at-bound zero (x ∷ xs) d e = omega arith
device_at-bound (suc i) (x ∷ xs) d e = omega (arith, device_at-bound i xs d e)

after_runs-start :
    (devices : List Device) (k : ℕ) (s : VisitScheduler)
    → leb (length devices) s.cfg.device_batch_size ≡ false
    → let s' = after_runs k devices s in
      (s'.round_robin_start % length devices
        ≡ (s.round_robin_start + k * s.cfg.device_batch_size) % length devices)
      × (s'.cfg.device_batch_size ≡ s.cfg.device_batch_size)
unfolding after_runs select_device_batch
after_runs-start devices zero s many = (ap (λ x. x % length devices) (omega arith), refl)
after_runs-start devices (suc k) s many =
    let n = length devices in
    let b = s.cfg.device_batch_size in
    let p = s.round_robin_start in
    let s' = (select_device_batch s devices).1 in
    let start : s'.round_robin_start ≡ (p % n + b) % n = rw (many, select_device_batch) refl in
    let size : s'.cfg.device_batch_size ≡ b = rw (many, select_device_batch) refl in
    let (later, same) =
      after_runs-start devices k s' (subst (λ x. leb n x ≡ false) (sym size) many) in
    let shift : p + (b + k * b) ≡ p + suc k * b =
      ap (◌+◌ p) (add_comm b (k * b) ∙ sym (suc-mul k b)) in
    (
      later
          ∙ ap (λ x. (x + k * s'.cfg.device_batch_size) % n) start
          ∙ ap (λ x. ((p % n + b) % n + k * x) % n) size
          ∙ mod-add-mod (p % n + b) n (k * b)
          ∙ ap (λ x. x % n) (add_assoc (p % n) b (k * b))
          ∙ mod-add-mod p n (b + k * b)
          ∙ ap (λ x. x % n) shift,
      same ∙ size,
    )

-- The place of an index, counted from the start on.
offset : (n p i : ℕ) → i < n → (d : ℕ) × (d < n) × ((p + d) % n ≡ i)
offset n p i low =
    let r = p % n in
    let small : r < n = mod-lt p (omega arith) in
    let back : r + (i + n - r) ≡ i + n = omega arith in
    (
      (i + n - r) % n,
      mod-lt (i + n - r) (omega arith),
      add-mod-mod p (i + n - r) n
          ∙ sym (mod-add-mod p n (i + n - r))
          ∙ ap (λ x. x % n) back
          ∙ add-mod_right i n
          ∙ mod-eq_of_lt low,
    )

-- The batch where there are more devices than it takes.
batch_of :
    (s : VisitScheduler) (devices : List Device) (b : ℕ) (d : Device)
    → s.cfg.device_batch_size ≡ b
    → leb (length devices) b ≡ false
    → Memᴰ d (select_loop (s.round_robin_start % length devices) b devices)
    → Memᴰ d (select_device_batch s devices).0
unfolding select_device_batch
batch_of s devices b d size many m =
    let many' : leb (length devices) s.cfg.device_batch_size ≡ false =
      subst (λ x. leb (length devices) x ≡ false) (sym size) many in
    rw (many', select_device_batch)
      (subst (λ x. Memᴰ d (select_loop (s.round_robin_start % length devices) x devices)) (sym size)
        m)

-- Round robin is fair: over the same devices, with a positive batch size `b`, each device is in the
-- batch of a run `k`, counted from 0, with `k * b` below the number of devices, wherever the
-- rotation stands.
pub select_device_batch-reaches :
    (s : VisitScheduler) (devices : List Device) (i : ℕ) (d : Device)
    → 0 < s.cfg.device_batch_size
    → device_at i devices ≡ some d
    → (k : ℕ) × (k * s.cfg.device_batch_size < length devices)
      × Memᴰ d (select_device_batch (after_runs k devices s) devices).0
unfolding select_device_batch after_runs
select_device_batch-reaches s devices i d positive here =
    let n = length devices in
    let b = s.cfg.device_batch_size in
    let p = s.round_robin_start in
    let low = device_at-bound i devices d here in
    elim (Bool-cases (leb n b)) [
      | inl all ↦ (
        0,
        omega (arith, low),
        rw (after_runs, all, select_device_batch) (device_at-Memᴰ i devices d here),
      )
      | inr many ↦
          let (o, small, lands) = offset n p i low in
          let k = o / b in
          let j = o % b in
          let split : k * b + j ≡ o = div-add-mod' o b in
          let (start, size) = after_runs-start devices k s many in
          let s' = after_runs k devices s in
          let at : ((s'.round_robin_start % n) + j) % n ≡ i =
            ap (λ x. (x + j) % n) start
            ∙ mod-add-mod (p + k * b) n j
            ∙ ap (λ x. x % n) (add_assoc p (k * b) j ∙ ap (◌+◌ p) split)
            ∙ lands in
          let found =
            select_loop-Memᴰ devices (s'.round_robin_start % n) b j d (mod-lt o positive)
              (subst (λ x. device_at x devices ≡ some d) (sym at) here) in
          (k, omega (arith, split, small), batch_of s' devices b d size many found)
    ]
