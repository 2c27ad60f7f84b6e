-- ===== src/VisitScheduler/Devices.antt =====
-- The list of devices that a run works on: `sortedUniqueDevicesByID`.
use plexplore.Prelude.{
  ℕ, ◌<◌, ◌≡◌, ◌≢◌, subst, ◌⊎◌, inl, inr, Bool, true, false, List, [], ◌∷◌, leb, ◌==◌, ==_iff,
  if◌then◌else◌, All, All-map, arith, Bool-cases,
}
use plexplore.Prelude.Sorting.{insert_by, sort_by, All-insert_by, All-sort_by, All-from_sort_by}
use plexplore.Store.{Device, has_id}
use plexplore.VisitScheduler.{unique_devices, sorted_unique_devices_by_id}

-- The ids rise strictly.
abbrev pub Strict : List Device → Type 0
Strict [] = Unit
Strict (d ∷ ds) = All (λ e. d.id < e.id) ds × Strict ds

abbrev by_id : Device → Device → Bool
by_id d e = leb d.id e.id

-- No id occurs twice.
abbrev Apart : List Device → Type 0
Apart [] = Unit
Apart (d ∷ ds) = All (λ e. d.id ≢ e.id) ds × Apart ds

insert-Strict :
    (d : Device) (ds : List Device)
    → All (λ e. d.id ≢ e.id) ds
    → Strict ds
    → Strict (insert_by by_id d ds)
unfolding insert_by
insert-Strict d [] h k = (tt, tt)
insert-Strict d (e ∷ es) h k = elim (Bool-cases (leb d.id e.id)) [
  | inl low ↦
      let first : d.id < e.id = ground (arith, h.0) in
      rw low ((first, All-map _ (λ x (l : e.id < x.id). omega arith) es k.0), k)
  | inr high ↦
      let first : e.id < d.id = ground arith in
      rw high (All-insert_by by_id (λ x. e.id < x.id) d es first k.0, insert-Strict d es h.1 k.1)
]

sort-Strict : (ds : List Device) → Apart ds → Strict (sort_by by_id ds)
unfolding sort_by
sort-Strict [] h = tt
sort-Strict (d ∷ ds) h =
    insert-Strict d (sort_by by_id ds) (All-sort_by by_id (λ e. d.id ≢ e.id) ds h.0)
      (sort-Strict ds h.1)

unique-New :
    (seen : List ℕ) (ds : List Device)
    → All (λ e. has_id e.id seen ≡ false) (unique_devices seen ds)
unfolding unique_devices has_id
unique-New seen [] = tt
unique-New seen (d ∷ ds) = elim (Bool-cases (d.id == 0)) [
  | inl z ↦ rw z (unique-New seen ds)
  | inr z ↦ elim (Bool-cases (has_id d.id seen)) [
    | inl old ↦ rw (z, old) (unique-New seen ds)
    | inr new ↦
        rw (z, new)
          (
            new,
            All-map _ (λ e (h : has_id e.id (d.id ∷ seen) ≡ false). ground arith) _
                (unique-New (d.id ∷ seen) ds),
          )
  ]
]

new-apart : (d e : Device) (seen : List ℕ) → has_id e.id (d.id ∷ seen) ≡ false → d.id ≢ e.id
unfolding has_id
new-apart d e seen h same = absurd (ground arith)

unique-Apart : (seen : List ℕ) (ds : List Device) → Apart (unique_devices seen ds)
unfolding unique_devices has_id
unique-Apart seen [] = tt
unique-Apart seen (d ∷ ds) = elim (Bool-cases (d.id == 0)) [
  | inl z ↦ rw z (unique-Apart seen ds)
  | inr z ↦ elim (Bool-cases (has_id d.id seen)) [
    | inl old ↦ rw (z, old) (unique-Apart seen ds)
    | inr new ↦
        rw (z, new)
          (
            All-map _ (λ e. new-apart d e seen) _ (unique-New (d.id ∷ seen) ds),
            unique-Apart (d.id ∷ seen) ds,
          )
  ]
]

seen_or_here :
    (P : ℕ → Type 0) (n i : ℕ) (seen : List ℕ)
    → P n
    → ((k : ℕ) → has_id k seen ≡ true → P k)
    → has_id i (n ∷ seen) ≡ true
    → P i
unfolding has_id
seen_or_here P n i seen here before known = elim (Bool-cases (n == i)) [
  | inl e ↦ subst P ((==_iff n i).0 e) here
  | inr e ↦ before i (ground arith)
]

nothing_seen : (i : ℕ) → has_id i [] ≡ true → ⊥
unfolding has_id
nothing_seen i h = ground arith

-- What holds of the ids that are kept, and of those seen before, holds of all ids.
unique_complete :
    (P : ℕ → Type 0) (seen : List ℕ) (ds : List Device)
    → ((i : ℕ) → has_id i seen ≡ true → P i)
    → All (λ e. P e.id) (unique_devices seen ds)
    → All (λ d. (d.id ≡ 0) ⊎ P d.id) ds
unfolding unique_devices has_id
unique_complete P seen [] before h = tt
unique_complete P seen (d ∷ ds) before h =
    let Q = λ (xs : List Device). All (λ e. P e.id) xs in
    let skip = unique_devices seen ds in
    let more = d ∷ unique_devices (d.id ∷ seen) ds in
    elim (Bool-cases (d.id == 0)) [
      | inl z ↦
          let k : Q skip =
            subst (λ b. Q (if b then skip else if has_id d.id seen then skip else more)) z h in
          (inl ((==_iff d.id 0).0 z), unique_complete P seen ds before k)
      | inr z ↦
          let later : Q (if has_id d.id seen then skip else more) =
            subst (λ b. Q (if b then skip else if has_id d.id seen then skip else more)) z h in
          elim (Bool-cases (has_id d.id seen)) [
            | inl old ↦
                let k : Q skip = subst (λ b. Q (if b then skip else more)) old later in
                (inr (before d.id old), unique_complete P seen ds before k)
            | inr new ↦
                let k : Q more = subst (λ b. Q (if b then skip else more)) new later in
                (
                  inr k.0,
                  unique_complete P (d.id ∷ seen) ds
                      (λ i known. seen_or_here P d.id i seen k.0 before known) k.1,
                )
          ]
    ]

-- `sortedUniqueDevicesByID`: the ids of the result rise strictly, and every positive id of the list
-- is among them: what holds of all ids of the result holds of every positive id of the list.
pub sorted_unique-Strict :
    (ds : List Device)
    → Strict (sorted_unique_devices_by_id ds)
      × ((P : ℕ → Type 0)
          → All (λ e. P e.id) (sorted_unique_devices_by_id ds)
          → All (λ d. (d.id ≡ 0) ⊎ P d.id) ds)
unfolding sorted_unique_devices_by_id
sorted_unique-Strict ds = (
  sort-Strict (unique_devices [] ds) (unique-Apart [] ds),
  λ P h.
      unique_complete P [] ds (λ i known. absurd (nothing_seen i known))
        (All-from_sort_by by_id (λ e. P e.id) (unique_devices [] ds) h),
)
