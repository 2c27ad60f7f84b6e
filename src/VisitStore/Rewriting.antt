-- ===== src/VisitStore/Rewriting.antt =====
-- What a rebuild of the visits of a device has done, told without the code's own query and delete.
use mathlib.Core.Option.{get_or}
use plexplore.Prelude.{
  ℕ, ◌+◌, ◌≤◌, ◌<◌, ◌≡◌, refl, sym, ap, subst, ◌∙◌, inl, inr, Bool, true, false, Option, none, some,
  List, [], ◌∷◌, ◌++◌, map, Outcome, ok, err, length, ltb, ◌==◌, ◌&&◌, ◌||◌, if◌then◌else◌, keep,
  keep-Memᴰ, Memᴰ-keep, All, All-map, All-Memᴰ, Memᴰ-All, Memᴰ, Bool-cases, arith,
}
use plexplore.Prelude.Int.{pos, leb_ℤ}
use plexplore.Prelude.Sorting.{Ordered, All-sort_by, All-from_sort_by, sort_by-Ordered, sort_by}
use plexplore.GoTime.{Time}
use plexplore.Float64.{FloatOps}
use plexplore.Ingest.Models.{Bytes}
use plexplore.Store.{RawPoint}
use plexplore.Visits.{Config, Point, Visit, detect}
use plexplore.Visits.Windows.{Detected, detect-Detected}
use plexplore.Points.Pages.{row_le-total, row_le_trans}
use plexplore.VisitStore.{
  VisitRow, VisitDb, SqlError, time_le, in_range, row_le, detect_point, points_for_detection,
  is_rewritten, number_rows, rewrite_visits, detected, rebuild_visits_for_device_range,
}
use plexplore.VisitStore.Rebuild.{Rebuilt, rebuild-Rebuilt, rebuild-succeeds, with_faults}

-- The detector always returns.
detect-returns :
    (fl : FloatOps) (cfg : Config) (ps : List Point)
    → (vs : List Visit) × (detect fl ps cfg ≡ some vs)
unfolding detect
detect-returns fl cfg ps = elim (Bool-cases (ltb (length ps) 2)) [
  | inl few ↦ ([], rw few refl)
  | inr enough ↦
      elim (Bool-cases (leb_ℤ cfg.min_dwell (pos 0) || fl.le cfg.max_radius_meters (fl.of_ℕ 0))) [
        | inl off ↦ ([], rw (enough, off) refl)
        | inr on ↦
            found (detect fl ps cfg) (detect-Detected fl cfg ps (ground arith) (ground arith))
      ]
]
  where
    found : (r : Option (List Visit)) → Detected fl cfg ps r → (vs : List Visit) × (r ≡ some vs)
    found none d = absurd d
    found (some vs) d = (vs, refl)

module _ (text : Time → Bytes) (id : ℕ) (from to : Option Time) where
  -- The time is in the range, of which an end that is not given bounds nothing. Times are compared
  -- as their texts.
  abbrev pub Within : Option Time → Option Time → Time → Type 0
  Within none none t = Unit
  Within (some a) none t = time_le text a t ≡ true
  Within none (some b) t = time_le text t b ≡ true
  Within (some a) (some b) t = (time_le text a t ≡ true) × (time_le text t b ≡ true)

  Within-in_range : (a b : Option Time) (t : Time) → in_range text a b t ≡ true → Within a b t
  unfolding in_range
  Within-in_range none none t e = tt
  Within-in_range (some a) none t e = ground arith
  Within-in_range none (some b) t e = ground arith
  Within-in_range (some a) (some b) t e = ground arith

  in_range-Within : (a b : Option Time) (t : Time) → Within a b t → in_range text a b t ≡ true
  unfolding in_range
  in_range-Within none none t h = refl
  in_range-Within (some a) none t h = ground arith
  in_range-Within none (some b) t h = ground arith
  in_range-Within (some a) (some b) t (h, k) = ground arith

  -- The raw points of the device in the range, in the order of the texts of their times and, where
  -- these are the same, of their sequence numbers.
  pub record PointsOf (raw rows : List RawPoint) : Type 0 where
    pub ordered : Ordered (row_le text) rows
    pub sound : All (λ r. Memᴰ r raw × (r.device_id ≡ id) × Within from to r.timestamp_utc) rows
    pub complete :
        (r : RawPoint)
        → Memᴰ r raw
        → r.device_id ≡ id
        → Within from to r.timestamp_utc
        → Memᴰ r rows

  wanted : RawPoint → Bool
  wanted r = r.device_id == id && in_range text from to r.timestamp_utc

  wanted-PointsOf : (raw : List RawPoint) → PointsOf raw (sort_by (row_le text) (keep wanted raw))
  unfolding wanted
  wanted-PointsOf raw =
      let chosen = keep wanted raw in
      let In = λ (r : RawPoint). Memᴰ r raw × (r.device_id ≡ id) × Within from to r.timestamp_utc in
      record {
        ordered = sort_by-Ordered (row_le text) (row_le-total text) (row_le_trans text) chosen;
        sound = All-sort_by (row_le text) In chosen (
            Memᴰ-All In chosen λ r m.
              let (there, e) = Memᴰ-keep wanted raw m in
              (there, ground arith, Within-in_range from to r.timestamp_utc (ground arith)));
        complete = λ r m same h.
            let e = in_range-Within from to r.timestamp_utc h in
            All-Memᴰ (λ q. Memᴰ q (sort_by (row_le text) chosen)) chosen
              (All-from_sort_by (row_le text) _ chosen (Memᴰ-All _ _ λ q k. k))
              (keep-Memᴰ wanted raw m (ground arith));
      }

  -- A row of the device that starts in the range.
  abbrev pub Covered : VisitRow → Type 0
  Covered v = (v.device_id ≡ id) × Within from to v.visit.start_at

  Covered-rewritten : (v : VisitRow) → Covered v → is_rewritten text id from to v ≡ true
  unfolding is_rewritten
  Covered-rewritten v (same, h) = let e = in_range-Within from to v.visit.start_at h in ground arith

  rewritten-Covered : (v : VisitRow) → is_rewritten text id from to v ≡ true → Covered v
  unfolding is_rewritten
  rewritten-Covered v e = (ground arith, Within-in_range from to v.visit.start_at (ground arith))

  -- The rows that are put in: those of the device, with ids from the next one on.
  abbrev pub NewRow : ℕ → ℕ → VisitRow → Type 0
  NewRow low high v = (v.device_id ≡ id) × (low ≤ v.id) × (v.id < high)

  number_rows-visits :
      (n : ℕ) (vs : List Visit) → map (λ v. v.visit) (number_rows text id n vs) ≡ vs
  unfolding number_rows
  number_rows-visits n [] = refl
  number_rows-visits n (v ∷ vs) = ap (◌∷◌ v) (number_rows-visits (n + 1) vs)

  number_rows-NewRow :
      (low n : ℕ) (vs : List Visit)
      → low ≤ n
      → All (NewRow low (n + length vs)) (number_rows text id n vs)
  unfolding number_rows
  number_rows-NewRow low n [] h = tt
  number_rows-NewRow low n (v ∷ vs) h =
      let rest = number_rows-NewRow low (n + 1) vs (omega arith) in
      (
        (refl, h, omega arith),
        All-map _ (λ w (same, above, under). (same, above, omega arith))
            (number_rows text id (n + 1) vs) rest,
      )

  -- The table of visits and the number of the found ones, after a rebuild that succeeds.
  pub record Rewritten (fl : FloatOps) (cfg : Config) (s : VisitDb) (n : ℕ) (s' : VisitDb)
      : Type 0 where
    -- The visits are the detector's, of the device's points in the range.
    pub rows : List RawPoint
    pub of_range : PointsOf s.tables.raw_points rows
    pub found : List Visit
    pub detects : detect fl (map (detect_point text) rows) cfg ≡ some found
    pub count : n ≡ length found
    -- The table has old rows, and behind them a row for each visit that was found.
    pub old : List VisitRow
    pub new : List VisitRow
    pub table : s'.visits ≡ old ++ new
    pub new_visits : map (λ v. v.visit) new ≡ found
    pub new_rows : All (NewRow s.next_visit_id s'.next_visit_id) new
    -- The old rows that are left are those of other devices or that start outside the range.
    pub left : (v : VisitRow) → Memᴰ v old → Memᴰ v s.visits × (Covered v → ⊥)
    pub stays : (v : VisitRow) → Memᴰ v s.visits → (Covered v → ⊥) → Memᴰ v old
    -- The other tables are as they were.
    pub tables : s'.tables ≡ s.tables
    pub states : s'.states ≡ s.states

  kept_row : VisitRow → Bool
  kept_row v = if is_rewritten text id from to v then false else true

  kept_row-open : (v : VisitRow) → kept_row v ≡ true → Covered v → ⊥
  unfolding kept_row
  kept_row-open v e c = let k = Covered-rewritten v c in ground arith

  open-kept_row : (v : VisitRow) → (Covered v → ⊥) → kept_row v ≡ true
  unfolding kept_row
  open-kept_row v h = elim (Bool-cases (is_rewritten text id from to v)) [
    | inl e ↦ absurd (h (rewritten-Covered v e))
    | inr e ↦ rw e refl
  ]

  rewrite_visits-Rewritten :
      (fl : FloatOps) (cfg : Config) (s : VisitDb) (fs : List Bool)
      → let found = detected text fl id from to cfg s in
        Rewritten fl cfg s (length found) (with_faults (rewrite_visits text id from to found s) fs)
  unfolding rewrite_visits detected points_for_detection kept_row wanted
  rewrite_visits-Rewritten fl cfg s fs =
      let found = detected text fl id from to cfg s in
      let rows = sort_by (row_le text) (keep wanted s.tables.raw_points) in
      let (vs, e) = detect-returns fl cfg (map (detect_point text) rows) in
      record {
        rows = rows;
        of_range = wanted-PointsOf s.tables.raw_points;
        found = found;
        detects = e ∙ ap some (sym (ap (λ o. get_or o []) e));
        count = refl;
        old = keep kept_row s.visits;
        new = number_rows text id s.next_visit_id found;
        table = refl;
        new_visits = number_rows-visits s.next_visit_id found;
        new_rows = number_rows-NewRow s.next_visit_id s.next_visit_id found (omega arith);
        left = λ v m. let (there, e) = Memᴰ-keep kept_row s.visits m in (there, kept_row-open v e);
        stays = λ v m h. keep-Memᴰ kept_row s.visits m (open-kept_row v h);
        tables = refl;
        states = refl;
      }

  -- What a call comes to. An error occurs only where a call to the database can fail or the id is
  -- 0, and changes no table.
  abbrev pub Ended : FloatOps → Config → VisitDb → Outcome SqlError ℕ × VisitDb → Type 0
  Ended fl cfg s (ok n, s') = Rewritten fl cfg s n s'
  Ended fl cfg s (err e, s') =
      (s.faults ≡ [] → id ≡ 0) × ((fs : List Bool) × (s' ≡ with_faults s fs))

  ended :
      (fl : FloatOps) (cfg : Config) (s : VisitDb) (r : Outcome SqlError ℕ × VisitDb)
      → (s.faults ≡ [] → (id == 0) ≡ false → (n : ℕ) × (r.0 ≡ ok n))
      → Rebuilt text fl id from to cfg s r
      → Ended fl cfg s r
  ended fl cfg s (ok n, s') works (count, (fs, same)) =
      subst (λ m. Rewritten fl cfg s m s') (sym count)
        (subst (Rewritten fl cfg s (length (detected text fl id from to cfg s))) (sym same)
          (rewrite_visits-Rewritten fl cfg s fs))
  ended fl cfg s (err e, s') works unchanged = (
    λ calm. elim (Bool-cases (id == 0)) [
      | inl zero_id ↦ ground arith
      | inr positive ↦ let (n, done) = works calm positive in absurd (cc)
    ],
    unchanged,
  )

-- `RebuildVisitsForDeviceRange`, whichever of its calls to the database fail. A success returns the
-- number of the visits that the detector finds in the device's raw points in the range, taken in
-- the order of the texts of their times and then of their sequence numbers. It has deleted exactly
-- the rows of the device that start in the range, and put a row for each visit that was found
-- behind the others, in order, with an id at or past the next free one; no other table has changed.
-- An error has changed no table, and with an id that is not 0 there is none when no call fails.
pub rebuild-Rewritten :
    (text : Time → Bytes) (fl : FloatOps) (id : ℕ) (from to : Option Time) (cfg : Config)
    (s : VisitDb)
    → Ended text id from to fl cfg s (rebuild_visits_for_device_range text fl id from to cfg s)
rebuild-Rewritten text fl id from to cfg s =
    ended text id from to fl cfg s (rebuild_visits_for_device_range text fl id from to cfg s)
      (λ calm positive. (
        length (detected text fl id from to cfg s),
        ap (λ r. r.0) (rebuild-succeeds text fl id from to cfg s positive calm),
      ))
      (rebuild-Rebuilt text fl id from to cfg s)
