-- ===== src/Visits/Windows.antt =====
-- What `Detect` finds: windows of the list, one after the other, each in one place for long enough.
use plexplore.Prelude.{
  ℕ, zero, suc, ◌≤◌, ◌<◌, ◌≡◌, refl, ap, subst, ◌∙◌, ◌⊎◌, inl, inr, true, false, Option, none, some,
  List, [], ◌∷◌, ◌++◌, append_assoc, length, length-append, ltb, ◌||◌, not, Bool-cases, arith,
}
use plexplore.Prelude.Int.{pos, leb_ℤ}
use plexplore.GoTime.{is_zero, sub_time}
use plexplore.Float64.{Float64, FloatOps}
use plexplore.Visits.{
  Config, Point, Visit, Window, last_of, window_within_radius, grow, visit_of, is_visit, add_visit,
  detect_loop, detect,
}

-- A visit of a window of at least two points: it is all their dwell time long, and every point is
-- within the radius of its centroid.
pub record Stay (fl : FloatOps) (cfg : Config) (p : Point) (more : List Point) (v : Visit)
    : Type 0 where
  pub count : v.point_count ≡ suc (length more)
  pub several : 0 < length more
  pub start_at : v.start_at ≡ p.timestamp_utc
  pub end_at : v.end_at ≡ (last_of p more).timestamp_utc
  pub dwell : leb_ℤ cfg.min_dwell (sub_time v.end_at v.start_at) ≡ true
  pub near :
      window_within_radius fl (p ∷ more) v.centroid_lat v.centroid_lon cfg.max_radius_meters ≡ true

-- The visits are the stays of disjoint windows of the points, in the points' order. A point is
-- skipped where it has no time, or where the window grown from it is no visit.
pub data Stays (fl : FloatOps) (cfg : Config) : List Point → List Visit → Type 0 where
  ended : Stays fl cfg [] []
  skipped :
      {p : Point} {ps : List Point} {vs : List Visit}
      → (is_zero p.timestamp_utc ≡ true)
        ⊎ (is_visit fl cfg p (grow fl cfg.max_radius_meters p [] p.lat p.lon ps) ≡ false)
      → Stays fl cfg ps vs
      → Stays fl cfg (p ∷ ps) vs
  stay :
      {p : Point} {more rest : List Point} {v : Visit} {vs : List Visit}
      → Stay fl cfg p more v
      → Stays fl cfg rest vs
      → Stays fl cfg (p ∷ more ++ rest) (v ∷ vs)

module _ (fl : FloatOps) where
  -- A window that was grown from `more` with `rest` ahead.
  record Grown (radius : Float64) (p : Point) (more rest : List Point) (w : Window) : Type 0 where
    split : w.more ++ w.rest ≡ more ++ rest
    near :
        (w.more ≡ [])
        ⊎ (window_within_radius fl
              (p ∷ w.more)
              (fl.div w.sum_lat (fl.of_ℕ (suc (length w.more))))
              (fl.div w.sum_lon (fl.of_ℕ (suc (length w.more))))
              radius
            ≡ true)

  Near : Float64 → Point → List Point → Float64 → Float64 → Type 0
  Near radius p more sum_lat sum_lon =
      (more ≡ [])
      ⊎ (window_within_radius fl (p ∷ more) (fl.div sum_lat (fl.of_ℕ (suc (length more))))
            (fl.div sum_lon (fl.of_ℕ (suc (length more)))) radius
          ≡ true)

  grow-Grown :
      (radius : Float64) (p : Point) (more : List Point) (sum_lat sum_lon : Float64)
      (rest : List Point)
      → Near radius p more sum_lat sum_lon
      → Grown radius p more rest (grow fl radius p more sum_lat sum_lon rest)
  unfolding grow Near
  grow-Grown radius p more sum_lat sum_lon [] near = record { split = refl; near = near }
  grow-Grown radius p more sum_lat sum_lon (q ∷ rest) near =
      let trial = more ++ q ∷ [] in
      let count = fl.of_ℕ (suc (length trial)) in
      let lat = fl.add sum_lat q.lat in
      let lon = fl.add sum_lon q.lon in
      let within =
        window_within_radius fl (p ∷ trial) (fl.div lat count) (fl.div lon count) radius in
      elim (Bool-cases (is_zero q.timestamp_utc || not within)) [
        | inl stop ↦ rw stop (record { split = refl; near = near })
        | inr go ↦
            let further = grow-Grown radius p trial lat lon rest (inr (ground arith)) in
            rw go (record {
              split = further.split ∙ append_assoc more (q ∷ []) rest;
              near = further.near;
            })
      ]

  visit_of-Stay :
      (cfg : Config) (p : Point) (ps more : List Point) (lat lon : Float64) (rest : List Point)
      → let w : Window = record { more = more; sum_lat = lat; sum_lon = lon; rest = rest } in
        Grown cfg.max_radius_meters p [] ps w
        → is_visit fl cfg p w ≡ true
        → Stay fl cfg p more (visit_of fl p w)
  unfolding visit_of is_visit
  visit_of-Stay cfg p ps [] lat lon rest g h = absurd (cc)
  visit_of-Stay cfg p ps (q ∷ qs) lat lon rest g h = record {
    count = refl;
    several = omega arith;
    start_at = refl;
    end_at = refl;
    dwell = h;
    near = elim g.near [ inl none_more ↦ absurd (cc) | inr near ↦ near ];
  }

  -- The result of the loop: it has not run out of fuel, and the visits are the stays.
  abbrev pub Detected : Config → List Point → Option (List Visit) → Type 0
  Detected cfg points none = ⊥
  Detected cfg points (some vs) = Stays fl cfg points vs

  add_visit-Detected :
      (cfg : Config) (p : Point) (more rest : List Point) (v : Visit) (found : Option (List Visit))
      → Stay fl cfg p more v
      → Detected cfg rest found
      → Detected cfg (p ∷ more ++ rest) (add_visit v found)
  unfolding add_visit
  add_visit-Detected cfg p more rest v none s d = d
  add_visit-Detected cfg p more rest v (some vs) s d = stay s d

  skip-Detected :
      (cfg : Config) (p : Point) (ps : List Point) (found : Option (List Visit))
      → (is_zero p.timestamp_utc ≡ true)
        ⊎ (is_visit fl cfg p (grow fl cfg.max_radius_meters p [] p.lat p.lon ps) ≡ false)
      → Detected cfg ps found
      → Detected cfg (p ∷ ps) found
  skip-Detected cfg p ps none why d = d
  skip-Detected cfg p ps (some vs) why d = skipped why d

  detect_loop-Detected :
      (fuel : ℕ) (cfg : Config) (points : List Point)
      → length points ≤ fuel
      → Detected cfg points (detect_loop fl fuel cfg points)
  unfolding detect_loop Near
  detect_loop-Detected fuel cfg [] enough = ended
  detect_loop-Detected zero cfg (p ∷ ps) enough = absurd (omega arith)
  detect_loop-Detected (suc fuel) cfg (p ∷ ps) enough =
      let w = grow fl cfg.max_radius_meters p [] p.lat p.lon ps in
      let g = grow-Grown cfg.max_radius_meters p [] p.lat p.lon ps (inl refl) in
      let few : length w.rest ≤ fuel =
        omega (arith, ap length g.split, length-append w.more w.rest) in
      let next = detect_loop-Detected fuel cfg ps (omega arith) in
      elim (Bool-cases (is_zero p.timestamp_utc)) [
        | inl no_time ↦ rw no_time (skip-Detected cfg p ps _ (inl no_time) next)
        | inr timed ↦ elim (Bool-cases (is_visit fl cfg p w)) [
          | inr too_short ↦ rw (timed, too_short) (skip-Detected cfg p ps _ (inr too_short) next)
          | inl long ↦
              rw (timed, long)
                (subst
                  (λ qs.
                    Detected cfg (p ∷ qs)
                      (add_visit (visit_of fl p w) (detect_loop fl fuel cfg w.rest)))
                  g.split
                  (add_visit-Detected cfg p w.more w.rest (visit_of fl p w) _
                    (visit_of-Stay cfg p ps w.more w.sum_lat w.sum_lon w.rest g long)
                    (detect_loop-Detected fuel cfg w.rest few)))
        ]
      ]

  -- With a positive dwell time and radius `Detect` terminates, and its visits are the stays of
  -- disjoint windows of the points, in order: each has at least two points, begins with its first
  -- and ends with its last, is at least the dwell time long, and every point of it is within the
  -- radius of its centroid. A point is left out only where it has no time or where the window grown
  -- from it is no visit.
  pub detect-Detected :
      (cfg : Config) (points : List Point)
      → leb_ℤ cfg.min_dwell (pos 0) ≡ false
      → fl.le cfg.max_radius_meters (fl.of_ℕ 0) ≡ false
      → Detected cfg points (detect fl points cfg)
  unfolding detect grow is_visit
  detect-Detected cfg [] dwell radius = ended
  detect-Detected cfg (p ∷ []) dwell radius = skipped (inr refl) ended
  detect-Detected cfg (p ∷ q ∷ ps) dwell radius =
      let two : ltb (length (p ∷ q ∷ ps)) 2 ≡ false = ground arith in
      rw (dwell, radius, two)
        (detect_loop-Detected (length (p ∷ q ∷ ps)) cfg (p ∷ q ∷ ps) (omega arith))
