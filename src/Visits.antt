-- ===== src/Visits.antt =====
-- internal/visits/detector.go: the windows in which a device stays in one place. A point's window
-- is grown along the list, so the indices `i`, `j` and `end` are the lists on their two sides.
pub mod Windows
use plexplore.Prelude.{
  ℕ, zero, suc, ◌+◌, ◌<◌, Bool, true, false, Option, none, some, List, [], ◌∷◌, ◌++◌, length, ltb,
  ◌||◌, not, if◌then◌else◌,
}
use plexplore.Prelude.Int.{pos, leb_ℤ}
use plexplore.GoTime.{Time, Duration, is_zero, sub_time}
use plexplore.Float64.{Float64, FloatOps}

pub record Config : Type 0 where
  pub min_dwell : Duration
  pub max_radius_meters : Float64

pub record Point : Type 0 where
  pub timestamp_utc : Time
  pub lat : Float64
  pub lon : Float64

pub record Visit : Type 0 where
  pub start_at : Time
  pub end_at : Time
  pub centroid_lat : Float64
  pub centroid_lon : Float64
  pub point_count : ℕ

-- The points after the first of a window, with the sums over the window, and those not in it.
pub record Window : Type 0 where
  pub more : List Point
  pub sum_lat : Float64
  pub sum_lon : Float64
  pub rest : List Point

abbrev pub last_of : Point → List Point → Point
last_of p [] = p
last_of p (q ∷ qs) = last_of q qs

-- `out = append(out, v)`
add_visit : Visit → Option (List Visit) → Option (List Visit)
add_visit v none = none
add_visit v (some vs) = some (v ∷ vs)

module _ (fl : FloatOps) where
  unfoldable pub haversine_meters : Float64 → Float64 → Float64 → Float64 → Float64
  haversine_meters lat1 lon1 lat2 lon2 =
      let lat1_rad = fl.div (fl.mul lat1 fl.pi) (fl.of_ℕ 180) in
      let lat2_rad = fl.div (fl.mul lat2 fl.pi) (fl.of_ℕ 180) in
      let d_lat = fl.div (fl.mul (fl.sub lat2 lat1) fl.pi) (fl.of_ℕ 180) in
      let d_lon = fl.div (fl.mul (fl.sub lon2 lon1) fl.pi) (fl.of_ℕ 180) in
      let sin_lat = fl.sin (fl.div d_lat (fl.of_ℕ 2)) in
      let sin_lon = fl.sin (fl.div d_lon (fl.of_ℕ 2)) in
      let cosines = fl.mul (fl.cos lat1_rad) (fl.cos lat2_rad) in
      let a = fl.add (fl.mul sin_lat sin_lat) (fl.mul (fl.mul cosines sin_lon) sin_lon) in
      let c = fl.mul (fl.of_ℕ 2) (fl.atan2 (fl.sqrt a) (fl.sqrt (fl.sub (fl.of_ℕ 1) a))) in
      fl.mul (fl.of_ℕ 6371000) c

  unfoldable pub window_within_radius : List Point → Float64 → Float64 → Float64 → Bool
  window_within_radius [] lat lon radius = true
  window_within_radius (p ∷ ps) lat lon radius =
      let others = window_within_radius ps lat lon radius in
      if fl.lt radius (haversine_meters p.lat p.lon lat lon) then false else others

  -- The loop over `j`, for the window of `p` and `more`.
  unfoldable pub grow : Float64 → Point → List Point → Float64 → Float64 → List Point → Window
  grow radius p more sum_lat sum_lon [] = record {
    more = more;
    sum_lat = sum_lat;
    sum_lon = sum_lon;
    rest = [];
  }
  grow radius p more sum_lat sum_lon (q ∷ rest) =
      let trial = more ++ q ∷ [] in
      let trial_count = fl.of_ℕ (suc (length trial)) in
      let trial_lat = fl.add sum_lat q.lat in
      let trial_lon = fl.add sum_lon q.lon in
      let further = grow radius p trial trial_lat trial_lon rest in
      if is_zero q.timestamp_utc
        || not (
            window_within_radius (p ∷ trial) (fl.div trial_lat trial_count)
              (fl.div trial_lon trial_count) radius)
      then record { more = more; sum_lat = sum_lat; sum_lon = sum_lon; rest = q ∷ rest }
      else further

  -- The visit of a window that was grown.
  unfoldable pub visit_of : Point → Window → Visit
  visit_of p w = record {
    start_at = p.timestamp_utc;
    end_at = (last_of p w.more).timestamp_utc;
    centroid_lat = fl.div w.sum_lat (fl.of_ℕ (suc (length w.more)));
    centroid_lon = fl.div w.sum_lon (fl.of_ℕ (suc (length w.more)));
    point_count = suc (length w.more);
  }

  -- A window of one point is no visit.
  unfoldable pub is_visit : Config → Point → Window → Bool
  is_visit cfg p w = elim w.more [
    | [] ↦ false
    | _ ∷ _ ↦ leb_ℤ cfg.min_dwell (sub_time (last_of p w.more).timestamp_utc p.timestamp_utc)
  ]

  -- The loop over `i`; `none` means that the fuel ran out.
  unfoldable pub detect_loop : ℕ → Config → List Point → Option (List Visit)
  unfolding add_visit
  detect_loop fuel cfg [] = some []
  detect_loop zero cfg (p ∷ ps) = none
  detect_loop (suc fuel) cfg (p ∷ ps) =
      let w = grow cfg.max_radius_meters p [] p.lat p.lon ps in
      let skip = detect_loop fuel cfg ps in
      let after = detect_loop fuel cfg w.rest in
      if is_zero p.timestamp_utc
      then skip
      else if is_visit cfg p w
      then add_visit (visit_of p w) after
      else skip

  -- `Detect`
  unfoldable pub detect : List Point → Config → Option (List Visit)
  detect points cfg =
      if ltb (length points) 2
      then some []
      else if leb_ℤ cfg.min_dwell (pos 0) || fl.le cfg.max_radius_meters (fl.of_ℕ 0)
      then some []
      else detect_loop (length points) cfg points
