-- ===== src/Points.antt =====
-- internal/store/points.go: the queries on `raw_points`, on the tables and with the comparison of
-- times by their texts of `VisitStore`. A query whose call fails, or whose rows do not scan, is one
-- that takes a fault. A limit of 0 stands for any that is not positive, and so does a user's id.
pub mod Pages
use mathlib.Core.List.{reverse}
use plexplore.Prelude.{
  ℕ, zero, suc, ◌+◌, Bool, true, false, Option, none, some, List, [], ◌∷◌, ◌++◌, map, Outcome, ok,
  err, length, take, ltb, leb, ◌==◌, ◌&&◌, ◌||◌, if◌then◌else◌, keep,
}
use plexplore.Prelude.Actions.{Action, pure, gets, continue, ◌>>=◌, ◌>>◌}
use plexplore.Prelude.Sorting.{sort_by}
use plexplore.GoTime.{Time}
use plexplore.Float64.{Float64}
use plexplore.Ingest.Models.{Bytes}
use plexplore.Store.{RawPoint}
use plexplore.VisitStore.{VisitDb, Sql, SqlError, driver_call, in_range, row_le, clamp_limit}

pub record RecentPoint : Type 0 where
  pub seq : ℕ
  pub user_id : ℕ
  pub device_id : ℕ
  pub source_type : Bytes
  pub timestamp_utc : Time
  pub lat : Float64
  pub lon : Float64

pub record ExportPointFilter : Type 0 where
  pub device_row_id : Option ℕ
  pub from_utc : Option Time
  pub to_utc : Option Time
  pub after_seq : ℕ
  pub user_id : ℕ

-- The scan of a row.
abbrev pub recent_point : RawPoint → RecentPoint
recent_point r = record {
  seq = r.seq;
  user_id = r.user_id;
  device_id = r.device_id;
  source_type = r.source_type;
  timestamp_utc = r.timestamp_utc;
  lat = r.point.lat;
  lon = r.point.lon;
}

-- `WHERE rp.device_id = ?`, where the device is given.
unfoldable pub of_device : Option ℕ → RawPoint → Bool
of_device device r = elim device [ none ↦ true | some id ↦ r.device_id == id ]

-- `AND rp.user_id = ?` and `AND rp.seq > ?`, where the number is positive.
unfoldable pub of_user : ℕ → RawPoint → Bool
of_user user r = (user == 0) || (r.user_id == user)

unfoldable pub after_cursor : ℕ → RawPoint → Bool
after_cursor seq r = (seq == 0) || ltb seq r.seq

module _ (text : Time → Bytes) where
  -- The rows that a filter asks for, whatever their sequence numbers.
  unfoldable pub is_wanted : ExportPointFilter → RawPoint → Bool
  is_wanted f r =
      of_device f.device_row_id r
      && (of_user f.user_id r && in_range text f.from_utc f.to_utc r.timestamp_utc)

  -- `WHERE` and `ORDER BY` of `ListPoints` and of `StreamPointsForExport`.
  unfoldable pub selected : ExportPointFilter → List RawPoint → List RawPoint
  selected f rows =
      sort_by (row_le text) (keep (λ r. is_wanted f r && after_cursor f.after_seq r) rows)

  -- `ListPoints`
  unfoldable pub list_points : ExportPointFilter → ℕ → Sql (List RecentPoint)
  list_points f limit = do
    driver_call
    gets λ s. map recent_point (take (clamp_limit 500 5000 limit) (selected f s.tables.raw_points))

  -- `ORDER BY rp.timestamp_utc DESC, rp.seq DESC`
  unfoldable pub newest_first : RawPoint → RawPoint → Bool
  newest_first r q = row_le text q r

  -- `ListRecentPoints`
  unfoldable pub list_recent_points : Option ℕ → ℕ → Sql (List RecentPoint)
  list_recent_points device limit = do
    driver_call
    gets λ s. map recent_point (
        take (clamp_limit 50 500 limit)
          (sort_by newest_first (keep (of_device device) s.tables.raw_points)))

  -- `ListPointsForExport`
  unfoldable pub list_points_for_export : ExportPointFilter → Sql (List RecentPoint)
  list_points_for_export f = do
    driver_call
    gets λ s. map recent_point (
        sort_by (row_le text) (
          keep
            (λ r. of_device f.device_row_id r && in_range text f.from_utc f.to_utc r.timestamp_utc)
            s.tables.raw_points))

-- The loop of `StreamPointsForExport`: the callback is called on one point after the other, until it
-- fails. The result is the count of the points before, with the callback's error, if any.
unfoldable pub stream_loop :
    {T E : Type 0}
    → (RecentPoint → T → Option E × T)
    → ℕ
    → List RecentPoint
    → T
    → (ℕ × Option E) × T
stream_loop fn count [] t = ((count, none), t)
stream_loop fn count (p ∷ ps) t =
    let (failed, t') = fn p t in
    let rest = stream_loop fn (count + 1) ps t' in
    elim failed [ some e ↦ ((count, some e), t') | none ↦ rest ]

-- `StreamPointsForExport`; an error of the database comes before the first point.
unfoldable pub stream_points_for_export :
    {T E : Type 0}
    → (Time → Bytes)
    → ExportPointFilter
    → ℕ
    → (RecentPoint → T → Option E × T)
    → T
    → VisitDb
    → Outcome SqlError ((ℕ × Option E) × T) × VisitDb
stream_points_for_export text f limit fn t s =
    let (called, s') = driver_call s in
    let rows = take (clamp_limit 5000 50000 limit) (selected text f s.tables.raw_points) in
    (elim called [ err e ↦ err e | ok _ ↦ ok (stream_loop fn 0 (map recent_point rows) t) ], s')
