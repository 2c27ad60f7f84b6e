-- ===== src/Exports.antt =====
-- internal/api/exports.go: the two exports, from the query's parameters to the points of the file.
-- They differ in the texts that a point is written as, which are left out: the body is the list of
-- the points. Each write takes the next entry of `faults`, which says whether it fails.
pub mod Complete
use plexplore.Prelude.{
  ℕ, zero, suc, ◌+◌, Bool, true, false, Option, none, some, List, [], ◌∷◌, ◌++◌, Outcome, ok, err,
  ◌==◌, not, if◌then◌else◌,
}
use plexplore.Prelude.Actions.{Action, pure, raise, gets, continue, ◌>>=◌, ◌>>◌}
use plexplore.GoTime.{Time}
use plexplore.Ingest.Models.{Bytes}
use plexplore.VisitStore.{VisitDb, SqlError}
use plexplore.Points.{RecentPoint, ExportPointFilter, stream_points_for_export}
use plexplore.PointsApi.{
  Api, ApiError, device_not_found, store_failed, PointsQuery, from_outcome,
  export_filter_from_request, require_current_user, parse_optional_limit_param_with_max,
}
use plexplore.PointsApi.Handlers.{device_allowed}

-- The writer of the body.
pub record Body : Type 0 where
  pub points : List RecentPoint
  pub faults : List Bool

-- The trailer `X-Export-Error`
pub data ExportError : Type 0 where
  stream_write_failed stream_failed : ExportError

pub record Export : Type 0 where
  pub points : List RecentPoint
  pub trailer : Option ExportError

-- `writeFeature` and `writeTrackPoint`
unfoldable pub write_point : RecentPoint → Body → Option ExportError × Body
write_point p b = elim b.faults [
  | [] ↦ (none, record { points = b.points ++ p ∷ []; faults = [] })
  | fails ∷ later ↦
      if fails
      then (some stream_write_failed, record b { faults = later })
      else (none, record { points = b.points ++ p ∷ []; faults = later })
]

-- The callback: the first point is in the body already.
unfoldable pub write_other : ℕ → RecentPoint → Body → Option ExportError × Body
write_other first p b = if p.seq == first then (none, b) else write_point p b

-- The callback of `probeExportFirstPoint`
unfoldable pub remember_point :
    RecentPoint → Option RecentPoint → Option ExportError × Option RecentPoint
remember_point p found = (none, some p)

unfoldable pub found_first :
    Outcome SqlError ((ℕ × Option ExportError) × Option RecentPoint)
    → Outcome ApiError (Option RecentPoint)
found_first (ok (_, found)) = ok found
found_first (err e) = err (store_failed e)

module _ (text : Time → Bytes) where
  -- `probeExportFirstPoint`
  unfoldable pub probe_export_first_point : ExportPointFilter → Api (Option RecentPoint)
  probe_export_first_point f s =
      let (r, s') = stream_points_for_export text f 1 remember_point none s in (found_first r, s')

  -- What the stream ends with: an error of the database or of a write is in the trailer.
  unfoldable pub export_of : Body → Outcome SqlError ((ℕ × Option ExportError) × Body) → Export
  export_of before (err e) = record { points = before.points; trailer = some stream_failed }
  export_of before (ok ((count, none), b)) = record { points = b.points; trailer = none }
  export_of before (ok ((count, some e), b)) = record {
    points = b.points;
    trailer = some stream_failed;
  }

  unfoldable pub stream_others :
      ExportPointFilter → ℕ → RecentPoint → Option ExportError × Body → Api Export
  stream_others f limit first (some e, b) s =
      (ok (record { points = b.points; trailer = some e }), s)
  stream_others f limit first (none, b) s =
      let (r, s') = stream_points_for_export text f limit (write_other first.seq) b s in
      (ok (export_of b r), s')

  -- The body, after the probe.
  unfoldable pub write_after : List Bool → ExportPointFilter → ℕ → Option RecentPoint → Api Export
  write_after faults f limit none = pure (record { points = []; trailer = none })
  write_after faults f limit (some p) =
      stream_others f limit p (write_point p (record { points = []; faults = faults }))

  -- The handlers once the filter and the limit are known.
  unfoldable pub write_export : List Bool → ExportPointFilter → ℕ → Api Export
  write_export faults f limit = do
    first ← probe_export_first_point f
    write_after faults f limit first

  -- `geoJSONExportHandler` and `gpxExportHandler`
  unfoldable pub export_handler :
      (Bytes → Option Time) → List Bool → Option ℕ → PointsQuery → Api Export
  export_handler parse_time faults current q = do
    filter ← export_filter_from_request parse_time q
    user ← require_current_user current
    allowed ← device_allowed filter.device_row_id user
    if not allowed then raise device_not_found else do
      limit ← from_outcome (parse_optional_limit_param_with_max q.limit 5000 20_000)
      write_export faults (record filter { user_id = user }) limit
