-- ===== src/PointsApi/Handlers.antt =====
-- `pointsHandler` and `recentPointsHandler`, with the sampling of a page.
use plexplore.Prelude.{
  ℕ, zero, suc, ◌+◌, ◌-◌, Bool, true, false, Option, none, some, List, [], ◌∷◌, length, take, ltb,
  leb, ◌==◌, ◌&&◌, ◌||◌, not, if◌then◌else◌, keep,
}
use plexplore.Prelude.Actions.{pure, ◌>>=◌}
use plexplore.GoTime.{Time}
use plexplore.Float64.{Float64, FloatOps}
use plexplore.Ingest.Models.{Bytes}
use plexplore.Store.{has_id}
use plexplore.Points.{RecentPoint, ExportPointFilter, list_points, list_recent_points}
use plexplore.PointsApi.{
  Api, PointsQuery, PointsPageResponse, from_outcome, export_filter_from_request, store_call,
  require_current_user, current_user_allowed_device_ids, parse_optional_device_id_param,
  parse_optional_limit_param_with_max, parse_optional_max_points_param, parse_optional_cursor_param,
  parse_optional_bool_param,
}

-- `points[i]`
unfoldable pub point_at : ℕ → List RecentPoint → Option RecentPoint
point_at i [] = none
point_at zero (p ∷ ps) = some p
point_at (suc i) (p ∷ ps) = point_at i ps

unfoldable pub last_point : List RecentPoint → Option RecentPoint
last_point [] = none
last_point (p ∷ ps) = elim (last_point ps) [ none ↦ some p | some q ↦ some q ]

unfoldable pub cons_at : ℕ → List RecentPoint → List RecentPoint → List RecentPoint
cons_at i points rest = elim (point_at i points) [ none ↦ rest | some p ↦ p ∷ rest ]

-- The index of a round: past the one before, and in the list.
unfoldable pub next_index : Option ℕ → ℕ → ℕ → ℕ
next_index prev idx n =
    let after : ℕ = elim prev [ none ↦ idx | some p ↦ if leb idx p then p + 1 else idx ] in
    if leb n after then n - 1 else after

module _ (fl : FloatOps) (to_int : Float64 → ℕ) where
  -- The rounds of the loop of `downsampleRecentPoints` from `i` on, of which `k` are left.
  unfoldable pub sample_loop : ℕ → ℕ → Float64 → Option ℕ → List RecentPoint → List RecentPoint
  sample_loop zero i step prev points = []
  sample_loop (suc k) i step prev points =
      let idx = next_index prev (to_int (fl.round (fl.mul (fl.of_ℕ i) step))) (length points) in
      cons_at idx points (sample_loop k (i + 1) step (some idx) points)

  -- `downsampleRecentPoints`
  unfoldable pub downsample_recent_points : List RecentPoint → ℕ → List RecentPoint
  downsample_recent_points points max_points =
      if leb (length points) max_points || (max_points == 0)
      then points
      else if max_points == 1
      then elim (last_point points) [ none ↦ [] | some p ↦ p ∷ [] ]
      else sample_loop max_points 0
          (fl.div (fl.of_ℕ (length points - 1)) (fl.of_ℕ (max_points - 1))) none points

-- The limit and the number of points of a page: those of `simplify` replace the plain ones.
unfoldable pub page_limits : PointsQuery → Bool → ℕ → Api (ℕ × ℕ)
page_limits q simplify limit = if not simplify then pure (limit, 1000) else do
  max_points ← from_outcome (parse_optional_max_points_param q.max_points 1000 5000)
  simplified ← from_outcome (parse_optional_limit_param_with_max q.limit 5000 20_000)
  pure (simplified, max_points)

unfoldable pub next_cursor_of : Bool → List RecentPoint → Option ℕ
next_cursor_of has_more points =
    if has_more then (elim (last_point points) [ none ↦ none | some p ↦ some p.seq ]) else none

module _ (fl : FloatOps) (to_int : Float64 → ℕ) where
  -- The reply, of the points that the store returned for `limit + 1`.
  unfoldable pub page_of : Bool → ℕ → ℕ → List RecentPoint → PointsPageResponse
  page_of simplify limit max_points found =
      let page = if ltb limit (length found) then take limit found else found in
      let points = if simplify then downsample_recent_points fl to_int page max_points else page in
      let sampled = simplify && ltb (length points) (length page) in
      record {
        points = points;
        next_cursor = next_cursor_of (ltb limit (length found)) points;
        sampled = sampled;
        sampled_from = if sampled then length page else 0;
      }

abbrev pub empty_page : PointsPageResponse
empty_page = record { points = []; next_cursor = none; sampled = false; sampled_from = 0 }

-- Whether the device of the query, if any, is one of the user's.
unfoldable pub device_allowed : Option ℕ → ℕ → Api Bool
device_allowed none user = pure true
device_allowed (some id) user = do
  allowed ← current_user_allowed_device_ids user
  pure (has_id id allowed)

module _ (text : Time → Bytes) (parse_time : Bytes → Option Time) (fl : FloatOps)
    (to_int : Float64 → ℕ) where
  -- The call of the store for a page, and the reply.
  unfoldable pub fetch_page : Bool → ExportPointFilter → ℕ × ℕ → Api PointsPageResponse
  fetch_page simplify filter (limit, max_points) = do
    found ← store_call (list_points text filter (limit + 1))
    pure (page_of fl to_int simplify limit max_points found)

  unfoldable pub limited_page : PointsQuery → ExportPointFilter → ℕ → ℕ → Api PointsPageResponse
  limited_page q filter plain cursor = do
    let simplify = parse_optional_bool_param q.simplify
    limits ← page_limits q simplify plain
    fetch_page simplify (record filter { after_seq = cursor }) limits

  -- The second half of `pointsHandler`, once the filter is complete but for the cursor.
  unfoldable pub read_page : PointsQuery → ExportPointFilter → Api PointsPageResponse
  read_page q filter = do
    plain ← from_outcome (parse_optional_limit_param_with_max q.limit 500 1000)
    cursor ← from_outcome (parse_optional_cursor_param q.cursor)
    limited_page q filter plain cursor

  -- `pointsHandler` for a user
  unfoldable pub user_page : PointsQuery → ExportPointFilter → ℕ → Api PointsPageResponse
  user_page q filter user = do
    allowed ← device_allowed filter.device_row_id user
    if not allowed then pure empty_page else read_page q (record filter { user_id = user })

  -- `pointsHandler`; the filter of the request has no cursor, and `after_seq` is 0 without one.
  unfoldable pub points_handler : Option ℕ → PointsQuery → Api PointsPageResponse
  points_handler current q = do
    filter ← export_filter_from_request parse_time q
    user ← require_current_user current
    user_page q filter user

  abbrev pub is_own : ℕ → List ℕ → RecentPoint → Bool
  is_own user allowed p = has_id p.device_id allowed && (p.user_id == user)

  -- The reply of `recentPointsHandler`, whose store call has no user.
  unfoldable pub read_recent : Option ℕ → ℕ → ℕ → List ℕ → Api (List RecentPoint)
  read_recent device limit user allowed = do
    points ← store_call (list_recent_points text device limit)
    pure (keep (is_own user allowed) points)

  unfoldable pub is_refused : Option ℕ → List ℕ → Bool
  is_refused none allowed = false
  is_refused (some id) allowed = not (has_id id allowed)

  -- `recentPointsHandler` for a user
  unfoldable pub user_recent : Option ℕ → ℕ → ℕ → Api (List RecentPoint)
  user_recent device limit user = do
    allowed ← current_user_allowed_device_ids user
    if is_refused device allowed then pure [] else read_recent device limit user allowed

  -- `recentPointsHandler`
  unfoldable pub recent_points_handler : Option ℕ → PointsQuery → Api (List RecentPoint)
  recent_points_handler current q = do
    device ← from_outcome (parse_optional_device_id_param q.device_id)
    limit ← from_outcome (parse_optional_limit_param_with_max q.limit 50 0)
    user ← require_current_user current
    user_recent device limit user
