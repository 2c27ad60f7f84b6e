-- ===== src/PointsApi/Cursor.antt =====
-- The cursor of a page leads to the rest of the points.
use plexplore.Prelude.{
  ℕ, ◌+◌, ◌≤◌, ◌≡◌, refl, ◌⊎◌, Bool, false, none, some, List, map, length, length-map, length-take,
  take, drop, ltb, arith,
}
use plexplore.GoTime.{Time}
use plexplore.Float64.{Float64, FloatOps}
use plexplore.Ingest.Models.{Bytes}
use plexplore.Store.{RawPoint}
use plexplore.VisitStore.{clamp_limit}
use plexplore.Points.{RecentPoint, recent_point, ExportPointFilter, selected}
use plexplore.PointsApi.{PointsPageResponse}
use plexplore.PointsApi.Handlers.{next_cursor_of, page_of}

module _ (text : Time → Bytes) (fl : FloatOps) (to_int : Float64 → ℕ) where
  -- The points that `ListPoints` returns for one more than the limit.
  abbrev pub answer : ExportPointFilter → List RawPoint → ℕ → List RecentPoint
  answer f rows limit =
      map recent_point (take (clamp_limit 500 5000 (limit + 1)) (selected text f rows))

  -- What a page and its cursor come to: the first points of those selected, and a cursor with which
  -- the next request selects all others; or all points and no cursor.
  abbrev pub Continued : ExportPointFilter → List RawPoint → ℕ → PointsPageResponse → Type 0
  Continued f rows limit page =
      (page.points ≡ map recent_point (take limit (selected text f rows)))
      × (((c : ℕ) × (page.next_cursor ≡ some c)
            × (selected text (record f { after_seq = c }) rows ≡ drop limit (selected text f rows)))
          ⊎ ((page.next_cursor ≡ none)
              × (take limit (selected text f rows) ≡ selected text f rows)))

  -- A limit of 5000 or more, which a sampled page has by default, never gets a cursor, as the store
  -- returns 5000 points at most: the points after them cannot be reached.
  pub page_of-capped :
      (f : ExportPointFilter) (rows : List RawPoint) (simplify : Bool) (limit max_points : ℕ)
      → 5000 ≤ limit
      → (page_of fl to_int simplify limit max_points (answer f rows limit)).next_cursor ≡ none
  unfolding page_of next_cursor_of clamp_limit
  page_of-capped f rows simplify limit max_points high =
      let clamp : clamp_limit 500 5000 (limit + 1) ≡ 5000 = ground arith in
      let few : length (answer f rows limit) ≤ 5000 = omega (
        arith,
        length-map (take (clamp_limit 500 5000 (limit + 1)) (selected text f rows)) recent_point,
        length-take (clamp_limit 500 5000 (limit + 1)) (selected text f rows),
        clamp,
      ) in
      let no_more : ltb limit (length (answer f rows limit)) ≡ false = ground (arith, few) in
      rw (no_more, page_of) refl
