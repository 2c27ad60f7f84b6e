-- ===== src/Tests/PointRuns.antt =====
-- The points' handlers and the exports, at three rows of one user.
use plexplore.Prelude.{ℕ, ◌<◌, ◌≡◌, refl, none, some, [], ok, arith, Option, map, take, true}
use plexplore.GoTime.{Time}
use plexplore.Ingest.Models.{Bytes}
use plexplore.Points.{
  ExportPointFilter, recent_point, selected, is_wanted, after_cursor, of_user, of_device,
}
use plexplore.Points.Pages.{Rising}
use plexplore.Prelude.Sorting.{sort_by, insert_by}
use plexplore.VisitStore.{in_range, row_le, bytes_le}
use plexplore.PointsApi.{PointsQuery}
use plexplore.PointsApi.Handlers.{points_handler, recent_points_handler, page_of}
use plexplore.PointsApi.Owned.{Answers, handlers-own}
use plexplore.PointsApi.Cursor.{answer, page_of-capped}
use plexplore.Exports.{write_export}
use plexplore.Exports.Complete.{write_export_complete}
use plexplore.Tests.Samples.{whole_numbers}
use plexplore.Tests.VisitRuns.{letter, three_rows}

abbrev no_times : Bytes → Option Time
no_times t = none

abbrev plain_query : PointsQuery
plain_query = record {
  device_id = [];
  from = [];
  to = [];
  limit = [];
  cursor = [];
  simplify = [];
  max_points = [];
}

abbrev itself : ℕ → ℕ
itself n = n

one_positive : (user : ℕ) → (some 1) ≡ some user → 0 < user
one_positive user e = ground arith

handlers-own_example :
    let page =
      points_handler letter no_times whole_numbers itself (some 1) plain_query (three_rows []) in
    let recent =
      recent_points_handler letter no_times whole_numbers itself
        (some 1)
        plain_query
        (three_rows []) in
    Answers letter no_times whole_numbers itself (λ p. p.points) (some 1) page
    × Answers letter no_times whole_numbers itself (λ p. p) (some 1) recent
handlers-own_example =
    handlers-own letter no_times whole_numbers itself (some 1) plain_query (three_rows [])
      one_positive

abbrev all_of_user : ExportPointFilter
all_of_user = record {
  device_row_id = none;
  from_utc = none;
  to_utc = none;
  after_seq = 0;
  user_id = 1;
}

three-Rising : Rising (selected letter all_of_user (three_rows []).tables.raw_points)
unfolding selected sort_by insert_by is_wanted after_cursor of_user of_device in_range row_le
    bytes_le
three-Rising = ((omega arith, (omega arith, tt)), ((omega arith, tt), (tt, tt)))

page_of-capped_example :
    let rows = (three_rows []).tables.raw_points in
    (page_of whole_numbers itself true 5000 1000
      (answer letter whole_numbers itself all_of_user rows 5000)).next_cursor
    ≡ none
page_of-capped_example =
    page_of-capped letter whole_numbers itself all_of_user (three_rows []).tables.raw_points true
      5000 1000 (omega arith)

write_export_complete_example :
    (write_export letter [] all_of_user 2 (three_rows [])).0
    ≡ ok (record {
      points =
          map recent_point (take 2 (selected letter all_of_user (three_rows []).tables.raw_points));
      trailer = none;
    })
write_export_complete_example =
    write_export_complete letter all_of_user 2 (three_rows []) refl (omega arith) (omega arith)
      three-Rising
