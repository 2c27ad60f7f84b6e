-- ===== src/PointsApi/Owned.antt =====
-- A reply has no point of another user.
use plexplore.Prelude.{
  ℕ, ◌+◌, ◌<◌, ◌≡◌, refl, inl, inr, Bool, true, Option, none, some, List, [], Outcome, take, ◌&&◌,
  not, if◌then◌else◌, keep, All, All-map, All-keep, All-take, arith, Bool-cases, Outcome-cases,
}
use plexplore.Prelude.Actions.{pure, ◌>>=◌}
use plexplore.Prelude.Sorting.{All-sort_by}
use plexplore.GoTime.{Time}
use plexplore.Float64.{Float64, FloatOps}
use plexplore.Ingest.Models.{Bytes}
use plexplore.Store.{RawPoint}
use plexplore.VisitStore.{VisitDb, driver_call, row_le, clamp_limit}
use plexplore.Points.{
  RecentPoint, ExportPointFilter, of_user, is_wanted, after_cursor, selected, list_points,
  list_recent_points,
}
use plexplore.PointsApi.{
  from_outcome, parse_optional_limit_param_with_max, parse_optional_cursor_param,
  parse_optional_bool_param, parse_optional_device_id_param, export_filter_from_request, ApiError,
  PointsQuery, PointsPageResponse, store_call, require_current_user,
  current_user_allowed_device_ids,
}
use plexplore.PointsApi.Handlers.{
  page_of, user_page, user_recent, is_own, fetch_page, limited_page, page_limits, read_page,
  device_allowed, points_handler, read_recent, is_refused, recent_points_handler, empty_page,
}
use plexplore.PointsApi.Replies.{
  Holds, bind-Holds, after-Holds, All-mapped, store_call-Holds, All-page_of,
}

module _ (text : Time → Bytes) where
  selected-Wanted :
      (f : ExportPointFilter) (rows : List RawPoint)
      → All (λ r. is_wanted text f r ≡ true) (selected text f rows)
  unfolding selected
  selected-Wanted f rows =
      let test = λ (r : RawPoint). is_wanted text f r && after_cursor f.after_seq r in
      All-sort_by (row_le text) (λ r. is_wanted text f r ≡ true) (keep test rows)
        (All-keep (λ r. is_wanted text f r ≡ true) test rows λ r e. ground arith)

  wanted-own :
      (f : ExportPointFilter) (r : RawPoint)
      → 0 < f.user_id
      → is_wanted text f r ≡ true
      → r.user_id ≡ f.user_id
  unfolding is_wanted of_user
  wanted-own f r positive e = ground arith

  list_points-own :
      (f : ExportPointFilter) (limit : ℕ) (s : VisitDb)
      → 0 < f.user_id
      → Holds (All λ (p : RecentPoint). p.user_id ≡ f.user_id) (list_points text f limit s)
  unfolding list_points
  list_points-own f limit s positive =
      let rows = (driver_call s).1.tables.raw_points in
      let n = clamp_limit 500 5000 limit in
      elim (Outcome-cases (driver_call s).0) [
        | inl (x, e) ↦ rw e (
            All-mapped (λ p. p.user_id ≡ f.user_id) (take n (selected text f rows))
              (All-take (λ r. r.user_id ≡ f.user_id) n (selected text f rows)
                (All-map _ (λ r. wanted-own f r positive) (selected text f rows)
                  (selected-Wanted f rows))))
        | inr (x, e) ↦ rw e tt
      ]

  module _ (parse_time : Bytes → Option Time) (fl : FloatOps) (to_int : Float64 → ℕ) where
    abbrev OwnPage : ℕ → PointsPageResponse → Type 0
    OwnPage user page = All (λ p. p.user_id ≡ user) page.points

    fetch_page-own :
        (simplify : Bool) (f : ExportPointFilter) (limits : ℕ × ℕ) (s : VisitDb)
        → 0 < f.user_id
        → Holds (OwnPage f.user_id) (fetch_page text parse_time fl to_int simplify f limits s)
    unfolding fetch_page
    fetch_page-own simplify f (limit, n) s positive =
        bind-Holds (All λ (p : RecentPoint). p.user_id ≡ f.user_id) (OwnPage f.user_id)
          (store_call (list_points text f (limit + 1)))
          (λ found. pure (page_of fl to_int simplify limit n found)) s
          (store_call-Holds _ (list_points text f (limit + 1)) s
            (list_points-own f (limit + 1) s positive))
          λ found s' own.
            All-page_of (λ p. p.user_id ≡ f.user_id) fl to_int simplify limit n found own

    read_page-own :
        (q : PointsQuery) (f : ExportPointFilter) (s : VisitDb)
        → 0 < f.user_id
        → Holds (OwnPage f.user_id) (read_page text parse_time fl to_int q f s)
    unfolding read_page limited_page
    read_page-own q f s positive =
        let simplify = parse_optional_bool_param q.simplify in
        let limited = limited_page text parse_time fl to_int q f in
        after-Holds (OwnPage f.user_id)
          (from_outcome (parse_optional_limit_param_with_max q.limit 500 1000))
          (λ plain.
            from_outcome (parse_optional_cursor_param q.cursor) >>= λ cursor. limited plain cursor)
          s
          λ plain s1.
            after-Holds (OwnPage f.user_id) (from_outcome (parse_optional_cursor_param q.cursor))
              (limited plain) s1
              λ cursor s2.
                after-Holds (OwnPage f.user_id) (page_limits q simplify plain)
                  (fetch_page text parse_time fl to_int simplify (record f { after_seq = cursor }))
                  s2
                  λ limits s3.
                    fetch_page-own simplify (record f { after_seq = cursor }) limits s3 positive

    user_page-own :
        (q : PointsQuery) (f : ExportPointFilter) (user : ℕ) (s : VisitDb)
        → 0 < user
        → Holds (OwnPage user) (user_page text parse_time fl to_int q f user s)
    unfolding user_page
    user_page-own q f user s positive =
        let read = read_page text parse_time fl to_int q (record f { user_id = user }) in
        after-Holds (OwnPage user) (device_allowed f.device_row_id user)
          (λ allowed. if not allowed then pure empty_page else read) s
          λ allowed s1. elim (Bool-cases (not allowed)) [
            | inl e ↦ rw e tt
            | inr e ↦ rw e (read_page-own q (record f { user_id = user }) s1 positive)
          ]

    -- What the handlers answer: without a user no points, with a user only the user's own.
    abbrev pub Answers :
        {A : Type 0} → (A → List RecentPoint) → Option ℕ → Outcome ApiError A × VisitDb → Type 0
    Answers points none r = Holds (λ _. ⊥) r
    Answers points (some user) r =
        Holds (λ a. All (λ (p : RecentPoint). p.user_id ≡ user) (points a)) r

    page_handler-own :
        (current : Option ℕ) (q : PointsQuery) (s : VisitDb)
        → ((user : ℕ) → current ≡ some user → 0 < user)
        → Answers
            (λ page. page.points)
            current
            (points_handler text parse_time fl to_int current q s)
    unfolding points_handler require_current_user
    page_handler-own none q s positive =
        after-Holds (λ _. ⊥) (export_filter_from_request parse_time q)
          (λ filter. require_current_user none >>= user_page text parse_time fl to_int q filter) s
          λ filter s1. tt
    page_handler-own (some user) q s positive =
        after-Holds (OwnPage user) (export_filter_from_request parse_time q)
          (λ filter.
            require_current_user (some user) >>= user_page text parse_time fl to_int q filter)
          s λ filter s1. user_page-own q filter user s1 (positive user refl)

    user_recent-own :
        (device : Option ℕ) (limit user : ℕ) (s : VisitDb)
        → Holds
            (All λ (p : RecentPoint). p.user_id ≡ user)
            (user_recent text parse_time fl to_int device limit user s)
    unfolding user_recent read_recent
    user_recent-own device limit user s =
        let Own = All λ (p : RecentPoint). p.user_id ≡ user in
        after-Holds Own (current_user_allowed_device_ids user)
          (λ allowed.
            if is_refused text parse_time fl to_int device allowed
            then pure []
            else read_recent text parse_time fl to_int device limit user allowed)
          s
          λ allowed s1. elim (Bool-cases (is_refused text parse_time fl to_int device allowed)) [
            | inl e ↦ rw e tt
            | inr e ↦ rw e (
                after-Holds Own (store_call (list_recent_points text device limit))
                  (λ points. pure (keep (is_own text parse_time fl to_int user allowed) points)) s1
                  λ points s2.
                    All-keep (λ p. p.user_id ≡ user) (is_own text parse_time fl to_int user allowed)
                      points λ p own. ground arith)
          ]

    recent_handler-own :
        (current : Option ℕ) (q : PointsQuery) (s : VisitDb)
        → Answers
            (λ points. points)
            current
            (recent_points_handler text parse_time fl to_int current q s)
    unfolding recent_points_handler require_current_user
    recent_handler-own none q s =
        let device = from_outcome (parse_optional_device_id_param q.device_id) in
        let limit = from_outcome (parse_optional_limit_param_with_max q.limit 50 0) in
        after-Holds (λ _. ⊥) device
          (λ d.
            limit >>= λ n. require_current_user none >>= user_recent text parse_time fl to_int d n)
          s
          λ d s1.
            after-Holds (λ _. ⊥) limit
              (λ n. require_current_user none >>= user_recent text parse_time fl to_int d n) s1
              λ n s2. tt
    recent_handler-own (some user) q s =
        let Own = All λ (p : RecentPoint). p.user_id ≡ user in
        let device = from_outcome (parse_optional_device_id_param q.device_id) in
        let limit = from_outcome (parse_optional_limit_param_with_max q.limit 50 0) in
        after-Holds Own device
          (λ d. limit >>= λ n.
            require_current_user (some user) >>= user_recent text parse_time fl to_int d n)
          s
          λ d s1.
            after-Holds Own limit
              (λ n. require_current_user (some user) >>= user_recent text parse_time fl to_int d n)
              s1 λ n s2. user_recent-own d n user s2

    -- The two handlers of the points answer without a user of the session with an error, and with a
    -- user, whose id is positive, with an error or with points of that user alone, whatever the
    -- query asks for and however the floating-point numbers of the sampling behave.
    pub handlers-own :
        (current : Option ℕ) (q : PointsQuery) (s : VisitDb)
        → ((user : ℕ) → current ≡ some user → 0 < user)
        → Answers
            (λ page. page.points)
            current
            (points_handler text parse_time fl to_int current q s)
          × Answers
              (λ points. points)
              current
              (recent_points_handler text parse_time fl to_int current q s)
    handlers-own current q s positive =
        (page_handler-own current q s positive, recent_handler-own current q s)
