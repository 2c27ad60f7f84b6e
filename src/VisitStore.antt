-- ===== src/VisitStore.antt =====
-- internal/store/visits.go and visit_generation_state.go: the tables `visits` and
-- `visit_generation_state`, with the queries on `raw_points` that go with them. An id of 0 stands
-- for any that is not positive. Each call to the database takes the next entry of `faults`, which
-- says whether the driver fails in it; the changes of a transaction are made at its commit.
--
-- The columns of times are texts in the tables, written by `Format(time.RFC3339Nano)`, and compared
-- as texts: `text` is that format, and `before` is the order of the texts' bytes.
pub mod Rebuild
pub mod Rewriting
pub mod Again
use plexplore.Prelude.{
  ℕ, zero, suc, ◌+◌, String, Bool, true, false, Option, none, some, List, [], ◌∷◌, ◌++◌, map,
  Outcome, ok, err, length, take, ltb, leb, ◌==◌, ◌&&◌, if◌then◌else◌, keep, nat_eq,
}
use mathlib.Core.Option.{get_or}
use plexplore.Prelude.Dict
use plexplore.Prelude.Dict.{Dict}
use plexplore.Prelude.Actions.{Action, pure, raise, gets, modify, continue, ◌>>=◌, ◌>>◌}
use plexplore.Prelude.Sorting.{sort_by}
use plexplore.GoTime.{Time}
use plexplore.Float64.{FloatOps}
use plexplore.Ingest.Models.{Bytes}
use plexplore.Store.{Db, Device, RawPoint}
use plexplore.Visits.{Config, Point, Visit, detect}

pub record VisitRow : Type 0 where
  pub id : ℕ
  pub device_id : ℕ
  pub visit : Visit

pub record VisitDb : Type 0 where
  pub tables : Db
  pub visits : List VisitRow
  pub next_visit_id : ℕ
  -- The table `visit_generation_state`, by its primary key.
  pub states : Dict ℕ ℕ
  pub faults : List Bool

pub data SqlError : Type 0 where
  device_id_required user_id_required driver_failed : SqlError

abbrev pub Sql {ℓ} : Type ℓ → Type ℓ
Sql A = Action VisitDb SqlError A

next_fault : List Bool → Bool
next_fault [] = false
next_fault (b ∷ bs) = b

later_faults : List Bool → List Bool
later_faults [] = []
later_faults (b ∷ bs) = bs

-- A call to the database.
unfoldable pub driver_call : Sql (Unit {0})
unfolding next_fault later_faults
driver_call s = (
  if next_fault s.faults then err driver_failed else ok tt,
  record s { faults = later_faults s.faults },
)

-- The calls of the loop that inserts the visits.
unfoldable pub insert_calls : List Visit → Sql (Unit {0})
insert_calls [] = pure tt
insert_calls (v ∷ vs) = do driver_call; insert_calls vs

-- `if deviceID <= 0`
unfoldable pub require_device : ℕ → Sql (Unit {0})
require_device id = if id == 0 then raise device_id_required else pure tt

-- `if userID <= 0`
unfoldable pub require_user : ℕ → Sql (Unit {0})
require_user id = if id == 0 then raise user_id_required else pure tt

-- The order of texts: the columns are compared byte by byte.
unfoldable pub bytes_le : Bytes → Bytes → Bool
bytes_le [] bs = true
bytes_le (a ∷ as') [] = false
bytes_le (a ∷ as') (b ∷ bs) =
    let rest = bytes_le as' bs in if ltb a b then true else if a == b then rest else false

module _ (text : Time → Bytes) where
  abbrev pub time_le : Time → Time → Bool
  time_le t u = bytes_le (text t) (text u)

  -- `AND column >= ?` and `AND column <= ?`, where the bound is given.
  unfoldable pub in_range : Option Time → Option Time → Time → Bool
  in_range from to t =
      (elim from [ none ↦ true | some a ↦ time_le a t ])
      && (elim to [ none ↦ true | some b ↦ time_le t b ])

  -- `ORDER BY rp.timestamp_utc ASC, rp.seq ASC`
  unfoldable pub row_le : RawPoint → RawPoint → Bool
  row_le r q =
      if time_le r.timestamp_utc q.timestamp_utc
      then (if time_le q.timestamp_utc r.timestamp_utc then leb r.seq q.seq else true)
      else false

  abbrev pub detect_point : RawPoint → Point
  detect_point r = record { timestamp_utc = r.timestamp_utc; lat = r.point.lat; lon = r.point.lon }

  -- The rows of `listPointsForVisitDetectionByDeviceID`, as points of the detector.
  unfoldable pub points_for_detection : ℕ → Option Time → Option Time → VisitDb → List Point
  points_for_detection id from to s = map detect_point (
      sort_by row_le
        (keep (λ r. r.device_id == id && in_range from to r.timestamp_utc) s.tables.raw_points))

  -- `DELETE FROM visits`: the rows of a device whose start is in the range.
  unfoldable pub is_rewritten : ℕ → Option Time → Option Time → VisitRow → Bool
  is_rewritten id from to v = v.device_id == id && in_range from to v.visit.start_at

  unfoldable pub number_rows : ℕ → ℕ → List Visit → List VisitRow
  number_rows id next [] = []
  number_rows id next (v ∷ vs) =
      record { id = next; device_id = id; visit = v } ∷ number_rows id (next + 1) vs

  -- The transaction, once it is committed.
  unfoldable pub rewrite_visits : ℕ → Option Time → Option Time → List Visit → VisitDb → VisitDb
  rewrite_visits id from to found s = record s {
    visits =
        keep (λ v. if is_rewritten id from to v then false else true) s.visits
        ++ number_rows id s.next_visit_id found;
    next_visit_id = s.next_visit_id + length found;
  }

  -- The transaction: `BeginTx`, the delete, the prepare, the inserts and the commit.
  unfoldable pub replace_visits : ℕ → Option Time → Option Time → List Visit → Sql ℕ
  replace_visits id from to found = do
    driver_call
    driver_call
    driver_call
    insert_calls found
    driver_call
    modify (rewrite_visits id from to found)
    pure (length found)

  module _ (fl : FloatOps) where
    unfoldable pub detected : ℕ → Option Time → Option Time → Config → VisitDb → List Visit
    detected id from to cfg s = get_or (detect fl (points_for_detection id from to s) cfg) []

    -- `RebuildVisitsForDeviceRange`. The detector's fuel suffices, so its `none` does not occur.
    unfoldable pub rebuild_visits_for_device_range : ℕ → Option Time → Option Time → Config → Sql ℕ
    rebuild_visits_for_device_range id from to cfg = do
      require_device id
      driver_call
      found ← gets (detected id from to cfg)
      replace_visits id from to found

    -- `RebuildVisitsForDeviceID`
    unfoldable pub rebuild_visits_for_device_id : ℕ → Config → Sql ℕ
    rebuild_visits_for_device_id id cfg = rebuild_visits_for_device_range id none none cfg

-- `GetVisitGenerationState`, of the sequence number
unfoldable pub get_visit_generation_state : ℕ → Sql (Option ℕ)
get_visit_generation_state id = do
  require_device id
  driver_call
  gets (λ s. Dict.lookup id s.states)

-- `UpsertVisitGenerationState`. That the device exists, a foreign key of the table, is not checked
-- here: its violation is one of the driver's failures.
unfoldable pub upsert_visit_generation_state : ℕ → ℕ → Sql (Unit {0})
upsert_visit_generation_state id seq = do
  require_device id
  driver_call
  modify (λ s. record s { states = Dict.insert id seq s.states })

-- `SELECT MAX(seq)`, 0 where there is no row
unfoldable pub max_seq : ℕ → List RawPoint → ℕ
max_seq id [] = 0
max_seq id (r ∷ rs) =
    let rest = max_seq id rs in if r.device_id == id && ltb rest r.seq then r.seq else rest

-- `GetMaxPointSeqForDevice`; the test for a result that is not positive is the one for 0.
unfoldable pub get_max_point_seq_for_device : ℕ → Sql (Option ℕ)
get_max_point_seq_for_device id = do
  require_device id
  driver_call
  top ← gets (λ s. max_seq id s.tables.raw_points)
  if top == 0 then pure none else pure (some top)

unfoldable pub timestamp_of : ℕ → ℕ → List RawPoint → Option Time
timestamp_of id seq [] = none
timestamp_of id seq (r ∷ rs) =
    let rest = timestamp_of id seq rs in
    if r.device_id == id && r.seq == seq then some r.timestamp_utc else rest

-- `GetPointTimestampForDeviceSeq`
unfoldable pub get_point_timestamp_for_device_seq : ℕ → ℕ → Sql (Option Time)
get_point_timestamp_for_device_seq id seq = do
  require_device id
  if seq == 0
      then pure none
      else do driver_call; gets (λ s. timestamp_of id seq s.tables.raw_points)

-- The rows of `ListVisits`: the join with `devices` finds the owner and the name of the device.
unfoldable pub device_of : ℕ → List Device → Option Device
device_of id [] = none
device_of id (d ∷ ds) = let rest = device_of id ds in if d.id == id then some d else rest

unfoldable pub clamp_limit : ℕ → ℕ → ℕ → ℕ
clamp_limit default highest limit =
    if limit == 0 then default else if ltb highest limit then highest else limit

unfoldable pub is_listed :
    (Time → Bytes) → ℕ → Option ℕ → Option Time → Option Time → List Device → VisitRow → Bool
is_listed text user device from to devices v = elim (device_of v.device_id devices) [
  | none ↦ false
  | some d ↦
      (d.user_id == user)
      && ((elim device [ none ↦ true | some id ↦ v.device_id == id ])
          && in_range text from to v.visit.start_at)
]

-- `ORDER BY v.start_at ASC, v.id ASC`
unfoldable pub visit_row_le : (Time → Bytes) → VisitRow → VisitRow → Bool
visit_row_le text v w =
    if time_le text v.visit.start_at w.visit.start_at
    then (if time_le text w.visit.start_at v.visit.start_at then leb v.id w.id else true)
    else false

-- `ListVisits`; a limit of 0 stands for any that is not positive. The name of the device, which the
-- join adds to a row, is left out.
unfoldable pub list_visits :
    (Time → Bytes) → ℕ → Option ℕ → Option Time → Option Time → ℕ → Sql (List VisitRow)
list_visits text user device from to limit = do
  require_user user
  driver_call
  gets λ s. take (clamp_limit 100 5000 limit) (
      sort_by (visit_row_le text)
        (keep (is_listed text user device from to s.tables.devices) s.visits))

-- `ListDevices` of devices.go; the rows stand in the order of their ids.
unfoldable pub list_devices : Sql (List Device)
list_devices = do driver_call; gets (λ s. s.tables.devices)
