-- ===== src/Buffer.antt =====
-- internal/buffer/manager.go: the FIFO of spool records in RAM. The mutex makes each method one
-- step, so a method is a function from the old state to the new one. `now` is what `nowFn` returns
-- during the call. `size_of` is `estimateRecordBytes`: the length of the JSON text plus one, or
-- `none` where `json.Marshal` fails.
pub mod Branches
pub mod Accounts
pub mod Fifo
pub mod Limits
pub mod Reachable
pub mod Dedupe
pub mod Marking
use mathlib.Core.List.{foldl}
use plexplore.Prelude.{
  ℕ, suc, ◌+◌, ◌-◌, ◌*◌, min, String, Bool, true, false, Option, none, some, List, [], ◌∷◌, ◌++◌,
  map, Outcome, ok, err, length, take, drop, ltb, leb, ◌==◌, ◌&&◌, ◌||◌, not, if◌then◌else◌, nat_eq,
  string_eq,
}
use mathlib.Core.Option
use mathlib.Core.Option.{get_or}
use plexplore.Prelude.Dict
use plexplore.Prelude.Dict.{Dict}
use plexplore.Prelude.Int.{pos, ltb_ℤ, leb_ℤ, ℤ, pos_part}
use plexplore.GoTime.{Time, Duration, is_zero, sub_time, magnitude, second}
use plexplore.Float64.{Float64, FloatOps}
use plexplore.Ingest.Models.{SpoolRecord}
use plexplore.Ingest.Json.{Json}

pub data Error : Type 0 where
  max_points_exceeded max_bytes_exceeded estimate_failed : Error

pub record Stats : Type 0 where
  pub total_buffered_points : ℕ
  pub total_buffered_bytes : ℕ
  pub oldest_buffered_age : Duration

pub record Entry : Type 0 where
  pub item : SpoolRecord
  pub size_bytes : ℕ
  pub enqueued_at : Time

pub record DedupeState : Type 0 where
  pub timestamp_utc : Time
  pub lat : Float64
  pub lon : Float64

pub record Manager : Type 0 where
  pub max_points : ℕ
  pub max_bytes : ℕ
  pub total_points : ℕ
  pub total_bytes : ℕ
  pub queue : List Entry
  pub device_counts : Dict String ℕ
  pub last_by_device : Dict String DedupeState
  pub dedupe_time : Duration
  pub dedupe_dist_m : Float64

-- The record in the queue.
abbrev pub items : Manager → List SpoolRecord
items m = map (λ e. e.item) m.queue

abbrev dedupe_max_distance_m : ℕ
dedupe_max_distance_m = 10

unfoldable pub new_manager_with_dedupe : FloatOps → ℤ → ℤ → Duration → Float64 → Manager
new_manager_with_dedupe fl max_points max_bytes max_time_delta max_distance = record {
  max_points = if leb_ℤ max_points (pos 0) then 1 else pos_part max_points;
  max_bytes = if leb_ℤ max_bytes (pos 0) then 1 else pos_part max_bytes;
  total_points = 0;
  total_bytes = 0;
  queue = [];
  device_counts = [];
  last_by_device = [];
  dedupe_time = if ltb_ℤ max_time_delta (pos 0) then pos 0 else max_time_delta;
  dedupe_dist_m = if fl.lt max_distance (fl.of_ℕ 0) then fl.of_ℕ 0 else max_distance;
}

unfoldable pub new_manager : FloatOps → ℤ → ℤ → Manager
unfolding new_manager_with_dedupe
new_manager fl max_points max_bytes =
    new_manager_with_dedupe fl max_points max_bytes (pos (2 * second))
      (fl.of_ℕ dedupe_max_distance_m)

-- `estimateRecordBytes`
unfoldable pub estimate_record_bytes : Json → SpoolRecord → Option ℕ
estimate_record_bytes j r = Option.map (λ text. length text + 1) (j.marshal r)

module _ (fl : FloatOps) where
  open fl use {add, sub, mul, div, sin, cos, sqrt, atan2, pi, of_ℕ}

  unfoldable pub haversine_meters : Float64 → Float64 → Float64 → Float64 → Float64
  haversine_meters lat1 lon1 lat2 lon2 =
      let lat1_rad = div (mul lat1 pi) (of_ℕ 180) in
      let lon1_rad = div (mul lon1 pi) (of_ℕ 180) in
      let lat2_rad = div (mul lat2 pi) (of_ℕ 180) in
      let lon2_rad = div (mul lon2 pi) (of_ℕ 180) in
      let d_lat = sub lat2_rad lat1_rad in
      let d_lon = sub lon2_rad lon1_rad in
      let sin_lat = sin (div d_lat (of_ℕ 2)) in
      let sin_lon = sin (div d_lon (of_ℕ 2)) in
      let a =
        add (mul sin_lat sin_lat) (mul (mul (mul (cos lat1_rad) (cos lat2_rad)) sin_lon) sin_lon) in
      let c = mul (of_ℕ 2) (atan2 (sqrt a) (sqrt (sub (of_ℕ 1) a))) in mul (of_ℕ 6371000) c

  -- `isNearDuplicate`, once the device's last kept point is found
  is_near : SpoolRecord → DedupeState → Duration → Float64 → Bool
  is_near r prev max_time_delta max_distance =
      let ts = r.point.timestamp_utc in
      if is_zero ts || is_zero prev.timestamp_utc
      then false
      else if ltb_ℤ max_time_delta (magnitude (sub_time ts prev.timestamp_utc))
      then false
      else fl.le (haversine_meters prev.lat prev.lon r.point.lat r.point.lon) max_distance

  unfoldable pub is_near_duplicate :
      SpoolRecord → Dict String DedupeState → Duration → Float64 → Bool
  unfolding is_near
  is_near_duplicate r state_by_device max_time_delta max_distance =
      elim (Dict.lookup r.device_id state_by_device) [
        | none ↦ false
        | some prev ↦ is_near r prev max_time_delta max_distance
      ]

  -- The marker that keeps the sequence going in place of a near duplicate.
  abbrev pub marker : SpoolRecord → SpoolRecord
  marker r = record r { checkpoint_only = true; point = record (r.point) { raw_payload = none } }

  abbrev pub state_of : SpoolRecord → DedupeState
  state_of r = record {
    timestamp_utc = r.point.timestamp_utc;
    lat = r.point.lat;
    lon = r.point.lon;
  }

  abbrev remember : Bool → SpoolRecord → Dict String DedupeState → Dict String DedupeState
  remember near r states = if near then states else Dict.insert r.device_id (state_of r) states

  -- The loop of `filterNearDuplicates` over its `candidateState` and `updatedState`.
  unfoldable pub dedupe_loop :
      Duration
      → Float64
      → List SpoolRecord
      → Dict String DedupeState
      → Dict String DedupeState
      → List SpoolRecord × Dict String DedupeState
  dedupe_loop t d [] candidate updated = ([], updated)
  dedupe_loop t d (r ∷ rs) candidate updated =
      let near = is_near_duplicate r candidate t d in
      let (out, last) = dedupe_loop t d rs (remember near r candidate) (remember near r updated) in
      ((if near then marker r else r) ∷ out, last)

  is_zero_duration : Duration → Bool
  is_zero_duration d = not (ltb_ℤ d (pos 0)) && not (ltb_ℤ (pos 0) d)

  unfoldable pub filter_near_duplicates :
      Manager → List SpoolRecord → List SpoolRecord × Dict String DedupeState
  unfolding is_zero_duration
  filter_near_duplicates m records =
      if is_zero_duration m.dedupe_time && fl.eq m.dedupe_dist_m (of_ℕ 0)
      then (records, [])
      else dedupe_loop m.dedupe_time m.dedupe_dist_m records m.last_by_device []

-- The sum of the sizes, or the first error.
unfoldable pub incoming_bytes : Json → List SpoolRecord → Option ℕ
unfolding estimate_record_bytes
incoming_bytes j [] = some 0
incoming_bytes j (r ∷ rs) = elim (estimate_record_bytes j r) [
  | none ↦ none
  | some size ↦ Option.map (λ rest. size + rest) (incoming_bytes j rs)
]

-- `m.deviceCounts[id]++`
unfoldable pub count_up : String → Dict String ℕ → Dict String ℕ
count_up id counts = Dict.insert id (get_or (Dict.lookup id counts) 0 + 1) counts

-- `m.deviceCounts[id]--`, and `delete` where that leaves nothing
unfoldable pub count_down : String → Dict String ℕ → Dict String ℕ
count_down id counts =
    let left = get_or (Dict.lookup id counts) 0 - 1 in
    if left == 0 then Dict.erase id counts else Dict.insert id left counts

abbrev entry : Time → SpoolRecord → ℕ → Entry
entry now r size = record { item = r; size_bytes = size; enqueued_at = now }

-- The totals with one more record.
abbrev count_in : Manager → SpoolRecord → ℕ → Manager
count_in m r size = record m {
  total_points = m.total_points + 1;
  total_bytes = m.total_bytes + size;
  device_counts = count_up r.device_id m.device_counts;
}

-- One round of the loop that appends to the queue; `size, _ := estimateRecordBytes(record)`.
unfoldable pub push_back : Json → Time → Manager → SpoolRecord → Manager
unfolding estimate_record_bytes count_up
push_back j now m r =
    let size = get_or (estimate_record_bytes j r) 0 in
    record (count_in m r size) { queue = m.queue ++ entry now r size ∷ [] }

unfoldable pub merge_states :
    Dict String DedupeState → Dict String DedupeState → Dict String DedupeState
merge_states last [] = last
merge_states last ((id, state) ∷ rest) = merge_states (Dict.insert id state last) rest

-- The limits of `Enqueue` on the filtered records, and the appending.
unfoldable pub admit :
    Json
    → Time
    → Manager
    → List SpoolRecord
    → Dict String DedupeState
    → Option ℕ
    → Outcome Error (Unit {0}) × Manager
admit j now m filtered next none = (err estimate_failed, m)
admit j now m filtered next (some incoming) =
    if ltb m.max_points (m.total_points + length filtered)
    then (err max_points_exceeded, m)
    else if ltb m.max_bytes (m.total_bytes + incoming)
    then (err max_bytes_exceeded, m)
    else let m' = foldl (push_back j now) m filtered in
      (ok tt, record m' { last_by_device = merge_states m'.last_by_device next })

unfoldable pub enqueue_filtered :
    Json
    → Time
    → Manager
    → List SpoolRecord
    → Dict String DedupeState
    → Outcome Error (Unit {0}) × Manager
unfolding admit
enqueue_filtered j now m [] next = (ok tt, m)
enqueue_filtered j now m (r ∷ rs) next = admit j now m (r ∷ rs) next (incoming_bytes j (r ∷ rs))

unfoldable pub enqueue :
    FloatOps → Json → Time → Manager → List SpoolRecord → Outcome Error (Unit {0}) × Manager
unfolding enqueue_filtered
enqueue fl j now m [] = (ok tt, m)
enqueue fl j now m (r ∷ rs) =
    let (filtered, next) = filter_near_duplicates fl m (r ∷ rs) in
    enqueue_filtered j now m filtered next

-- One round of the loop of `DrainBatch` on the totals.
unfoldable pub count_out : Manager → Entry → Manager
count_out m e = record m {
  total_points = m.total_points - 1;
  total_bytes = m.total_bytes - e.size_bytes;
  device_counts = count_down e.item.device_id m.device_counts;
}

-- `DrainBatch`; a count of 0 stands for `maxPoints <= 0` too.
unfoldable pub drain_batch : ℕ → Manager → List SpoolRecord × Manager
drain_batch max_points m =
    let count = min max_points (length m.queue) in
    let drained = take count m.queue in
    (map (λ e. e.item) drained, record (foldl count_out m drained) { queue = drop count m.queue })

-- The loop of `RequeueFront`: the totals grow round by round, and stay grown when a later record
-- fails.
unfoldable pub requeue_loop :
    Json → Time → List SpoolRecord → Manager → Outcome Error (List Entry) × Manager
requeue_loop j now [] m = (ok [], m)
requeue_loop j now (r ∷ rs) m = elim (estimate_record_bytes j r) [
  | none ↦ (err estimate_failed, m)
  | some size ↦
      let (prefix, m') = requeue_loop j now rs (count_in m r size) in
      (elim prefix [ ok es ↦ ok (entry now r size ∷ es) | err e ↦ err e ], m')
]

unfoldable pub requeue_front :
    Json → Time → Manager → List SpoolRecord → Outcome Error (Unit {0}) × Manager
requeue_front j now m records =
    let (prefix, m') = requeue_loop j now records m in
    elim prefix [ ok es ↦ (ok tt, record m' { queue = es ++ m'.queue }) | err e ↦ (err e, m') ]

oldest_age : Time → List Entry → Duration
oldest_age now [] = pos 0
oldest_age now (e ∷ es) =
    let age = sub_time now e.enqueued_at in if ltb_ℤ age (pos 0) then pos 0 else age

unfoldable pub stats : Time → Manager → Stats
unfolding oldest_age
stats now m = record {
  total_buffered_points = m.total_points;
  total_buffered_bytes = m.total_bytes;
  oldest_buffered_age = oldest_age now m.queue;
}
