-- ===== src/PointsApi.antt =====
-- internal/api/points.go: the two handlers of the points, from the query's parameters to the reply,
-- over the queries of `Points`. A parameter that is absent is an empty text. `parse_time` is
-- `time.Parse` with the layout RFC3339Nano, a parameter; so is the conversion of a float64 to int.
-- The parameters that several handlers share stand here too: those of exports.go and visits.go.
pub mod Handlers
pub mod Replies
pub mod Owned
pub mod Cursor
use plexplore.Prelude.{
  ℕ, zero, suc, ◌+◌, ◌-◌, ◌^◌, Bool, true, false, Option, none, some, List, [], ◌∷◌, ◌++◌, map,
  Outcome, ok, err, length, take, ltb, leb, ◌==◌, ◌&&◌, ◌||◌, if◌then◌else◌, keep,
}
use plexplore.Prelude.Actions.{Action, pure, raise, gets, continue, ◌>>=◌, ◌>>◌}
use plexplore.GoTime.{Time}
use plexplore.Float64.{Float64, FloatOps}
use plexplore.Ingest.Models.{Bytes}
use plexplore.Text.{trim_space, trim_prefix, parse_uint, codes}
use plexplore.Spool.World.{bytes_beq, lower}
use plexplore.Store.{Device, has_id}
use plexplore.VisitStore.{VisitDb, Sql, SqlError, list_devices}
use plexplore.Points.{RecentPoint, ExportPointFilter, list_points, list_recent_points}

pub record PointsQuery : Type 0 where
  pub device_id : Bytes
  pub from : Bytes
  pub to : Bytes
  pub limit : Bytes
  pub cursor : Bytes
  pub simplify : Bytes
  pub max_points : Bytes

-- The errors that a handler answers with.
pub data ApiError : Type 0 where
  invalid_device_id invalid_timestamp invalid_limit invalid_cursor invalid_max_points : ApiError
  auth_required device_lookup_failed device_not_found : ApiError
  store_failed : SqlError → ApiError

-- The HTTP status of an error.
unfoldable pub http_status : ApiError → ℕ
http_status auth_required = 401
http_status device_not_found = 404
http_status device_lookup_failed = 500
http_status (store_failed e) = 500
http_status _ = 400

abbrev pub Api {ℓ} : Type ℓ → Type ℓ
Api A = Action VisitDb ApiError A

pub record PointsPageResponse : Type 0 where
  pub points : List RecentPoint
  pub next_cursor : Option ℕ
  pub sampled : Bool
  pub sampled_from : ℕ

-- `strconv.Atoi` and `ParseInt` where only a positive result is used: a sign `+` is allowed.
unfoldable pub parse_positive : Bytes → Option ℕ
parse_positive s = elim (parse_uint (trim_prefix s (codes "+"))) [
  | none ↦ none
  | some n ↦ if (n == 0) || leb (2 ^ 63) n then none else some n
]

parse_trimmed : ApiError → Bytes → Outcome ApiError (Option ℕ)
parse_trimmed e [] = ok none
parse_trimmed e (c ∷ s) = elim (parse_positive (c ∷ s)) [ none ↦ err e | some n ↦ ok (some n) ]

-- `parseOptionalDeviceIDParam`
unfoldable pub parse_optional_device_id_param : Bytes → Outcome ApiError (Option ℕ)
unfolding parse_trimmed
parse_optional_device_id_param raw = parse_trimmed invalid_device_id (trim_space raw)

-- A number with a fallback and a maximum, where 0 is no maximum.
clamp_param : ℕ → ℕ → Outcome ApiError (Option ℕ) → Outcome ApiError ℕ
clamp_param fallback max_allowed (err e) = err e
clamp_param fallback max_allowed (ok none) = ok fallback
clamp_param fallback max_allowed (ok (some n)) =
    ok (if ltb 0 max_allowed && ltb max_allowed n then max_allowed else n)

-- `parseOptionalLimitParamWithMax`
unfoldable pub parse_optional_limit_param_with_max : Bytes → ℕ → ℕ → Outcome ApiError ℕ
unfolding clamp_param parse_trimmed
parse_optional_limit_param_with_max raw fallback max_allowed =
    clamp_param fallback max_allowed (parse_trimmed invalid_limit (trim_space raw))

-- `parseOptionalMaxPointsParam`
unfoldable pub parse_optional_max_points_param : Bytes → ℕ → ℕ → Outcome ApiError ℕ
unfolding clamp_param parse_trimmed
parse_optional_max_points_param raw fallback max_allowed =
    clamp_param fallback max_allowed (parse_trimmed invalid_max_points (trim_space raw))

parse_cursor : Bytes → Outcome ApiError ℕ
parse_cursor [] = ok 0
parse_cursor (c ∷ s) = elim (parse_uint (c ∷ s)) [
  | none ↦ err invalid_cursor
  | some n ↦ if n == 0 then err invalid_cursor else ok n
]

-- `parseOptionalCursorParam`; `ParseUint` takes no sign.
unfoldable pub parse_optional_cursor_param : Bytes → Outcome ApiError ℕ
unfolding parse_cursor
parse_optional_cursor_param raw = parse_cursor (trim_space raw)

-- `parseOptionalBoolParam`
unfoldable pub parse_optional_bool_param : Bytes → Bool
parse_optional_bool_param raw =
    let value = map lower (trim_space raw) in
    bytes_beq value (codes "1")
    || (bytes_beq value (codes "true")
        || (bytes_beq value (codes "yes") || bytes_beq value (codes "on")))

-- `parseOptionalRFC3339Param`
unfoldable pub parse_optional_rfc3339_param :
    (Bytes → Option Time) → Bytes → Outcome ApiError (Option Time)
parse_optional_rfc3339_param parse_time raw = elim (trim_space raw) [
  | [] ↦ ok none
  | c ∷ s ↦ elim (parse_time (c ∷ s)) [ none ↦ err invalid_timestamp | some t ↦ ok (some t) ]
]

abbrev pub from_outcome : {A : Type 0} → Outcome ApiError A → Api A
from_outcome r s = (r, s)

-- `exportFilterFromRequest`
unfoldable pub export_filter_from_request :
    (Bytes → Option Time) → PointsQuery → Api ExportPointFilter
export_filter_from_request parse_time q = do
  device ← from_outcome (parse_optional_device_id_param q.device_id)
  from ← from_outcome (parse_optional_rfc3339_param parse_time q.from)
  to ← from_outcome (parse_optional_rfc3339_param parse_time q.to)
  pure (record { device_row_id = device; from_utc = from; to_utc = to; after_seq = 0; user_id = 0 })

-- A call of the store, whose error is answered as such.
unfoldable pub store_call : {A : Type 0} → Sql A → Api A
store_call q s = let (r, s') = q s in (elim r [ ok a ↦ ok a | err e ↦ err (store_failed e) ], s')

-- `CurrentUserFromContext`, with the id of the user of the session
unfoldable pub require_current_user : Option ℕ → Api ℕ
require_current_user none = raise auth_required
require_current_user (some id) = pure id

abbrev ids_of : ℕ → List Device → List ℕ
ids_of user devices = map (λ d. d.id) (keep (λ d. d.user_id == user) devices)

-- `currentUserAllowedDeviceIDs`
unfoldable pub current_user_allowed_device_ids : ℕ → Api (List ℕ)
current_user_allowed_device_ids user s =
    let (r, s') = list_devices s in
    (elim r [ ok devices ↦ ok (ids_of user devices) | err e ↦ err device_lookup_failed ], s')
