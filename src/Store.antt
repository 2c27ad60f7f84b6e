-- ===== src/Store.antt =====
-- internal/store/sqlite_store.go with migrations/0001_init_schema.sql: the tables that
-- `InsertSpoolBatch` writes, its statements as functions on lists of rows, and its transaction.
-- Rows stand in the order of their ids. Times are instants instead of their RFC 3339 texts, and
-- `api_key` and the creation times are left out. A statement fails here where it violates a
-- constraint of the schema: a `seq` that is taken, or a user that does not exist; an error of the
-- driver is the argument `failing`, also its refusal of a sequence number of 2^63 or more, which
-- `insert_raw` itself lets through.
pub mod Rounds
pub mod Batches
pub mod Refusals
use plexplore.Prelude.{
  ℕ, zero, suc, ◌+◌, ◌-◌, ◌^◌, String, Bool, true, false, Option, none, some, List, [], ◌∷◌, ◌++◌,
  map, Outcome, ok, err, ltb, leb, ◌==◌, ◌&&◌, ◌||◌, if◌then◌else◌, str_eq, nat_eq,
}
use plexplore.Prelude.Dict
use plexplore.Prelude.Dict.{Dict}
use plexplore.GoTime.{Time, is_zero}
use plexplore.Ingest.Models.{CanonicalPoint, SpoolRecord, Bytes}
use plexplore.Text.{trim_space, utf8, parse_digits, codes}
use plexplore.Spool.World.{bytes_beq}

pub record RawPoint : Type 0 where
  pub id : ℕ
  pub seq : ℕ
  pub user_id : ℕ
  pub device_id : ℕ
  pub source_type : Bytes
  pub timestamp_utc : Time
  -- Latitude, longitude and the optional columns.
  pub point : CanonicalPoint
  pub raw_payload_json : Option Bytes
  pub ingest_hash : String

pub record Device : Type 0 where
  pub id : ℕ
  pub user_id : ℕ
  pub name : Bytes
  pub source_type : Bytes
  pub last_seen_at : Option Time
  pub last_seq_received : ℕ

pub record Db : Type 0 where
  pub users : List ℕ
  pub devices : List Device
  pub next_device_id : ℕ
  pub raw_points : List RawPoint
  pub next_raw_point_id : ℕ
  -- The `raw_point_id` of the rows of `points`.
  pub points : List ℕ

pub data StoreError : Type 0 where
  seq_taken no_such_user driver_failed : StoreError

unfoldable pub has_id : ℕ → List ℕ → Bool
has_id n [] = false
has_id n (m ∷ ms) = m == n || has_id n ms

-- `ensureDefaultUser`
unfoldable pub ensure_default_user : Db → Db
unfolding has_id
ensure_default_user db = if has_id 1 db.users then db else record db { users = db.users ++ 1 ∷ [] }

positive_int64 : Option ℕ → Option ℕ
positive_int64 none = none
positive_int64 (some n) = if ltb 0 n && ltb n (2 ^ 63) then some n else none

digits_of : Bytes → Option ℕ
digits_of [] = none
digits_of (c ∷ s) = parse_digits 0 (c ∷ s)

-- `strconv.ParseInt`, where only a positive result is of use
signed : Bytes → Option ℕ
unfolding digits_of positive_int64
signed [] = none
signed (c ∷ s) =
    if c == b'-'
    then none
    else if c == b'+'
    then positive_int64 (digits_of s)
    else positive_int64 (digits_of (c ∷ s))

-- `parsePointUserID`
unfoldable pub parse_point_user_id : String → Option ℕ
unfolding signed
parse_point_user_id raw = signed (trim_space (utf8 raw))

or_text : Bytes → Bytes → Bytes
or_text [] other = other
or_text (c ∷ s) other = c ∷ s

-- `normalizedDeviceName` and `normalizedSourceType`
unfoldable pub normalized_device_name : String → Bytes
unfolding or_text
normalized_device_name device_id = or_text (trim_space (utf8 device_id)) (codes "unknown-device")

unfoldable pub normalized_source_type : String → Bytes
unfolding or_text
normalized_source_type source_type = or_text (trim_space (utf8 source_type)) (codes "unknown")

-- `normalizedTimestamp`
unfoldable pub normalized_timestamp : Time → Time → Time → Time
normalized_timestamp now ts fallback =
    if is_zero ts then if is_zero fallback then now else fallback else ts

text_or_nil : Bytes → Option Bytes
text_or_nil [] = none
text_or_nil (c ∷ s) = some (c ∷ s)

-- `nullableRawPayload`
unfoldable pub nullable_raw_payload : Option Bytes → Option Bytes
unfolding text_or_nil
nullable_raw_payload none = none
nullable_raw_payload (some payload) = text_or_nil (trim_space payload)

unfoldable pub find_device : ℕ → Bytes → List Device → Option ℕ
find_device user name [] = none
find_device user name (d ∷ ds) =
    let rest = find_device user name ds in
    if d.user_id == user && bytes_beq d.name name then some d.id else rest

insert_device : ℕ → Bytes → Bytes → Db → Outcome StoreError (ℕ × Db)
unfolding has_id
insert_device user name source db =
    if has_id user db.users
    then ok (
      db.next_device_id,
      record db {
        devices =
            db.devices
            ++ record {
              id = db.next_device_id;
              user_id = user;
              name = name;
              source_type = source;
              last_seen_at = none;
              last_seq_received = 0;
            }
              ∷ [];
        next_device_id = db.next_device_id + 1;
      },
    )
    else err no_such_user

-- `ensureDevice`: the device's id, and the tables with the device in them
unfoldable pub ensure_device : ℕ → Bytes → Bytes → Db → Outcome StoreError (ℕ × Db)
unfolding insert_device
ensure_device user name source db = elim (find_device user name db.devices) [
  | some id ↦ ok (id, db)
  | none ↦ insert_device user name source db
]

unfoldable pub has_hash : String → List RawPoint → Bool
has_hash h [] = false
has_hash h (r ∷ rs) = str_eq r.ingest_hash h || has_hash h rs

unfoldable pub has_seq : ℕ → List RawPoint → Bool
has_seq n [] = false
has_seq n (r ∷ rs) = r.seq == n || has_seq n rs

-- The row of a record, but for its id.
abbrev pub row_of : Time → ℕ → ℕ → ℕ → SpoolRecord → RawPoint
row_of now id user device r = record {
  id = id;
  seq = r.seq;
  user_id = user;
  device_id = device;
  source_type = normalized_source_type r.point.source_type;
  timestamp_utc = normalized_timestamp now r.point.timestamp_utc r.received_at;
  point = r.point;
  raw_payload_json = nullable_raw_payload r.point.raw_payload;
  ingest_hash = r.point.ingest_hash;
}

-- INSERT INTO raw_points ... ON CONFLICT(ingest_hash) DO NOTHING, and the row of `points` where a
-- row was inserted. The target of the conflict clause is looked at before the other constraints.
unfoldable pub insert_raw : Time → ℕ → ℕ → SpoolRecord → Db → Outcome StoreError Db
insert_raw now user device r db =
    if has_hash r.point.ingest_hash db.raw_points
    then ok db
    else if has_seq r.seq db.raw_points
    then err seq_taken
    else ok (record db {
      raw_points = db.raw_points ++ row_of now db.next_raw_point_id user device r ∷ [];
      next_raw_point_id = db.next_raw_point_id + 1;
      points = db.points ++ db.next_raw_point_id ∷ [];
    })

-- What the loop over the records carries: the tables, `maxSeqCommitted`, `deviceLastSeen` and
-- `deviceLastSeq`.
pub record Progress : Type 0 where
  pub db : Db
  pub max_seq : ℕ
  pub last_seen : Dict ℕ Time
  pub last_seq : Dict ℕ ℕ

abbrev later_time : Option Time → Time → Time
later_time none t = t
later_time (some old) t = if ltb old t then t else old

abbrev seq_or_zero : Option ℕ → ℕ
seq_or_zero none = 0
seq_or_zero (some n) = n

advance_maps : Time → ℕ → SpoolRecord → Db → Progress → Progress
advance_maps now device r db p =
    let ts = normalized_timestamp now r.point.timestamp_utc r.received_at in
    record {
      db = db;
      max_seq = if ltb p.max_seq r.seq then r.seq else p.max_seq;
      last_seen = Dict.insert device (later_time (Dict.lookup device p.last_seen) ts) p.last_seen;
      last_seq =
          if ltb (seq_or_zero (Dict.lookup device p.last_seq)) r.seq
          then Dict.insert device r.seq p.last_seq
          else p.last_seq;
    }

user_of : SpoolRecord → ℕ
user_of r = elim (parse_point_user_id r.point.user_id) [ none ↦ 1 | some id ↦ id ]

with_device : Time → SpoolRecord → Progress → ℕ × Db → Outcome StoreError Progress
unfolding insert_raw advance_maps user_of
with_device now r p (device, db) = elim (insert_raw now (user_of r) device r db) [
  | err e ↦ err e
  | ok db' ↦ ok (advance_maps now device r db' p)
]

-- One round of the loop over the records.
unfoldable pub insert_one : Time → SpoolRecord → Progress → Outcome StoreError Progress
unfolding with_device
insert_one now r p =
    elim (ensure_device (user_of r) (normalized_device_name r.device_id)
      (normalized_source_type r.point.source_type) p.db) [
        | err e ↦ err e
        | ok found ↦ with_device now r p found
      ]

unfoldable pub insert_all : Time → List SpoolRecord → Progress → Outcome StoreError Progress
insert_all now [] p = ok p
insert_all now (r ∷ rs) p = elim (insert_one now r p) [
  | err e ↦ err e
  | ok p' ↦ insert_all now rs p'
]

-- UPDATE devices ... for one device
update_device : ℕ → ℕ → Option Time → List Device → List Device
update_device device seq seen [] = []
update_device device seq seen (d ∷ ds) =
    (if d.id == device
      then record d {
        last_seen_at = seen;
        last_seq_received = if ltb d.last_seq_received seq then seq else d.last_seq_received;
      }
      else d)
    ∷ update_device device seq seen ds

update_devices : Dict ℕ ℕ → Dict ℕ Time → List Device → List Device
update_devices [] seen ds = ds
update_devices ((device, seq) ∷ rest) seen ds =
    update_devices rest seen (update_device device seq (Dict.lookup device seen) ds)

-- The commit of the transaction, or its rollback.
finish : Bool → Db → Outcome StoreError Progress → Outcome StoreError ℕ × Db
unfolding update_devices update_device
finish failing db (err e) = (err e, db)
finish failing db (ok p) = if failing then (err driver_failed, db) else (
  ok p.max_seq,
  record (p.db) { devices = update_devices p.last_seq p.last_seen p.db.devices },
)

abbrev pub initial : Db → Progress
initial db = record { db = ensure_default_user db; max_seq = 0; last_seen = []; last_seq = [] }

-- `InsertSpoolBatch`; `failing` says that a call of the driver fails before the commit is done.
unfoldable pub insert_spool_batch : Time → Bool → List SpoolRecord → Db → Outcome StoreError ℕ × Db
unfolding finish
insert_spool_batch now failing [] db = (ok 0, db)
insert_spool_batch now failing (r ∷ rs) db =
    finish failing db (insert_all now (r ∷ rs) (initial db))
