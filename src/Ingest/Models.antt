-- ===== src/Ingest/Models.antt =====
-- internal/ingest/models.go: the canonical point and the spool record. A nil pointer or a nil
-- slice is `none`.
use plexplore.Prelude.{ℕ, String, Bool, Option, List}
use plexplore.GoTime.{Time}
use plexplore.Float64.{Float64}

abbrev pub Bytes : Type 0
Bytes = List ℕ

pub record CanonicalPoint : Type 0 where
  pub user_id : String
  pub device_id : String
  pub source_type : String
  pub timestamp_utc : Time
  pub lat : Float64
  pub lon : Float64
  pub altitude : Option Float64
  pub accuracy : Option Float64
  pub speed : Option Float64
  pub heading : Option Float64
  pub battery : Option Float64
  pub motion_type : Option String
  pub raw_payload : Option Bytes
  pub ingest_hash : String

pub record SpoolRecord : Type 0 where
  pub seq : ℕ
  pub device_id : String
  pub received_at : Time
  pub point : CanonicalPoint
  pub checkpoint_only : Bool
