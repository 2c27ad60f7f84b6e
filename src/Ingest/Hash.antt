-- ===== src/Ingest/Hash.antt =====
-- internal/ingest/ingest_hash.go. SHA-256 and the formats of `fmt` and `time` are parameters.
use plexplore.Prelude.{ℕ, String, ◌≡◌, ◌++◌}
use plexplore.GoTime.{Time}
use plexplore.Float64.{Float64, FloatOps}
use plexplore.Ingest.Models.{CanonicalPoint, Bytes}
use plexplore.Text.{codes, utf8}

pub record Formats : Type 0 where
  -- SHA-256 in hexadecimal
  pub sha256_hex : Bytes → String
  -- `Format(time.RFC3339Nano)` of an instant in UTC
  pub rfc3339_nano : Time → Bytes
  -- `%.5f`
  pub fixed5 : Float64 → Bytes

-- `roundCoordinate`
unfoldable pub round_coordinate : FloatOps → Float64 → ℕ → Float64
round_coordinate fl value decimals =
    let scale = fl.pow (fl.of_ℕ 10) (fl.of_ℕ decimals) in
    fl.div (fl.round (fl.mul value scale)) scale

abbrev pub hash_coordinate_precision : ℕ
hash_coordinate_precision = 5

-- `GenerateDeterministicIngestHash`
unfoldable pub generate_deterministic_ingest_hash : FloatOps → Formats → CanonicalPoint → String
generate_deterministic_ingest_hash fl fmt p =
    let lat = round_coordinate fl p.lat hash_coordinate_precision in
    let lon = round_coordinate fl p.lon hash_coordinate_precision in
    fmt.sha256_hex (
      codes "src="
      ++ utf8 p.source_type
      ++ codes "|dev="
      ++ utf8 p.device_id
      ++ codes "|ts="
      ++ fmt.rfc3339_nano p.timestamp_utc
      ++ codes "|lat="
      ++ fmt.fixed5 lat
      ++ codes "|lon="
      ++ fmt.fixed5 lon)

-- Two points with the same source, device name, time and rounded coordinates have the same hash,
-- whatever their other fields, the user among them.
pub hash_ignores_the_rest :
    (fl : FloatOps) (fmt : Formats) (p q : CanonicalPoint)
    → p.source_type ≡ q.source_type
    → p.device_id ≡ q.device_id
    → p.timestamp_utc ≡ q.timestamp_utc
    → round_coordinate fl p.lat 5 ≡ round_coordinate fl q.lat 5
    → round_coordinate fl p.lon 5 ≡ round_coordinate fl q.lon 5
    → generate_deterministic_ingest_hash fl fmt p ≡ generate_deterministic_ingest_hash fl fmt q
unfolding generate_deterministic_ingest_hash
hash_ignores_the_rest fl fmt p q source device time lat lon = cc
