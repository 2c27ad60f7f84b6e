-- ===== src/RateLimit.antt =====
-- internal/api/rate_limit.go: `FixedWindowLimiter`. The limiter is not nil; the clock's reading is
-- an argument. The keys of the map are the trimmed texts.
pub mod Quota
use plexplore.Prelude.{
  ℕ, ◌+◌, String, Bool, true, false, Option, none, some, List, [], ◌∷◌, keep, length, ltb, leb, not,
  ◌||◌, if◌then◌else◌,
}
use plexplore.Prelude.Dict
use plexplore.Prelude.Dict.{Dict}
use plexplore.Prelude.Int.{ℤ, pos, ltb_ℤ, leb_ℤ}
use plexplore.GoTime.{Time, Duration, sub_time, sub_duration, double_duration}
use plexplore.Ingest.Models.{Bytes}
use plexplore.Text.{trim_space, utf8, codes}
use plexplore.Spool.World.{bytes_beq, bytes_eq}

pub record FixedWindowEntry : Type 0 where
  pub window_start : Time
  pub count : ℕ

pub record FixedWindowLimiter : Type 0 where
  pub limit : ℤ
  pub window : Duration
  pub entries : Dict Bytes FixedWindowEntry

-- `NewFixedWindowLimiter`
unfoldable pub new_fixed_window_limiter : ℤ → Duration → FixedWindowLimiter
new_fixed_window_limiter limit window = record { limit = limit; window = window; entries = [] }

or_unknown : Bytes → Bytes
or_unknown [] = codes "unknown"
or_unknown (c ∷ s) = c ∷ s

unfoldable pub normalized_key : String → Bytes
unfolding or_unknown
normalized_key key = or_unknown (trim_space (utf8 key))

-- An entry that `maybeCleanup` leaves in the map.
abbrev pub is_recent : Time → Duration → FixedWindowEntry → Bool
is_recent now window e = not (leb_ℤ (double_duration window) (sub_time now e.window_start))

unfoldable pub maybe_cleanup : Time → FixedWindowLimiter → FixedWindowLimiter
maybe_cleanup now l = if ltb (length l.entries) 2_048 then l else record l {
  entries = keep (λ (entry : Bytes × FixedWindowEntry). is_recent now l.window entry.1) l.entries;
}

-- A new window for the key, which counts this request.
unfoldable pub open_window :
    Time → Bytes → FixedWindowLimiter → (Bool × Duration) × FixedWindowLimiter
open_window now key l = (
  (true, pos 0),
  maybe_cleanup now
      (record l { entries = Dict.insert key (record { window_start = now; count = 1 }) l.entries }),
)

unfoldable pub count_request :
    Time → Bytes → FixedWindowEntry → FixedWindowLimiter → (Bool × Duration) × FixedWindowLimiter
count_request now key e l =
    let retry_after = sub_duration l.window (sub_time now e.window_start) in
    if leb_ℤ l.limit (pos e.count)
    then ((false, if ltb_ℤ retry_after (pos 0) then pos 0 else retry_after), l)
    else (
      (true, pos 0),
      record l { entries = Dict.insert key (record e { count = e.count + 1 }) l.entries },
    )

unfoldable pub allow_key :
    Time → Bytes → FixedWindowLimiter → (Bool × Duration) × FixedWindowLimiter
allow_key now key l = elim (Dict.lookup key l.entries) [
  | none ↦ open_window now key l
  | some e ↦
      if leb_ℤ l.window (sub_time now e.window_start)
      then open_window now key l
      else count_request now key e l
]

-- `Allow`
unfoldable pub allow : Time → String → FixedWindowLimiter → (Bool × Duration) × FixedWindowLimiter
allow now key l =
    if leb_ℤ l.limit (pos 0) || leb_ℤ l.window (pos 0)
    then ((true, pos 0), l)
    else allow_key now (normalized_key key) l
