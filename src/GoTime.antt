-- ===== src/GoTime.antt =====
-- What the program uses of Go's `time` package. An instant is the count of nanoseconds since Go's
-- zero time (year 1, UTC), so `IsZero` is the test for 0 and earlier instants have no value here.
-- A `Duration` is an int64 count of nanoseconds: `Sub` saturates, and negation wraps around.
use plexplore.Prelude.{
  ℕ, ◌-◌, ◌*◌, ◌%◌, ltb, ◌^◌, ◌≤◌, ◌<◌, ◌+◌, ◌≡◌, Bool, arith, leb, ◌==◌, if◌then◌else◌,
}
use plexplore.Prelude.Int.{ℤ, pos, negsuc, pos_part, neg_part, sub_ℕ, ltb_ℤ}

abbrev pub Time : Type 0
Time = ℕ

abbrev pub Duration : Type 0
Duration = ℤ

abbrev pub max_duration : ℕ
max_duration = 2 ^ 63 - 1

abbrev pub second : ℕ
second = 1_000_000_000

-- `t.IsZero()`
abbrev pub is_zero : Time → Bool
is_zero t = t == 0

-- `t.Sub(u)`
unfoldable pub sub_time : Time → Time → Duration
sub_time t u =
    if leb u t
    then pos (if leb (t - u) max_duration then t - u else max_duration)
    else negsuc (if leb (u - t) max_duration then u - t - 1 else max_duration)

from_bits : ℕ → Duration
from_bits u = if ltb u (2 ^ 63) then pos u else negsuc (2 ^ 64 - 1 - u)

-- The int64 with the value modulo 2^64.
unfoldable pub wrap_int64 : ℤ → Duration
unfolding from_bits
wrap_int64 (pos n) = from_bits (n % 2 ^ 64)
wrap_int64 (negsuc n) = from_bits (2 ^ 64 - 1 - n % 2 ^ 64)

-- `d - e`
unfoldable pub sub_duration : Duration → Duration → Duration
unfolding wrap_int64
sub_duration d e = wrap_int64 (sub_ℕ (pos_part d + neg_part e) (pos_part e + neg_part d))

-- `d * 2`
unfoldable pub double_duration : Duration → Duration
unfolding wrap_int64
double_duration d = wrap_int64 (sub_ℕ (2 * pos_part d) (2 * neg_part d))

-- `-d`; the least int64 is its own negation.
unfoldable pub neg_duration : Duration → Duration
neg_duration (pos n) = if n == 0 then pos 0 else negsuc (n - 1)
neg_duration (negsuc n) = if leb max_duration n then negsuc n else pos (n + 1)

-- `if d < 0 { d = -d }`
unfoldable pub magnitude : Duration → Duration
unfolding neg_duration
magnitude d = if ltb_ℤ d (pos 0) then neg_duration d else d

-- Below the saturation the difference is exact, in both directions.
pub magnitude-sub_time :
    (t u : Time)
    → t ≤ u + max_duration
    → u ≤ t + max_duration
    → magnitude (sub_time t u) ≡ pos (if leb u t then t - u else u - t)
unfolding magnitude sub_time
magnitude-sub_time t u h k = ground arith

-- More than the largest duration before `u`: the difference stays negative after the negation.
pub magnitude_saturated :
    (t u : Time) → t + max_duration < u → magnitude (sub_time t u) ≡ negsuc max_duration
unfolding magnitude sub_time
magnitude_saturated t u h = ground arith
