-- ===== src/Tests/OtherRuns.antt =====
-- The theorems on the visits, the rate limiter and the ingest hash, at small inputs.
use plexplore.Prelude.{ℕ, ◌≡◌, ◌-◌, refl, String, List, [], ◌∷◌, arith, min}
use plexplore.Prelude.Dict
use plexplore.Prelude.Dict.{Dict}
use plexplore.Prelude.Int.{pos}
use plexplore.GoTime.{Time}
use plexplore.Ingest.Hash.{generate_deterministic_ingest_hash, hash_ignores_the_rest}
use plexplore.Text.{codes}
use plexplore.Visits.{Config, Point, detect}
use plexplore.Visits.Windows.{Detected, detect-Detected}
use plexplore.RateLimit.{FixedWindowEntry, FixedWindowLimiter}
use plexplore.RateLimit.Quota.{Live, asked, granted, granted-asked}
use plexplore.Tests.Samples.{whole_numbers, short_formats, home}

abbrev point_at : ℕ → Point
point_at t = record { timestamp_utc = t; lat = 50; lon = 8 }

abbrev pub wide : Config
wide = record { min_dwell = pos 100; max_radius_meters = 1_000_000_000 }

abbrev three_points : List Point
three_points = point_at 1_000 ∷ point_at 1_200 ∷ point_at 1_300 ∷ []

detect-Detected_example :
    Detected whole_numbers wide three_points (detect whole_numbers three_points wide)
detect-Detected_example = detect-Detected whole_numbers wide three_points refl refl

abbrev used_once : FixedWindowEntry
used_once = record { window_start = 1_000; count = 1 }

abbrev two_per_window : FixedWindowLimiter
two_per_window = record {
  limit = pos 2;
  window = pos 100;
  entries = (codes "login", used_once) ∷ [];
}

two_per_window-Live : Live (codes "login") 2 100 used_once two_per_window
unfolding Dict.lookup
two_per_window-Live = record { limit_is = refl; window_is = refl; entry_is = refl }

abbrev three_requests : List (Time × String)
three_requests = (1_010, "login") ∷ (1_020, "other") ∷ (1_030, "login") ∷ []

granted-asked_example :
    granted (codes "login") three_requests two_per_window
    ≡ min (2 - 1) (asked (codes "login") three_requests)
granted-asked_example =
    granted-asked (codes "login") 2 100 three_requests used_once two_per_window (omega arith)
      (omega arith) (omega arith) two_per_window-Live
      ((omega arith, omega arith), ((omega arith, omega arith), ((omega arith, omega arith), tt)))

hash_ignores_the_rest_example :
    generate_deterministic_ingest_hash whole_numbers short_formats home
    ≡ generate_deterministic_ingest_hash whole_numbers short_formats (record home { user_id = "2" })
hash_ignores_the_rest_example =
    hash_ignores_the_rest whole_numbers short_formats home (record home { user_id = "2" }) refl refl
      refl refl refl
