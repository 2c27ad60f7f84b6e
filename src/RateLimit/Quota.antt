-- ===== src/RateLimit/Quota.antt =====
-- How many requests of a key the limiter lets through in one window.
use plexplore.Prelude.{
  ℕ, ◌+◌, ◌*◌, ◌-◌, ◌≤◌, ◌<◌, ◌≡◌, refl, sym, ap, subst, ◌∙◌, ◌⊎◌, inl, inr, String, Bool, true,
  false, some, List, [], ◌∷◌, keep, All, length, ltb, ◌&&◌, ◌||◌, if◌then◌else◌, min, Bool-cases,
  Option-cases, arith,
}
use plexplore.Prelude.Dict
use plexplore.Prelude.Dict.{Dict}
use plexplore.Prelude.Int.{pos, leb_ℤ}
use plexplore.GoTime.{Time, Duration, max_duration, sub_time, double_duration}
use plexplore.Ingest.Models.{Bytes}
use plexplore.Spool.World.{bytes_beq, bytes_beq_iff, bytes_eq}
use plexplore.RateLimit.{
  FixedWindowEntry, FixedWindowLimiter, normalized_key, is_recent, maybe_cleanup, open_window,
  count_request, allow_key, allow,
}

-- A limiter of `limit` requests in `window` nanoseconds, with an entry for the key.
pub record Live (key : Bytes) (limit window : ℕ) (e : FixedWindowEntry) (l : FixedWindowLimiter)
    : Type 0 where
  pub limit_is : l.limit ≡ pos limit
  pub window_is : l.window ≡ pos window
  pub entry_is : Dict.lookup key l.entries ≡ some e

-- A time within the window of the entry.
abbrev pub During : ℕ → FixedWindowEntry → Time → Type 0
During window e now = (e.window_start ≤ now) × (now < e.window_start + window)

not_over :
    (window : ℕ) (e : FixedWindowEntry) (now : Time)
    → window ≤ max_duration
    → During window e now
    → leb_ℤ (pos window) (sub_time now e.window_start) ≡ false
unfolding sub_time
not_over window e now h d = ground arith

still_recent :
    (window : ℕ) (e : FixedWindowEntry) (now : Time)
    → 2 * window ≤ max_duration
    → During window e now
    → 0 < window
    → is_recent now (pos window) e ≡ true
unfolding sub_time double_duration
still_recent window e now h d w = ground arith

lookup-keep :
    (key : Bytes) (test : FixedWindowEntry → Bool) (e : FixedWindowEntry)
    (d : Dict Bytes FixedWindowEntry)
    → test e ≡ true
    → Dict.lookup key d ≡ some e
    → Dict.lookup key (keep (λ (entry : Bytes × FixedWindowEntry). test entry.1) d) ≡ some e
unfolding Dict.lookup
lookup-keep key test e [] t h = h
lookup-keep key test e ((k, v) ∷ d) t h = elim (Bool-cases (bytes_beq k key)) [
  | inl same ↦
      let v_is_e : v ≡ e = let here = rw same at h in cc in
      let passes : test v ≡ true = ap test v_is_e ∙ t in rw (passes, same) (ap some v_is_e)
  | inr other ↦
      let rest = lookup-keep key test e d t (rw other at h) in
      elim (Bool-cases (test v)) [
        | inl kept ↦ rw (kept, other) rest
        | inr dropped ↦ rw dropped rest
      ]
]

module _ (key : Bytes) (limit window : ℕ) (some_window : 0 < window)
    (short : 2 * window ≤ max_duration) where
  maybe_cleanup-Live :
      (now : Time) (e : FixedWindowEntry) (l : FixedWindowLimiter)
      → During window e now
      → Live key limit window e l
      → Live key limit window e (maybe_cleanup now l)
  unfolding maybe_cleanup
  maybe_cleanup-Live now e l d live = elim (Bool-cases (ltb (length l.entries) 2_048)) [
    | inl few ↦ rw few live
    | inr many ↦ rw many (record {
      limit_is = live.limit_is;
      window_is = live.window_is;
      entry_is =
          lookup-keep key (is_recent now l.window) e l.entries
            (ap (λ w. is_recent now w e) live.window_is
              ∙ still_recent window e now short d some_window)
            live.entry_is;
    })
  ]

  insert_other-Live :
      (k : Bytes) (v e : FixedWindowEntry) (l : FixedWindowLimiter)
      → bytes_beq k key ≡ false
      → Live key limit window e l
      → Live key limit window e (record l { entries = Dict.insert k v l.entries })
  insert_other-Live k v e l other live = record {
    limit_is = live.limit_is;
    window_is = live.window_is;
    entry_is = Dict.lookup-insert k key v l.entries ∙ rw other live.entry_is;
  }

  -- A request of another key leaves the entry alone, also where it cleans up.
  allow_key-other :
      (now : Time) (k : Bytes) (e : FixedWindowEntry) (l : FixedWindowLimiter)
      → bytes_beq k key ≡ false
      → During window e now
      → Live key limit window e l
      → Live key limit window e (allow_key now k l).1
  unfolding allow_key open_window count_request
  allow_key-other now k e l other d live =
      let opened = maybe_cleanup-Live now e _ d (insert_other-Live k _ e l other live) in
      elim (Option-cases (Dict.lookup k l.entries)) [
        | inl none_yet ↦ rw (none_yet, allow_key) opened
        | inr (f, has) ↦ elim (Bool-cases (leb_ℤ l.window (sub_time now f.window_start))) [
          | inl over ↦ rw (has, allow_key, over) opened
          | inr within ↦ elim (Bool-cases (leb_ℤ l.limit (pos f.count))) [
            | inl full ↦ rw (has, allow_key, within, full) live
            | inr room ↦ rw (has, allow_key, within, room) (insert_other-Live k _ e l other live)
          ]
        ]
      ]

  abbrev bump : FixedWindowEntry → FixedWindowEntry
  bump e = record e { count = e.count + 1 }

  -- A request of the key is counted below the limit, and refused at it.
  Answer : FixedWindowEntry → (Bool × Duration) × FixedWindowLimiter → Type 0
  Answer e r =
      ((e.count < limit) × (r.0.0 ≡ true) × Live key limit window (bump e) r.1)
      ⊎ ((limit ≤ e.count) × (r.0.0 ≡ false) × Live key limit window e r.1)

  allow_key-same :
      (now : Time) (e : FixedWindowEntry) (l : FixedWindowLimiter)
      → During window e now
      → Live key limit window e l
      → Answer e (allow_key now key l)
  unfolding allow_key count_request Answer
  allow_key-same now e l d live =
      let within : leb_ℤ l.window (sub_time now e.window_start) ≡ false =
        ap (λ w. leb_ℤ w (sub_time now e.window_start)) live.window_is
        ∙ not_over window e now (omega arith) d in
      let at_limit = ap (λ n. leb_ℤ n (pos e.count)) live.limit_is in
      elim (Bool-cases (leb_ℤ (pos limit) (pos e.count))) [
        | inl full ↦
            rw (live.entry_is, allow_key, within, at_limit ∙ full) (inr (ground arith, refl, live))
        | inr room ↦
            rw (live.entry_is, allow_key, within, at_limit ∙ room)
              (inl (
                ground arith,
                refl,
                record {
                  limit_is = live.limit_is;
                  window_is = live.window_is;
                  entry_is =
                      Dict.lookup-insert key key (bump e) l.entries
                      ∙ rw ((bytes_beq_iff key key).1 refl) refl;
                },
              ))
      ]

-- The requests of a key, and those that the limiter lets through, of a list of requests in turn.
unfoldable pub asked : Bytes → List (Time × String) → ℕ
asked key [] = 0
asked key ((now, k) ∷ requests) =
    (if bytes_beq (normalized_key k) key then 1 else 0) + asked key requests

unfoldable pub granted : Bytes → List (Time × String) → FixedWindowLimiter → ℕ
granted key [] l = 0
granted key ((now, k) ∷ requests) l =
    (if (allow now k l).0.0 && bytes_beq (normalized_key k) key then 1 else 0)
    + granted key requests (allow now k l).1

allow-key :
    (key : Bytes) (limit window : ℕ) (now : Time) (k : String) (e : FixedWindowEntry)
    (l : FixedWindowLimiter)
    → 0 < limit
    → 0 < window
    → Live key limit window e l
    → allow now k l ≡ allow_key now (normalized_key k) l
unfolding allow
allow-key key limit window now k e l some_limit some_window live =
    let on : (leb_ℤ l.limit (pos 0) || leb_ℤ l.window (pos 0)) ≡ false =
      ap (λ n. leb_ℤ n (pos 0) || leb_ℤ l.window (pos 0)) live.limit_is
      ∙ ap (λ w. leb_ℤ (pos limit) (pos 0) || leb_ℤ w (pos 0)) live.window_is
      ∙ ground arith in
    rw on refl

-- Of any sequence of requests, also of other keys, while the window of a key is open, the limiter
-- lets through as many of the key as are left of the limit, and refuses the rest. The window is
-- positive and at most half the largest duration.
pub granted-asked :
    (key : Bytes) (limit window : ℕ) (requests : List (Time × String)) (e : FixedWindowEntry)
    (l : FixedWindowLimiter)
    → 0 < limit
    → 0 < window
    → 2 * window ≤ max_duration
    → Live key limit window e l
    → All (λ request. During window e request.0) requests
    → granted key requests l ≡ min (limit - e.count) (asked key requests)
unfolding granted asked Answer
granted-asked key limit window [] e l some_limit some_window short live d = ground arith
granted-asked key limit window ((now, k) ∷ requests) e l some_limit some_window short live (d, ds) =
    let at = allow-key key limit window now k e l some_limit some_window live in
    elim (Bool-cases (bytes_beq (normalized_key k) key)) [
      | inr other ↦
          let kept =
            allow_key-other key limit window some_window short now (normalized_key k) e l other d
              live in
          let rest =
            granted-asked key limit window requests e _ some_limit some_window short kept ds in
          rw (at, other) (ground (arith, rest))
      | inl same ↦
          let this : normalized_key k ≡ key = (bytes_beq_iff (normalized_key k) key).0 same in
          let answer =
            subst (λ x. Answer key limit window some_window short e (allow_key now x l)) (sym this)
              (allow_key-same key limit window some_window short now e l d live) in
          elim answer [
            | inl (room, let_through, live') ↦
                let rest =
                  granted-asked key limit window requests _ _ some_limit some_window short live'
                    ds in
                rw (at, same, let_through) (ground (arith, rest))
            | inr (full, refused, live') ↦
                let rest =
                  granted-asked key limit window requests e _ some_limit some_window short live'
                    ds in
                rw (at, same, refused) (ground (arith, rest))
          ]
    ]
