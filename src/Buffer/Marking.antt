-- ===== src/Buffer/Marking.antt =====
-- Which records of a call of `Enqueue` become markers: internal/buffer/dedupe.go.
use plexplore.Prelude.{
  ◌≡◌, refl, inl, inr, ◌⊎◌, String, Bool, true, false, List, [], ◌∷◌, ◌&&◌, not, Bool-cases,
  string_eq,
}
use plexplore.Prelude.Int.{pos, ltb_ℤ}
use plexplore.Prelude.Dict
use plexplore.Prelude.Dict.{Dict}
use plexplore.GoTime.{Duration}
use plexplore.Float64.{Float64, FloatOps}
use plexplore.Ingest.Models.{SpoolRecord}
use plexplore.Buffer.{
  Manager, DedupeState, is_near_duplicate, marker, state_of, dedupe_loop, filter_near_duplicates,
}

module _ (fl : FloatOps) (t : Duration) (d : Float64) where
  -- A record is taken as it is unless it is a near duplicate of the last point that was kept of
  -- its device; in the place of a near duplicate there is a marker. Only a point that is kept is
  -- what later ones are compared with.
  pub data Marks : Dict String DedupeState → List SpoolRecord → List SpoolRecord → Type 0 where
    none_left : {states : Dict String DedupeState} → Marks states [] []
    as_it_is :
        {states : Dict String DedupeState} {rs out : List SpoolRecord} {r : SpoolRecord}
        → is_near_duplicate fl r states t d ≡ false
        → Marks (Dict.insert r.device_id (state_of fl r) states) rs out
        → Marks states (r ∷ rs) (r ∷ out)
    as_marker :
        {states : Dict String DedupeState} {rs out : List SpoolRecord} {r : SpoolRecord}
        → is_near_duplicate fl r states t d ≡ true
        → Marks states rs out
        → Marks states (r ∷ rs) (marker fl r ∷ out)

  dedupe_loop-Marks :
      (rs : List SpoolRecord) (states updated : Dict String DedupeState)
      → Marks states rs (dedupe_loop fl t d rs states updated).0
  unfolding dedupe_loop
  dedupe_loop-Marks [] states updated = none_left
  dedupe_loop-Marks (r ∷ rs) states updated =
      elim (Bool-cases (is_near_duplicate fl r states t d)) [
        | inl near ↦ rw near (as_marker near (dedupe_loop-Marks rs states updated))
        | inr far ↦ rw far (
            as_it_is far (
              dedupe_loop-Marks rs (Dict.insert r.device_id (state_of fl r) states)
                (Dict.insert r.device_id (state_of fl r) updated)))
      ]

module _ (fl : FloatOps) (m : Manager) where
  -- Both thresholds are 0.
  abbrev pub is_off : Bool
  is_off =
      (not (ltb_ℤ m.dedupe_time (pos 0)) && not (ltb_ℤ (pos 0) m.dedupe_time))
      && fl.eq m.dedupe_dist_m (fl.of_ℕ 0)

  -- What the buffer takes of the records of a call: all as they are where both thresholds are 0,
  -- and otherwise a marker for each near duplicate and every other record as it is.
  abbrev pub Filtered : List SpoolRecord → List SpoolRecord → Type 0
  Filtered rs out =
      ((is_off ≡ true) × (out ≡ rs))
      ⊎ ((is_off ≡ false) × Marks fl m.dedupe_time m.dedupe_dist_m m.last_by_device rs out)

  pub filter_near_duplicates-Filtered :
      (rs : List SpoolRecord) → Filtered rs (filter_near_duplicates fl m rs).0
  unfolding filter_near_duplicates
  filter_near_duplicates-Filtered rs = elim (Bool-cases is_off) [
    | inl off ↦ inl (off, rw off refl)
    | inr on ↦
        inr (on, rw on (dedupe_loop-Marks fl m.dedupe_time m.dedupe_dist_m rs m.last_by_device []))
  ]
