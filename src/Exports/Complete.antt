-- ===== src/Exports/Complete.antt =====
-- An export has every point once, in the order of the texts of their times.
use plexplore.Prelude.{
  ℕ, zero, suc, ◌+◌, ◌≤◌, ◌<◌, ◌≡◌, refl, ap, ◌∙◌, true, false, Option, none, some, List, [], ◌∷◌,
  ◌++◌, map, ok, append_assoc, append-nil, take, ◌==◌, All, All-take, arith,
}
use plexplore.Prelude.Actions.{continue}
use plexplore.GoTime.{Time}
use plexplore.Ingest.Models.{Bytes}
use plexplore.Store.{RawPoint}
use plexplore.VisitStore.{VisitDb, driver_call, clamp_limit}
use plexplore.Points.{
  RecentPoint, recent_point, ExportPointFilter, selected, stream_loop, stream_points_for_export,
}
use plexplore.Points.Pages.{Rising}
use plexplore.Exports.{
  Body, ExportError, write_point, write_other, remember_point, probe_export_first_point, export_of,
  stream_others, write_after, found_first, write_export,
}

write_point-calm :
    (p : RecentPoint) (b : Body)
    → b.faults ≡ []
    → write_point p b ≡ (none, record { points = b.points ++ p ∷ []; faults = [] })
unfolding write_point
write_point-calm p b calm = rw (calm, write_point) refl

write_other-calm :
    (first : ℕ) (p : RecentPoint) (b : Body)
    → (p.seq == first) ≡ false
    → b.faults ≡ []
    → write_other first p b ≡ (none, record { points = b.points ++ p ∷ []; faults = [] })
unfolding write_other
write_other-calm first p b e calm = rw (e, write_other) (write_point-calm p b calm)

abbrev the_body : List RecentPoint → Body
the_body ps = record { points = ps; faults = [] }

-- A round of the stream whose callback works.
stream-step :
    {T : Type 0} (fn : RecentPoint → T → Option ExportError × T) (count : ℕ) (p : RecentPoint)
    (ps : List RecentPoint) (t t' : T)
    → fn p t ≡ (none, t')
    → stream_loop fn count (p ∷ ps) t ≡ stream_loop fn (count + 1) ps t'
unfolding stream_loop
stream-step {T} fn count p ps t t' e =
    ap
      (λ (r : Option ExportError × T). elim r.0 as (λ _. (ℕ × Option ExportError) × T) [
        | some x ↦ ((count, some x), r.1)
        | none ↦ stream_loop fn (count + 1) ps r.1
      ])
      e

write_other_self : (p : RecentPoint) (b : Body) → write_other p.seq p b ≡ (none, b)
unfolding write_other
write_other_self p b =
    let self : (p.seq == p.seq) ≡ true = ground arith in rw (self, write_other) refl

-- The stream writes all points whose sequence number is another.
stream-others :
    (first count : ℕ) (ps : List RecentPoint) (b : Body)
    → All (λ p. (p.seq == first) ≡ false) ps
    → b.faults ≡ []
    → (n : ℕ) × (stream_loop (write_other first) count ps b
        ≡ ((n, none), record { points = b.points ++ ps; faults = [] }))
unfolding stream_loop
stream-others first count [] b h calm = (count, rw (calm, append-nil b.points) refl)
stream-others first count (p ∷ ps) b (e, h) calm =
    let b' : Body = record { points = b.points ++ p ∷ []; faults = [] } in
    let (n, rest) = stream-others first (count + 1) ps b' h refl in
    (
      n,
      stream-step (write_other first) count p ps b b' (write_other-calm first p b e calm)
          ∙ rest
          ∙ ap (λ (xs : List RecentPoint). ((n, none), the_body xs))
              (append_assoc b.points (p ∷ []) ps),
    )

-- The first point of the stream is skipped.
stream-first :
    (p : RecentPoint) (ps : List RecentPoint) (b : Body)
    → All (λ q. (q.seq == p.seq) ≡ false) ps
    → b.faults ≡ []
    → (n : ℕ) × (stream_loop (write_other p.seq) 0 (p ∷ ps) b
        ≡ ((n, none), record { points = b.points ++ ps; faults = [] }))
unfolding stream_loop write_other
stream-first p ps b h calm =
    let (n, rest) = stream-others p.seq (0 + 1) ps b h calm in
    (n, stream-step (write_other p.seq) 0 p ps b b (write_other_self p b) ∙ rest)

others :
    (r : RawPoint) (rs : List RawPoint)
    → All (λ q. r.seq < q.seq) rs
    → All (λ (p : RecentPoint). (p.seq == r.seq) ≡ false) (map recent_point rs)
others r [] h = tt
others r (q ∷ rs) h = (ground (arith, h.0), others r rs h.1)

module _ (text : Time → Bytes) where
  calm_call : (s : VisitDb) → s.faults ≡ [] → (driver_call s).0 ≡ ok tt
  unfolding driver_call
  calm_call s calm = rw calm refl

  calm_still : (s : VisitDb) → s.faults ≡ [] → (driver_call s).1 ≡ s
  unfolding driver_call
  calm_still s calm = rw calm refl

  streamed :
      {T : Type 0} (f : ExportPointFilter) (limit : ℕ)
      (fn : RecentPoint → T → Option ExportError × T) (t : T) (s : VisitDb)
      → s.faults ≡ []
      → 0 < limit
      → limit ≤ 50_000
      → stream_points_for_export text f limit fn t s ≡ (
        ok (
            stream_loop fn 0
              (map recent_point (take limit (selected text f s.tables.raw_points)))
              t),
        s,
      )
  unfolding stream_points_for_export clamp_limit
  streamed f limit fn t s calm positive low =
      let clamp : clamp_limit 5000 50_000 limit ≡ limit = ground arith in
      rw (calm_call s calm, calm_still s calm, clamp) refl

  probed :
      (f : ExportPointFilter) (s : VisitDb) (sel : List RawPoint)
      → selected text f s.tables.raw_points ≡ sel
      → s.faults ≡ []
      → probe_export_first_point text f s
        ≡ (found_first (ok (stream_loop remember_point 0 (map recent_point (take 1 sel)) none)), s)
  unfolding probe_export_first_point
  probed f s sel e calm =
      ap (λ x. (found_first x.0, x.1))
        (streamed f 1 remember_point none s calm (omega arith) (omega arith))
      ∙ ap
          (λ xs. (
            found_first (ok (stream_loop remember_point 0 (map recent_point (take 1 xs)) none)),
            s,
          ))
          e

  written :
      (f : ExportPointFilter) (limit : ℕ) (first : Option RecentPoint) (s : VisitDb)
      → probe_export_first_point text f s ≡ (ok first, s)
      → (write_export text [] f limit s).0 ≡ (write_after text [] f limit first s).0
  unfolding write_export
  written f limit first s e = ap (λ x. (continue x.0 (write_after text [] f limit) x.1).0) e

  export_rows :
      (f : ExportPointFilter) (limit : ℕ) (s : VisitDb) (sel : List RawPoint)
      → selected text f s.tables.raw_points ≡ sel
      → s.faults ≡ []
      → 0 < limit
      → limit ≤ 50_000
      → Rising sel
      → (write_export text [] f limit s).0
        ≡ ok (record { points = map recent_point (take limit sel); trailer = none })
  unfolding stream_others export_of stream_loop write_point write_after remember_point found_first
  export_rows f zero s sel e calm positive low rising = absurd (omega arith)
  export_rows f (suc k) s [] e calm positive low rising =
      written f (suc k) none s (probed f s [] e calm)
  export_rows f (suc k) s (r ∷ rs) e calm positive low rising =
      let p = recent_point r in
      let b = the_body (p ∷ []) in
      let rest = map recent_point (take k rs) in
      let stream = streamed f (suc k) (write_other p.seq) b s calm positive low in
      let (n, loop) =
        stream-first p rest b (others r (take k rs) (All-take (λ q. r.seq < q.seq) k rs rising.0))
          refl in
      written f (suc k) (some p) s (probed f s (r ∷ rs) e calm)
      ∙ ap (λ x. ok (export_of text b x.0)) stream
      ∙ ap
          (λ xs. ok (
            export_of text b
              (ok (stream_loop (write_other p.seq) 0 (map recent_point (take (suc k) xs)) b))))
          e
      ∙ ap (λ x. ok (export_of text b (ok x))) loop

  -- An export in which no call to the database and no write fails has the points that the filter
  -- selects, up to the limit, each of them once, in the order of the selection, and no trailer,
  -- also when their number is 0. That order is the one of the bytes of the times' texts, then of
  -- the sequence numbers; where texts of one second differ in their fractions it need not be the
  -- order of the times. The limit is positive and at most 50,000, and the sequence numbers rise
  -- along the selection.
  pub write_export_complete :
      (f : ExportPointFilter) (limit : ℕ) (s : VisitDb)
      → s.faults ≡ []
      → 0 < limit
      → limit ≤ 50_000
      → Rising (selected text f s.tables.raw_points)
      → (write_export text [] f limit s).0
        ≡ ok (record {
          points = map recent_point (take limit (selected text f s.tables.raw_points));
          trailer = none;
        })
  write_export_complete f limit s calm positive low rising =
      export_rows f limit s (selected text f s.tables.raw_points) refl calm positive low rising
