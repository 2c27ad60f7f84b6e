-- ===== src/VisitStore/Again.antt =====
-- A rebuild of the visits is deterministic.
use mathlib.Core.Option.{get_or}
use plexplore.Prelude.{
  ℕ, ◌+◌, ◌≡◌, refl, sym, ap, subst, ◌∙◌, true, false, Option, none, some, List, [], ◌∷◌, ◌++◌, map,
  map-append, ok, length, ◌==◌, ◌&&◌, if◌then◌else◌, keep, keep-append, keep-keep, keep-none, All,
  All-keep, All-append_right, append-nil, arith,
}
use plexplore.Prelude.Int.{pos, leb_ℤ}
use plexplore.Prelude.Sorting.{All-sort_by}
use plexplore.GoTime.{Time}
use plexplore.Float64.{FloatOps}
use plexplore.Ingest.Models.{Bytes}
use plexplore.Store.{RawPoint}
use plexplore.Visits.{Config, Point, Visit, detect}
use plexplore.Visits.Windows.{Stays, ended, skipped, stay, Detected, detect-Detected}
use plexplore.VisitStore.{
  VisitRow, VisitDb, in_range, row_le, points_for_detection, is_rewritten, number_rows,
  rewrite_visits, detected, rebuild_visits_for_device_range,
}
use plexplore.VisitStore.Rebuild.{rebuild-succeeds}

All-mapped :
    {A B : Type 0} (P : B → Type 0) (f : A → B) (xs : List A)
    → All (λ x. P (f x)) xs
    → All P (map f xs)
All-mapped P f [] h = tt
All-mapped P f (x ∷ xs) h = (h.0, All-mapped P f xs h.1)

-- Each visit starts at a point.
Stays-starts :
    (fl : FloatOps) (cfg : Config) (P : Time → Type 0) (ps : List Point) (vs : List Visit)
    → Stays fl cfg ps vs
    → All (λ p. P p.timestamp_utc) ps
    → All (λ v. P v.start_at) vs
Stays-starts fl cfg P _ _ ended h = tt
Stays-starts fl cfg P _ _ (skipped {p = p} {ps = ps} {vs = vs} why later) h =
    Stays-starts fl cfg P ps vs later h.1
Stays-starts fl cfg P _ _ (stay {p = p} {more = more} {rest = rest} {v = v} {vs = vs} one later) h =
    (
      subst P (sym one.start_at) h.0,
      Stays-starts fl cfg P rest vs later (All-append_right (λ q. P q.timestamp_utc) more rest h.1),
    )

module _ (text : Time → Bytes) (fl : FloatOps) where
  found-starts :
      (cfg : Config) (P : Time → Type 0) (ps : List Point) (r : Option (List Visit))
      → Detected fl cfg ps r
      → All (λ p. P p.timestamp_utc) ps
      → All (λ v. P v.start_at) (get_or r [])
  found-starts cfg P ps none d h = tt
  found-starts cfg P ps (some vs) d h = Stays-starts fl cfg P ps vs d h

  points-in_range :
      (id : ℕ) (from to : Option Time) (s : VisitDb)
      → All
          (λ p. in_range text from to p.timestamp_utc ≡ true)
          (points_for_detection text id from to s)
  unfolding points_for_detection
  points-in_range id from to s =
      let P = λ (r : RawPoint). in_range text from to r.timestamp_utc ≡ true in
      let test = λ (r : RawPoint). (r.device_id == id) && in_range text from to r.timestamp_utc in
      All-mapped _ _ _ (
        All-sort_by (row_le text) P (keep test s.tables.raw_points)
          (All-keep P test s.tables.raw_points λ r e. ground arith))

  detected-in_range :
      (id : ℕ) (from to : Option Time) (cfg : Config) (s : VisitDb)
      → leb_ℤ cfg.min_dwell (pos 0) ≡ false
      → fl.le cfg.max_radius_meters (fl.of_ℕ 0) ≡ false
      → All (λ v. in_range text from to v.start_at ≡ true) (detected text fl id from to cfg s)
  unfolding detected
  detected-in_range id from to cfg s dwell radius =
      let ps = points_for_detection text id from to s in
      found-starts cfg (λ t. in_range text from to t ≡ true) ps (detect fl ps cfg)
        (detect-Detected fl cfg ps dwell radius) (points-in_range id from to s)

  detected-tables :
      (id : ℕ) (from to : Option Time) (cfg : Config) (s : VisitDb)
      → detected text fl id from to cfg
          (rewrite_visits text id from to (detected text fl id from to cfg s) s)
        ≡ detected text fl id from to cfg s
  unfolding detected points_for_detection rewrite_visits
  detected-tables id from to cfg s = refl

  calm_later :
      (id : ℕ) (from to : Option Time) (vs : List Visit) (s : VisitDb)
      → s.faults ≡ []
      → (rewrite_visits text id from to vs s).faults ≡ []
  unfolding rewrite_visits
  calm_later id from to vs s calm = calm

  -- The rows of a table of visits without their ids.
  abbrev pub contents : List VisitRow → List (ℕ × Visit)
  contents = map λ r. (r.device_id, r.visit)

  number_rows-contents :
      (id next : ℕ) (vs : List Visit)
      → contents (number_rows text id next vs) ≡ map (λ v. (id, v)) vs
  unfolding number_rows
  number_rows-contents id next [] = refl
  number_rows-contents id next (v ∷ vs) = ap (◌∷◌ (id, v)) (number_rows-contents id (next + 1) vs)

  number_rows-rewritten :
      (id next : ℕ) (from to : Option Time) (vs : List Visit)
      → All (λ v. in_range text from to v.start_at ≡ true) vs
      → All
          (λ r. (if is_rewritten text id from to r then false else true) ≡ false)
          (number_rows text id next vs)
  unfolding number_rows is_rewritten
  number_rows-rewritten id next from to [] h = tt
  number_rows-rewritten id next from to (v ∷ vs) h =
      (ground (arith, h.0), number_rows-rewritten id (next + 1) from to vs h.1)

  -- Rewriting the range again with the same visits.
  rewrite-again :
      (id : ℕ) (from to : Option Time) (vs : List Visit) (s s' : VisitDb)
      → All (λ v. in_range text from to v.start_at ≡ true) vs
      → s'.visits ≡ (rewrite_visits text id from to vs s).visits
      → contents (rewrite_visits text id from to vs s').visits ≡ contents s'.visits
  unfolding rewrite_visits
  rewrite-again id from to vs s s' h same =
      let others = λ (r : VisitRow). if is_rewritten text id from to r then false else true in
      let kept = keep others s.visits in
      let rows = number_rows text id s.next_visit_id vs in
      let old : keep others s'.visits ≡ kept =
        ap (keep others) same
        ∙ keep-append others kept rows
        ∙ ap (λ xs. xs ++ keep others rows) (keep-keep others s.visits)
        ∙ ap (◌++◌ kept)
            (keep-none others rows (number_rows-rewritten id s.next_visit_id from to vs h))
        ∙ append-nil kept in
      map-append _ (keep others s'.visits) (number_rows text id s'.next_visit_id vs)
      ∙ ap (λ xs. contents xs ++ contents (number_rows text id s'.next_visit_id vs)) old
      ∙ ap (◌++◌ (contents kept)) (
          number_rows-contents id s'.next_visit_id vs
          ∙ sym (number_rows-contents id s.next_visit_id vs))
      ∙ sym (map-append _ kept rows)
      ∙ ap contents (sym same)

  -- A rebuild is deterministic: with a positive dwell time and radius, and when no call to the
  -- database fails, a second one over the same points succeeds with the same count, and leaves the
  -- same rows in the same order, but for their ids.
  pub rebuild-again :
      (id : ℕ) (from to : Option Time) (cfg : Config) (s : VisitDb)
      → leb_ℤ cfg.min_dwell (pos 0) ≡ false
      → fl.le cfg.max_radius_meters (fl.of_ℕ 0) ≡ false
      → (id == 0) ≡ false
      → s.faults ≡ []
      → let first = rebuild_visits_for_device_range text fl id from to cfg s in
        let second = rebuild_visits_for_device_range text fl id from to cfg first.1 in
        (((n : ℕ) × (first.0 ≡ ok n)) × (second.0 ≡ first.0))
        × (contents second.1.visits ≡ contents first.1.visits)
  rebuild-again id from to cfg s dwell radius positive calm =
      let vs = detected text fl id from to cfg s in
      let s1 = rewrite_visits text id from to vs s in
      let one = rebuild-succeeds text fl id from to cfg s positive calm in
      let two =
        rebuild-succeeds text fl id from to cfg s1 positive (calm_later id from to vs s calm) in
      let same_points : detected text fl id from to cfg s1 ≡ vs =
        detected-tables id from to cfg s in
      let second : rebuild_visits_for_device_range text fl id from to cfg
            (rebuild_visits_for_device_range text fl id from to cfg s).1
          ≡ (ok (length vs), rewrite_visits text id from to vs s1) =
        ap (λ r. rebuild_visits_for_device_range text fl id from to cfg r.1) one
        ∙ two
        ∙ ap (λ ws. (ok (length ws), rewrite_visits text id from to ws s1)) same_points in
      (
        ((length vs, ap (λ r. r.0) one), ap (λ r. r.0) second ∙ sym (ap (λ r. r.0) one)),
        ap (λ r. contents r.1.visits) second
            ∙ rewrite-again id from to vs s s1 (detected-in_range id from to cfg s dwell radius)
                refl
            ∙ sym (ap (λ r. contents r.1.visits) one),
      )
