-- ===== src/VisitStore/Rebuild.antt =====
-- What a rebuild leaves in the table of visits.
use plexplore.Prelude.{
  ℕ, ◌≡◌, refl, subst, inl, inr, Bool, false, Option, List, [], ◌∷◌, Outcome, ok, err, length, ◌==◌,
  Bool-cases,
}
use plexplore.Prelude.Actions.{modify, pure, ◌>>◌}
use plexplore.GoTime.{Time}
use plexplore.Float64.{FloatOps}
use plexplore.Ingest.Models.{Bytes}
use plexplore.Visits.{Config, Visit}
use plexplore.VisitStore.{
  VisitDb, Sql, SqlError, driver_failed, driver_call, require_device, points_for_detection,
  rewrite_visits, replace_visits, insert_calls, detected, rebuild_visits_for_device_range,
  next_fault, later_faults,
}

abbrev pub with_faults : VisitDb → List Bool → VisitDb
with_faults s fs = record s { faults = fs }

-- A call to the database fails, or what is behind it goes on, with the tables as they were.
pub after_call :
    {A : Type 0} (s : VisitDb) (Q : Outcome SqlError A × VisitDb → Type 0) (k : Sql A)
    → ((fs : List Bool) → Q (err driver_failed, with_faults s fs))
    → ((fs : List Bool) → Q (k (with_faults s fs)))
    → Q ((driver_call >> k) s)
unfolding driver_call
after_call s Q k failed next = elim (Bool-cases (next_fault s.faults)) [
  | inl e ↦ rw e (failed (later_faults s.faults))
  | inr e ↦ rw e (next (later_faults s.faults))
]

after_inserts :
    {A : Type 0} (vs : List Visit) (s : VisitDb) (Q : Outcome SqlError A × VisitDb → Type 0)
    (k : Sql A)
    → ((fs : List Bool) → Q (err driver_failed, with_faults s fs))
    → ((fs : List Bool) → Q (k (with_faults s fs)))
    → Q ((insert_calls vs >> k) s)
unfolding insert_calls driver_call
after_inserts [] s Q k failed next = next s.faults
after_inserts (v ∷ vs) s Q k failed next = elim (Bool-cases (next_fault s.faults)) [
  | inl e ↦ rw e (failed (later_faults s.faults))
  | inr e ↦ rw e (after_inserts vs (with_faults s (later_faults s.faults)) Q k failed next)
]

module _ (text : Time → Bytes) (fl : FloatOps) where
  -- What a rebuild comes to. A success has put the visits that the detector finds in the range in
  -- the place of the rows of the range; an error leaves the tables as they were.
  abbrev pub Rebuilt :
      ℕ → Option Time → Option Time → Config → VisitDb → Outcome SqlError ℕ × VisitDb → Type 0
  Rebuilt id from to cfg s (err e, s') = (fs : List Bool) × (s' ≡ with_faults s fs)
  Rebuilt id from to cfg s (ok n, s') =
      let found = detected text fl id from to cfg s in
      (n ≡ length found)
      × ((fs : List Bool) × (s' ≡ with_faults (rewrite_visits text id from to found s) fs))

  -- `RebuildVisitsForDeviceRange`, whichever of its calls to the database fail.
  pub rebuild-Rebuilt :
      (id : ℕ) (from to : Option Time) (cfg : Config) (s : VisitDb)
      → Rebuilt id from to cfg s (rebuild_visits_for_device_range text fl id from to cfg s)
  unfolding rebuild_visits_for_device_range require_device replace_visits rewrite_visits detected
      points_for_detection
  rebuild-Rebuilt id from to cfg s =
      let Q = Rebuilt id from to cfg s in
      let found = detected text fl id from to cfg s in
      let failed : (fs : List Bool) → Q (err driver_failed, with_faults s fs) = λ fs. (fs, refl) in
      let commit : Sql ℕ = modify (rewrite_visits text id from to found) >> pure (length found) in
      let last : Sql ℕ = driver_call >> commit in
      let inserts : Sql ℕ = insert_calls found >> last in
      let prepare : Sql ℕ = driver_call >> inserts in
      let delete : Sql ℕ = driver_call >> prepare in
      elim (Bool-cases (id == 0)) [
        | inl e ↦ rw e (s.faults, refl)
        | inr e ↦ rw e (
            after_call s Q
              (λ t. replace_visits text id from to (detected text fl id from to cfg t) t) failed
              λ f1. after_call (with_faults s f1) Q delete failed λ f2.
                after_call (with_faults s f2) Q prepare failed λ f3.
                  after_call (with_faults s f3) Q inserts failed λ f4.
                    after_inserts found (with_faults s f4) Q last failed
                      λ f5. after_call (with_faults s f5) Q commit failed λ f6. (refl, (f6, refl)))
      ]

-- When no call fails.
insert_calls-calm :
    (vs : List Visit) (s : VisitDb) → insert_calls vs (with_faults s []) ≡ (ok tt, with_faults s [])
unfolding insert_calls driver_call
insert_calls-calm [] s = refl
insert_calls-calm (v ∷ vs) s = insert_calls-calm vs s

rebuild-calm :
    (text : Time → Bytes) (fl : FloatOps) (id : ℕ) (from to : Option Time) (cfg : Config)
    (s : VisitDb)
    → (id == 0) ≡ false
    → let found = detected text fl id from to cfg (with_faults s []) in
      rebuild_visits_for_device_range text fl id from to cfg (with_faults s [])
      ≡ (ok (length found), rewrite_visits text id from to found (with_faults s []))
unfolding rebuild_visits_for_device_range require_device replace_visits driver_call
rebuild-calm text fl id from to cfg s e =
    let found = detected text fl id from to cfg (with_faults s []) in
    rw (e, insert_calls-calm found s) refl

pub rebuild-succeeds :
    (text : Time → Bytes) (fl : FloatOps) (id : ℕ) (from to : Option Time) (cfg : Config)
    (s : VisitDb)
    → (id == 0) ≡ false
    → s.faults ≡ []
    → let found = detected text fl id from to cfg s in
      rebuild_visits_for_device_range text fl id from to cfg s
      ≡ (ok (length found), rewrite_visits text id from to found s)
rebuild-succeeds text fl id from to cfg s e calm =
    let same : with_faults s [] ≡ s = rw calm refl in
    subst
      (λ t. rebuild_visits_for_device_range text fl id from to cfg t ≡ (
        ok (length (detected text fl id from to cfg t)),
        rewrite_visits text id from to (detected text fl id from to cfg t) t,
      ))
      same (rebuild-calm text fl id from to cfg s e)
