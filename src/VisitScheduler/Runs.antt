-- ===== src/VisitScheduler/Runs.antt =====
-- What a run of the scheduler comes to for all devices of its batch.
use plexplore.Prelude.{
  ℕ, ◌+◌, ◌≤◌, ◌≡◌, refl, sym, ap, subst, ◌∙◌, inl, inr, List, [], ◌∷◌, Outcome, ok, err, length,
  ◌==◌, ==_iff, not, All, arith, Bool-cases, nat_eq,
}
use plexplore.Prelude.Dict
use plexplore.GoTime.{Time}
use plexplore.Float64.{FloatOps}
use plexplore.Ingest.Models.{Bytes}
use plexplore.Store.{Device}
use plexplore.VisitStore.{SqlError, VisitDb, max_seq}
use plexplore.VisitScheduler.{VisitSchedulerConfig, VisitSchedulerRunResult, Processed}
use plexplore.VisitScheduler.Processing.{process_device, process_devices, count_device}
use plexplore.VisitScheduler.Progress.{UpToDate, Progress, process_device-Progress}

moved :
    (id k : ℕ) (s : VisitDb) (r : Outcome SqlError Processed × VisitDb)
    → Progress id s r
    → Dict.lookup k r.1.states ≡ Dict.lookup k s.states
    → UpToDate k s
    → UpToDate k r.1
moved id k s r h same (inl z) = inl z
moved id k s r h same (inr (inl z)) = inr (inl (ap (λ t. max_seq k t.raw_points) h.tables ∙ z))
moved id k s r h same (inr (inr (last, known, low))) =
    inr (inr (last, same ∙ known, omega (arith, ap (λ t. max_seq k t.raw_points) h.tables, low)))

-- A device that is up to date stays so.
Progress-keeps :
    (id k : ℕ) (s : VisitDb) (r : Outcome SqlError Processed × VisitDb)
    → Progress id s r
    → UpToDate k s
    → UpToDate k r.1
Progress-keeps id k s r h now = elim (Bool-cases (k == id)) [
  | inl e ↦
      let same = (==_iff k id).0 e in
      elim h.outcome [
        | inl (_, states) ↦ moved id k s r h (ap (Dict.lookup k) states) now
        | inr (_, later) ↦ subst (λ i. UpToDate i r.1) (sym same) later
      ]
  | inr e ↦ moved id k s r h (h.others k (λ same. absurd (ground (arith, same)))) now
]

-- What the loop over a batch does. Each device of it is counted once, as skipped, as updated or as
-- an error; when no error is added, all its devices are up to date afterwards, and a device that is
-- up to date stays so.
pub record Ran (ds : List Device) (r r' : VisitSchedulerRunResult) (s s' : VisitDb) : Type 0 where
  pub tables : s'.tables ≡ s.tables
  pub processed : r'.processed_devices ≡ r.processed_devices + length ds
  pub balance :
      r'.skipped_devices + r'.updated_devices + r'.errors
      ≡ r.skipped_devices + r.updated_devices + r.errors + length ds
  pub more : r.errors ≤ r'.errors
  pub keeps : (k : ℕ) → UpToDate k s → UpToDate k s'
  pub current : r'.errors ≡ r.errors → All (λ d. UpToDate d.id s') ds

-- One device's counts.
record Counted (r r' : VisitSchedulerRunResult) (o : Outcome SqlError Processed) : Type 0 where
  one : r'.processed_devices ≡ r.processed_devices + 1
  sum :
      r'.skipped_devices + r'.updated_devices + r'.errors
      ≡ r.skipped_devices + r.updated_devices + r.errors + 1
  error : ((e : SqlError) × (o ≡ err e)) → r'.errors ≡ r.errors + 1
  fine : ((p : Processed) × (o ≡ ok p)) → r'.errors ≡ r.errors

counts :
    (p : Processed) (r : VisitSchedulerRunResult)
    → p.updated ≡ not p.skipped
    → let r' = count_device (ok p) r in
      r'.skipped_devices + r'.updated_devices + r'.errors
      ≡ r.skipped_devices + r.updated_devices + r.errors + 1
unfolding count_device
counts p r clear = ground arith

count_device-Counted :
    (r : VisitSchedulerRunResult) (id : ℕ) (s : VisitDb) (o : Outcome SqlError Processed × VisitDb)
    → Progress id s o
    → Counted r (count_device o.0 r) o.0
unfolding count_device
count_device-Counted r id s (err e, s') h = record {
  one = refl;
  sum = omega arith;
  error = λ _. refl;
  fine = λ (p, k). absurd (cc);
}
count_device-Counted r id s (ok p, s') h = elim h.outcome [
  | inl ((e, k), _) ↦ absurd (cc)
  | inr ((q, k, clear), _) ↦
      let same : p ≡ q = ground arith in
      let clear_p : p.updated ≡ not p.skipped =
        subst (λ x. x.updated ≡ not x.skipped) (sym same) clear in
      record {
        one = ground arith;
        sum = counts p r clear_p;
        error = λ (e, l). absurd (cc);
        fine = λ _. ground arith;
      }
]

module _ (text : Time → Bytes) (fl : FloatOps) (cfg : VisitSchedulerConfig) where
  -- The loop of `runOnce` over a batch, whichever of its calls to the database fail: each device is
  -- counted once, as skipped, as updated or as an error; a device that is up to date stays so; and
  -- when no error is counted every device of the batch is up to date in the end, its watermark at or
  -- past its last point.
  pub process_devices-Ran :
      (ds : List Device) (r : VisitSchedulerRunResult) (s : VisitDb)
      → let (r', s') = process_devices text fl cfg ds r s in Ran ds r r' s s'
  unfolding process_devices
  process_devices-Ran [] r s = record {
    tables = refl;
    processed = omega arith;
    balance = omega arith;
    more = omega arith;
    keeps = λ k h. h;
    current = λ _. tt;
  }
  process_devices-Ran (d ∷ ds) r s =
      let o = process_device text fl cfg d.id s in
      let one = process_device-Progress text fl cfg d.id s in
      let c = count_device-Counted r d.id s o one in
      let rest = process_devices-Ran ds (count_device o.0 r) o.1 in
      record {
        tables = rest.tables ∙ one.tables;
        processed = omega (arith, rest.processed, c.one);
        balance = omega (arith, rest.balance, c.sum);
        more = elim one.outcome [
          | inl (failed, _) ↦ omega (arith, rest.more, c.error failed)
          | inr ((p, done, _), _) ↦ omega (arith, rest.more, c.fine (p, done))
        ];
        keeps = λ k h. rest.keeps k (Progress-keeps d.id k s o one h);
        current = λ same. elim one.outcome [
          | inl (failed, _) ↦ absurd (omega (arith, same, rest.more, c.error failed))
          | inr ((p, done, _), now) ↦
              (rest.keeps d.id now, rest.current (omega (arith, same, c.fine (p, done))))
        ];
      }
