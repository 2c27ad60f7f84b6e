-- ===== src/VisitScheduler/Progress.antt =====
-- The watermark of a device moves only once its visits are rebuilt.
use plexplore.Prelude.{
  ℕ, ◌≤◌, ◌≡◌, ◌≢◌, refl, sym, ap, ◌∙◌, ◌⊎◌, inl, inr, true, false, Option, none, some, Outcome, ok,
  err, ◌==◌, ==_iff, if◌then◌else◌, not, arith, Bool-cases, Outcome-cases, nat_eq,
}
use plexplore.Prelude.Dict
use plexplore.Prelude.Dict.{Dict}
use plexplore.Prelude.Actions.{pure, modify, continue, ◌>>=◌, ◌>>◌}
use plexplore.GoTime.{Time}
use plexplore.Float64.{FloatOps}
use plexplore.Ingest.Models.{Bytes}
use plexplore.Visits.{Config}
use plexplore.VisitStore.{
  Sql, SqlError, driver_failed, VisitDb, driver_call, require_device, max_seq, rewrite_visits,
  rebuild_visits_for_device_range, get_visit_generation_state, upsert_visit_generation_state,
  get_max_point_seq_for_device, get_point_timestamp_for_device_seq,
}
use plexplore.VisitStore.Rebuild.{with_faults, after_call, Rebuilt, rebuild-Rebuilt}
use plexplore.VisitScheduler.{VisitSchedulerConfig, Processed, skipped_device}
use plexplore.VisitScheduler.Processing.{range_start, is_processed, rebuild_device, process_device}

-- The tables of the points and of the watermarks are as they were.
record Still (s s' : VisitDb) : Type 0 where
  tables : s'.tables ≡ s.tables
  states : s'.states ≡ s.states

get_state-Still : (id : ℕ) (s : VisitDb) → Still s (get_visit_generation_state id s).1
unfolding get_visit_generation_state require_device driver_call
get_state-Still id s = record { tables = ground arith; states = ground arith }

get_state-value :
    (id : ℕ) (s : VisitDb) (v : Option ℕ)
    → (get_visit_generation_state id s).0 ≡ ok v
    → Dict.lookup id s.states ≡ v
unfolding get_visit_generation_state require_device driver_call
get_state-value id s v h = ground arith

get_timestamp-Still :
    (id seq : ℕ) (s : VisitDb) → Still s (get_point_timestamp_for_device_seq id seq s).1
unfolding get_point_timestamp_for_device_seq require_device driver_call
get_timestamp-Still id seq s = record { tables = ground arith; states = ground arith }

get_max-Still : (id : ℕ) (s : VisitDb) → Still s (get_max_point_seq_for_device id s).1
unfolding get_max_point_seq_for_device require_device driver_call
get_max-Still id s = record { tables = ground arith; states = ground arith }

get_max-value :
    (id : ℕ) (s : VisitDb) (v : Option ℕ)
    → (get_max_point_seq_for_device id s).0 ≡ ok v
    → v ≡ (
        if max_seq id s.tables.raw_points == 0 then none else some (max_seq id s.tables.raw_points))
unfolding get_max_point_seq_for_device require_device driver_call
get_max-value id s v h = ground arith

range_start-Still :
    (cfg : VisitSchedulerConfig) (id : ℕ) (last : Option ℕ) (s : VisitDb)
    → Still s (range_start cfg id last s).1
unfolding range_start
range_start-Still cfg id none s = record { tables = refl; states = refl }
range_start-Still cfg id (some last) s =
    let read = get_timestamp-Still id last s in
    elim (Outcome-cases (get_point_timestamp_for_device_seq id last s).0) [
      | inl (v, e) ↦ rw e read
      | inr (x, e) ↦ rw e read
    ]

-- The device's points are processed: it has none, or its watermark is at or past the last of them.
abbrev pub UpToDate : ℕ → VisitDb → Type 0
UpToDate id s =
    (id ≡ 0)
    ⊎ (max_seq id s.tables.raw_points ≡ 0)
    ⊎ ((last : ℕ) × (Dict.lookup id s.states ≡ some last) × (max_seq id s.tables.raw_points ≤ last))

-- How a call of `processDevice` ends. The points and the watermarks of the other devices are as they
-- were. An error has left the device's own watermark too, so that the next run rebuilds again.
pub record Progress (id : ℕ) (s : VisitDb) (r : Outcome SqlError Processed × VisitDb) : Type 0 where
  pub tables : r.1.tables ≡ s.tables
  pub others : (k : ℕ) → k ≢ id → Dict.lookup k r.1.states ≡ Dict.lookup k s.states
  pub outcome :
      (((e : SqlError) × (r.0 ≡ err e)) × (r.1.states ≡ s.states))
      ⊎ (((p : Processed) × (r.0 ≡ ok p) × (p.updated ≡ not p.skipped)) × UpToDate id r.1)

failed-Progress : (id : ℕ) (s s' : VisitDb) (e : SqlError) → Still s s' → Progress id s (err e, s')
failed-Progress id s s' e same = record {
  tables = same.tables;
  others = λ k _. ap (Dict.lookup k) same.states;
  outcome = inl ((e, refl), same.states);
}

current-Progress :
    (id : ℕ) (s s' : VisitDb) (p : Processed)
    → p.updated ≡ not p.skipped
    → Still s s'
    → UpToDate id s'
    → Progress id s (ok p, s')
current-Progress id s s' p clear same now = record {
  tables = same.tables;
  others = λ k _. ap (Dict.lookup k) same.states;
  outcome = inr ((p, refl, clear), now);
}

-- After an action that keeps the tables.
bind-Progress :
    {A : Type 0} (id : ℕ) (s s0 : VisitDb) (a : Sql A) (f : A → Sql Processed)
    → Still s (a s0).1
    → ((x : A) → (a s0).0 ≡ ok x → Progress id s (f x (a s0).1))
    → Progress id s ((a >>= f) s0)
bind-Progress id s s0 a f same next = elim (Outcome-cases (a s0).0) [
  | inl (x, e) ↦ rw e (next x e)
  | inr (x, e) ↦ rw e (failed-Progress id s (a s0).1 x same)
]

Still-trans : (s s' s'' : VisitDb) → Still s s' → Still s' s'' → Still s s''
Still-trans s s' s'' h k = record { tables = k.tables ∙ h.tables; states = k.states ∙ h.states }

differ : (id k : ℕ) → k ≢ id → (id == k) ≡ false
differ id k other = elim (Bool-cases (id == k)) [
  | inl e ↦ absurd (other (sym ((==_iff id k).0 e)))
  | inr e ↦ e
]

itself : (id : ℕ) → (id == id) ≡ true
itself id = (==_iff id id).1 refl

written-Progress :
    (id top : ℕ) (p : Processed) (s s0 : VisitDb)
    → p.updated ≡ not p.skipped
    → Still s s0
    → max_seq id s.tables.raw_points ≡ top
    → Progress id s (ok p, record s0 { states = Dict.insert id top s0.states })
written-Progress id top p s s0 clear same known = record {
  tables = same.tables;
  others = λ k other.
      Dict.lookup-insert id k top s0.states
      ∙ rw (differ id k other) (ap (Dict.lookup k) same.states);
  outcome = inr (
    (p, refl, clear),
    inr (
        inr (
          top,
          Dict.lookup-insert id id top s0.states ∙ rw (itself id) refl,
          omega (arith, ap (λ t. max_seq id t.raw_points) same.tables, known),
        )),
  );
}

upsert-Progress :
    (id top : ℕ) (p : Processed) (s s0 : VisitDb)
    → p.updated ≡ not p.skipped
    → Still s s0
    → max_seq id s.tables.raw_points ≡ top
    → Progress id s ((upsert_visit_generation_state id top >> pure p) s0)
unfolding upsert_visit_generation_state require_device
upsert-Progress id top p s s0 clear same known = elim (Bool-cases (id == 0)) [
  | inl e ↦ rw e (failed-Progress id s s0 _ same)
  | inr e ↦ rw e (
      let Q = λ (r : Outcome SqlError (Unit {0}) × VisitDb).
        Progress id s (continue r.0 (λ _. pure p) r.1) in
      after_call s0 Q (modify λ t. record t { states = Dict.insert id top t.states })
        (λ fs.
          failed-Progress id s (with_faults s0 fs) driver_failed
            (record { tables = same.tables; states = same.states }))
        (λ fs.
          written-Progress id top p s (with_faults s0 fs) clear
            (record { tables = same.tables; states = same.states }) known))
]

processed-UpToDate :
    (id top : ℕ) (last : Option ℕ) (s s0 s1 : VisitDb)
    → Still s s0
    → Still s s1
    → max_seq id s.tables.raw_points ≡ top
    → Dict.lookup id s0.states ≡ last
    → is_processed top last ≡ true
    → UpToDate id s1
unfolding is_processed
processed-UpToDate id top none s s0 s1 same0 same1 known value done = absurd (ground arith)
processed-UpToDate id top (some n) s s0 s1 same0 same1 known value done =
    let points = ap (λ t. max_seq id t.raw_points) same1.tables in
    let enough : top ≤ n = ground arith in
    inr (
      inr (
        n,
        ap (Dict.lookup id) (same1.states ∙ sym same0.states) ∙ value,
        omega (arith, points, known, enough),
      ))

module _ (text : Time → Bytes) (fl : FloatOps) where
  of_Rebuilt :
      (id : ℕ) (from to : Option Time) (cfg : Config) (s : VisitDb)
      (r : Outcome SqlError ℕ × VisitDb)
      → Rebuilt text fl id from to cfg s r
      → Still s r.1
  unfolding rewrite_visits
  of_Rebuilt id from to cfg s (ok n, s') (_, (fs, e)) = record {
    tables = ap (λ t. t.tables) e;
    states = ap (λ t. t.states) e;
  }
  of_Rebuilt id from to cfg s (err x, s') (fs, e) = record {
    tables = ap (λ t. t.tables) e;
    states = ap (λ t. t.states) e;
  }

  rebuild-Still :
      (id : ℕ) (from to : Option Time) (cfg : Config) (s : VisitDb)
      → Still s (rebuild_visits_for_device_range text fl id from to cfg s).1
  rebuild-Still id from to cfg s =
      of_Rebuilt id from to cfg s _ (rebuild-Rebuilt text fl id from to cfg s)

  process_device-Progress-from :
      (cfg : VisitSchedulerConfig) (id top : ℕ) (s s0 : VisitDb)
      → Still s s0
      → max_seq id s.tables.raw_points ≡ top
      → Progress id s (rebuild_device text fl cfg id top s0)
  unfolding rebuild_device is_processed
  process_device-Progress-from cfg id top s s0 same known =
      bind-Progress id s s0 (get_visit_generation_state id) _
        (Still-trans s s0 _ same (get_state-Still id s0))
        λ last e.
          let s1 = (get_visit_generation_state id s0).1 in
          let same1 = Still-trans s s0 s1 same (get_state-Still id s0) in
          let value = get_state-value id s0 last e in
          elim (Bool-cases (is_processed top last)) [
            | inl done ↦ rw done (
                current-Progress id s s1 skipped_device refl same1
                  (processed-UpToDate id top last s s0 s1 same same1 known value done))
            | inr more ↦ rw more (
                bind-Progress id s s1 (range_start cfg id last) _
                  (Still-trans s s1 _ same1 (range_start-Still cfg id last s1))
                  λ from _.
                    let s2 = (range_start cfg id last s1).1 in
                    let same2 = Still-trans s s1 s2 same1 (range_start-Still cfg id last s1) in
                    let rebuild =
                      rebuild_visits_for_device_range text fl id from none cfg.detect_config in
                    let same3 =
                      Still-trans s s2 _ same2 (rebuild-Still id from none cfg.detect_config s2) in
                    bind-Progress id s s2 rebuild _ same3 λ created _.
                      upsert-Progress id top
                        (record { created = created; updated = true; skipped = false }) s
                        (rebuild s2).1 refl same3 known)
          ]

  -- `processDevice`, whichever of its calls to the database fail: the points and the watermarks of
  -- the other devices are as they were; when it returns no error the device is up to date, its
  -- watermark is at or past its last point, if it has any; when it returns an error the watermarks
  -- have not moved.
  pub process_device-Progress :
      (cfg : VisitSchedulerConfig) (id : ℕ) (s : VisitDb)
      → Progress id s (process_device text fl cfg id s)
  unfolding process_device
  process_device-Progress cfg id s =
      let still : Still s s = record { tables = refl; states = refl } in
      elim (Bool-cases (id == 0)) [
        | inl e ↦ rw e (current-Progress id s s skipped_device refl still (inl ((==_iff id 0).0 e)))
        | inr e ↦ rw e (
            bind-Progress id s s (get_max_point_seq_for_device id) _ (get_max-Still id s) λ top f.
              let s1 = (get_max_point_seq_for_device id s).1 in
              let kept = get_max-Still id s in
              let value = get_max-value id s top f in
              elim (Bool-cases (max_seq id s.tables.raw_points == 0)) [
                | inl z ↦
                    let nothing : top ≡ none = value ∙ rw z refl in
                    rw nothing (
                      current-Progress id s s1 skipped_device refl kept (
                        inr
                          (inl (ap (λ t. max_seq id t.raw_points) kept.tables ∙ (==_iff _ 0).0 z))))
                | inr z ↦
                    let something : top ≡ some (max_seq id s.tables.raw_points) =
                      value ∙ rw z refl in
                    rw something (process_device-Progress-from cfg id _ s s1 kept refl)
              ])
      ]
