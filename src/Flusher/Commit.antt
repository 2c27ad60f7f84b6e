-- ===== src/Flusher/Commit.antt =====
-- What committing a batch does to the store and to the checkpoint.
use plexplore.Prelude.{
  ℕ, zero, suc, ◌≤◌, ◌<◌, ◌≡◌, refl, sym, subst, ◌⊎◌, inl, inr, String, true, List, [], ◌∷◌,
  Outcome, ok, err, All, All-map, Outcome-cases, Option-cases, Bool-cases, ltb, if◌then◌else◌,
  arith,
}
use plexplore.GoTime.{Time}
use plexplore.Ingest.Models.{SpoolRecord}
use plexplore.Ingest.Json.{Json}
use plexplore.Flusher.{
  Backend, Config, split_batch, write_batch, compact_best_effort, advance, commit_batch,
}
use plexplore.Flusher.Durable.{View, Durable}

-- The records to write leave out the markers only.
split_batch-write :
    (P : SpoolRecord → Type 0) (rs : List SpoolRecord) (top : ℕ)
    → All P (split_batch rs top).0
    → All (λ r. P r ⊎ (r.checkpoint_only ≡ true)) rs
unfolding split_batch
split_batch-write P [] top h = tt
split_batch-write P (r ∷ rs) top h =
    let write = (split_batch rs (if ltb top r.seq then r.seq else top)).0 in
    elim (Bool-cases r.checkpoint_only) [
      | inl marked ↦ (
        inr marked,
        split_batch-write P rs _ (subst (λ b. All P (if b then write else r ∷ write)) marked h),
      )
      | inr plain ↦
          let kept = subst (λ b. All P (if b then write else r ∷ write)) plain h in
          (inl kept.0, split_batch-write P rs _ kept.1)
    ]

-- Bounds of the batch carry over to what is written and to the highest sequence number.
split_batch-bound :
    (bound : ℕ) (rs : List SpoolRecord) (top : ℕ)
    → top ≤ bound
    → All (λ r. r.seq ≤ bound) rs
    → All (λ r. r.seq ≤ bound) (split_batch rs top).0 × ((split_batch rs top).1 ≤ bound)
unfolding split_batch
split_batch-bound bound [] top t h = (tt, t)
split_batch-bound bound (r ∷ rs) top t (h, hs) =
    let rest =
      split_batch-bound bound rs (if ltb top r.seq then r.seq else top) (ground arith) hs in
    elim (Bool-cases r.checkpoint_only) [
      | inl marked ↦ rw marked rest
      | inr plain ↦ rw plain ((h, rest.0), rest.1)
    ]

module _ {S : Type 0} (be : Backend S) (v : View S) (laws : Durable be v) (j : Json) (now : Time)
    (cfg : Config) where
  open v use {Good, Stored, checkpoint, Spooled}

  -- A later state: what was stored is stored, and what is in the spool past the checkpoint still is.
  pub record Later (s s' : S) : Type 0 where
    pub good : Good s'
    pub keeps : (r : SpoolRecord) → Stored r s → Stored r s'
    pub rises : checkpoint s ≤ checkpoint s'
    pub spooled : (n : ℕ) → checkpoint s' < n → Spooled n s → Spooled n s'

  Later-refl : (s : S) → Good s → Later s s
  Later-refl s g = record {
    good = g;
    keeps = λ r h. h;
    rises = omega arith;
    spooled = λ n past h. h;
  }

  Later-trans : {s t u : S} → Later s t → Later t u → Later s u
  Later-trans a b = record {
    good = b.good;
    keeps = λ r h. b.keeps r (a.keeps r h);
    rises = omega (arith, a.rises, b.rises);
    spooled = λ n past h. b.spooled n past (a.spooled n (omega (arith, b.rises)) h);
  }

  inserted : (rs : List SpoolRecord) (s : S) → Good s → Later s (be.insert_spool_batch rs s).1
  inserted rs s g = record {
    good = laws.insert_good rs s g;
    keeps = laws.insert_keeps rs s g;
    rises = omega (arith, laws.insert_checkpoint rs s g);
    spooled = λ n past h. laws.insert_spooled rs s g n h;
  }

  -- What writing a batch comes to.
  record Written (rs : List SpoolRecord) (top : ℕ) (s : S) (w : Outcome String ℕ × S) : Type 0 where
    later : Later s w.1
    same : checkpoint w.1 ≡ checkpoint s
    stores : (n : ℕ) → w.0 ≡ ok n → All (λ r. Stored r w.1) rs
    number : (n bound : ℕ) → w.0 ≡ ok n → top ≤ bound → All (λ r. r.seq ≤ bound) rs → n ≤ bound

  write_batch-Written :
      (rs : List SpoolRecord) (top : ℕ) (s : S)
      → Good s
      → Written rs top s (write_batch be j now cfg rs top s)
  unfolding write_batch
  write_batch-Written [] top s g = record {
    later = Later-refl s g;
    same = refl;
    stores = λ n e. tt;
    number = λ n bound e t h. ground arith;
  }
  write_batch-Written (r ∷ rs) top s g =
      let w = be.insert_spool_batch (r ∷ rs) s in
      elim (Outcome-cases w.0) [
        | inl (m, e) ↦ rw e (record {
          later = inserted (r ∷ rs) s g;
          same = laws.insert_checkpoint (r ∷ rs) s g;
          stores = λ n _. laws.insert_stores (r ∷ rs) s m g e;
          number = λ n bound f t h.
              let low = laws.insert_number (r ∷ rs) s m bound g e h in ground arith;
        })
        | inr (x, e) ↦ rw e (record {
          later = inserted (r ∷ rs) s g;
          same = laws.insert_checkpoint (r ∷ rs) s g;
          stores = λ n f. absurd (ground arith);
          number = λ n bound f t h. absurd (ground arith);
        })
      ]

  -- What an advance comes to.
  record Raised (n : ℕ) (s : S) (a : Outcome String (Unit {0}) × S) : Type 0 where
    later : Later s a.1
    bound : (bound : ℕ) → n ≤ bound → checkpoint s ≤ bound → checkpoint a.1 ≤ bound

  compact_best_effort-Later :
      (s : S)
      → Good s
      → Later s (compact_best_effort be j now cfg s)
        × (checkpoint (compact_best_effort be j now cfg s) ≡ checkpoint s)
  unfolding compact_best_effort
  compact_best_effort-Later s g = elim (Option-cases be.compact) [
    | inl e ↦ rw e (Later-refl s g, refl)
    | inr (run, e) ↦ rw e (
      record {
        good = laws.compact_good run s e g;
        keeps = laws.compact_keeps run s e g;
        rises = omega (arith, laws.compact_checkpoint run s e g);
        spooled = λ n past h.
            let before : checkpoint s < n = omega (arith, laws.compact_checkpoint run s e g) in
            laws.compact_spooled run s e g n before h;
      },
      laws.compact_checkpoint run s e g,
    )
  ]

  advance-Raised : (n : ℕ) (s : S) → Good s → Raised n s (advance be j now cfg n s)
  unfolding advance
  advance-Raised zero s g = record { later = Later-refl s g; bound = λ b n c. c }
  advance-Raised (suc n) s g =
      let a = be.advance_checkpoint (suc n) s in
      let kept : Later s a.1 = record {
        good = laws.advance_good (suc n) s g;
        keeps = laws.advance_keeps (suc n) s g;
        rises = laws.advance_rises (suc n) s g;
        spooled = λ k past h. laws.advance_spooled (suc n) s g k h;
      } in
      elim (Outcome-cases a.0) [
        | inl (u, e) ↦
            let (after, same) = compact_best_effort-Later a.1 kept.good in
            rw (e, advance)
              (record {
                later = Later-trans kept after;
                bound =
                    λ b h c. subst (λ x. x ≤ b) (sym same) (laws.advance_bound (suc n) b s g h c);
              })
        | inr (x, e) ↦
            rw (e, advance)
              (record { later = kept; bound = λ b h c. laws.advance_bound (suc n) b s g h c })
      ]

  stays_stored :
      {s t : S} (r : SpoolRecord)
      → Later s t
      → Stored r s ⊎ (r.checkpoint_only ≡ true)
      → Stored r t ⊎ (r.checkpoint_only ≡ true)
  stays_stored r l (inl h) = inl (l.keeps r h)
  stays_stored r l (inr m) = inr m

  -- What committing a batch comes to: it is stored but for its markers, and the checkpoint has not
  -- passed the batch, or it is an error that left the checkpoint alone.
  pub record Committed (batch : List SpoolRecord) (s : S) (c : Outcome String (Unit {0}) × S)
      : Type 0 where
    pub later : Later s c.1
    pub bound : (b : ℕ) → All (λ r. r.seq ≤ b) batch → checkpoint s ≤ b → checkpoint c.1 ≤ b
    pub outcome :
        All (λ r. Stored r c.1 ⊎ (r.checkpoint_only ≡ true)) batch
        ⊎ (((e : String) × (c.0 ≡ err e)) × (checkpoint c.1 ≡ checkpoint s))

  pub commit_batch-Committed :
      (batch : List SpoolRecord) (s : S)
      → Good s
      → Committed batch s (commit_batch be j now cfg batch s)
  unfolding commit_batch
  commit_batch-Committed batch s g =
      let (write, top) = split_batch batch 0 in
      let w = write_batch be j now cfg write top s in
      let written = write_batch-Written write top s g in
      elim (Outcome-cases w.0) [
        | inl (n, e) ↦
            let raised = advance-Raised n w.1 written.later.good in
            rw (e, commit_batch)
              (record {
                later = Later-trans written.later raised.later;
                bound = λ b h c.
                    let (low, under) = split_batch-bound b batch 0 (omega arith) h in
                    raised.bound b (written.number n b e under low)
                      (subst (λ x. x ≤ b) (sym written.same) c);
                outcome = inl (
                    All-map _ (λ r. stays_stored r raised.later) batch
                      (split_batch-write (λ r. Stored r w.1) batch 0 (written.stores n e)));
              })
        | inr (x, e) ↦
            rw (e, commit_batch)
              (record {
                later = written.later;
                bound = λ b h c. subst (λ k. k ≤ b) (sym written.same) c;
                outcome = inr ((x, refl), written.same);
              })
      ]
