-- ===== src/Store/Refusals.antt =====
-- The batches that `InsertSpoolBatch` can never write: `raw_points.seq` is unique, and the conflict
-- clause of the insert names `ingest_hash` only.
use plexplore.Prelude.{
  ◌≡◌, refl, ap, ◌∙◌, inl, inr, Bool, true, false, List, [], ◌∷◌, ◌++◌, Outcome, ok, err,
  Outcome-cases, str_eq, All, arith,
}
use plexplore.GoTime.{Time}
use plexplore.Ingest.Models.{SpoolRecord}
use plexplore.Store.{
  Db, StoreError, Progress, has_hash, has_seq, insert_one, insert_all, finish, insert_spool_batch,
  initial,
}
use plexplore.Store.Rounds.{
  ensure_default_user-SameRows, insert_one-Round, not_both, has_seq-append,
}

clash :
    (now : Time) (front back : List SpoolRecord) (r : SpoolRecord) (p p' : Progress)
    → has_hash r.point.ingest_hash p.db.raw_points ≡ false
    → has_seq r.seq p.db.raw_points ≡ true
    → All (λ q. str_eq q.point.ingest_hash r.point.ingest_hash ≡ false) front
    → insert_all now (front ++ r ∷ back) p ≡ ok p'
    → ⊥
unfolding insert_all
clash now [] back r p p' fresh taken others e = elim (Outcome-cases (insert_one now r p)) [
  | inl (p1, f) ↦ (insert_one-Round now r p p1 f).grown.fits fresh taken
  | inr (x, f) ↦ not_both (insert_all now (r ∷ back) p) {y = x} (rw (f, insert_all) refl) e
]
clash now (q ∷ front) back r p p' fresh taken (other, others) e =
    elim (Outcome-cases (insert_one now q p)) [
      | inl (p1, f) ↦
          let g = (insert_one-Round now q p p1 f).grown in
          clash now front back r p1 p' (g.others r.point.ingest_hash other fresh)
            (ap (has_seq r.seq) g.rows
              ∙ ground (arith, has_seq-append r.seq p.db.raw_points g.added))
            others (rw (f, insert_all) at e)
      | inr (x, f) ↦
          not_both (insert_all now (q ∷ front ++ r ∷ back) p) {y = x} (rw (f, insert_all) refl) e
    ]

finish_error :
    (failing : Bool) (db : Db) (result : Outcome StoreError Progress)
    → ((p : Progress) → result ≡ ok p → ⊥)
    → (e : StoreError) × (finish failing db result ≡ (err e, db))
unfolding finish
finish_error failing db (ok p) h = absurd (h p refl)
finish_error failing db (err e) h = (e, refl)

refusal :
    (now : Time) (front back : List SpoolRecord) (r : SpoolRecord) (db : Db)
    → has_hash r.point.ingest_hash db.raw_points ≡ false
    → has_seq r.seq db.raw_points ≡ true
    → All (λ q. str_eq q.point.ingest_hash r.point.ingest_hash ≡ false) front
    → (p : Progress) → insert_all now (front ++ r ∷ back) (initial db) ≡ ok p
    → ⊥
refusal now front back r db fresh taken others p e =
    let same = (ensure_default_user-SameRows db).raw in
    clash now front back r (initial db) p (ap (has_hash r.point.ingest_hash) same ∙ fresh)
      (ap (has_seq r.seq) same ∙ taken) others e

-- A batch is refused as a whole, and no table changes, when it holds a record whose sequence
-- number a stored row has already while its hash is new to the table and to the records before it.
pub insert_spool_batch-refused :
    (now : Time) (failing : Bool) (front back : List SpoolRecord) (r : SpoolRecord) (db : Db)
    → has_hash r.point.ingest_hash db.raw_points ≡ false
    → has_seq r.seq db.raw_points ≡ true
    → All (λ q. str_eq q.point.ingest_hash r.point.ingest_hash ≡ false) front
    → (e : StoreError) × (insert_spool_batch now failing (front ++ r ∷ back) db ≡ (err e, db))
unfolding insert_spool_batch
insert_spool_batch-refused now failing [] back r db fresh taken others =
    finish_error failing db (insert_all now (r ∷ back) (initial db))
      (refusal now [] back r db fresh taken others)
insert_spool_batch-refused now failing (q ∷ front) back r db fresh taken others =
    finish_error failing db (insert_all now (q ∷ front ++ r ∷ back) (initial db))
      (refusal now (q ∷ front) back r db fresh taken others)
