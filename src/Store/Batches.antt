-- ===== src/Store/Batches.antt =====
-- What a call of `InsertSpoolBatch` leaves in the tables: all of a batch or nothing of it.
use plexplore.Prelude.{
  ℕ, ◌≤◌, ◌≡◌, refl, sym, ap, subst, ◌∙◌, inl, inr, String, Bool, true, List, [], ◌∷◌, ◌++◌, map,
  Outcome, ok, err, Outcome-cases, Bool-cases, All, All-map, append-nil, append_assoc, arith,
}
use plexplore.GoTime.{Time}
use plexplore.Ingest.Models.{SpoolRecord}
use plexplore.Store.{
  Db, RawPoint, StoreError, Progress, ensure_default_user, has_hash, insert_one, insert_all, finish,
  insert_spool_batch, initial,
}
use plexplore.Store.Rounds.{
  SameRows, SameRows-trans, Distinct, Consistent, Round, ensure_default_user-SameRows,
  insert_one-Round, same_ok, not_both, has_hash-append,
}

-- What the loop over a batch does to the tables.
record Rounds (p p' : Progress) (rs : List SpoolRecord) : Type 0 where
  added : List RawPoint
  rows : p'.db.raw_points ≡ p.db.raw_points ++ added
  stored : All (λ r. has_hash r.point.ingest_hash p'.db.raw_points ≡ true) rs
  above : p.max_seq ≤ p'.max_seq
  covers : All (λ r. r.seq ≤ p'.max_seq) rs
  top : (bound : ℕ) → p.max_seq ≤ bound → All (λ r. r.seq ≤ bound) rs → p'.max_seq ≤ bound
  consistent : Consistent p.db → Consistent p'.db
  known : All (λ r. has_hash r.point.ingest_hash p.db.raw_points ≡ true) rs → SameRows p.db p'.db

still_there :
    (h : String) (rows rows' added : List RawPoint)
    → rows' ≡ rows ++ added
    → has_hash h rows ≡ true
    → has_hash h rows' ≡ true
still_there h rows rows' added e k =
    ap (has_hash h) e ∙ ground (arith, has_hash-append h rows added)

first_and_rest :
    (p p' p'' : Progress) (r : SpoolRecord) (rs : List SpoolRecord)
    → Round p p' r
    → Rounds p' p'' rs
    → Rounds p p'' (r ∷ rs)
first_and_rest p p' p'' r rs a b =
    let g = a.grown in
    record {
      added = g.added ++ b.added;
      rows =
          b.rows
          ∙ ap (λ rows. rows ++ b.added) g.rows
          ∙ append_assoc p.db.raw_points g.added b.added;
      stored = (still_there r.point.ingest_hash _ _ b.added b.rows g.stored, b.stored);
      above = omega (arith, a.above, b.above);
      covers = (omega (arith, a.covers, b.above), b.covers);
      top = λ bound h (k, ks). b.top bound (a.top bound h k) ks;
      consistent = λ c. b.consistent (g.consistent c);
      known = λ (k, ks).
          SameRows-trans p.db p'.db p''.db (g.known k)
            (b.known (All-map _ (λ q. still_there q.point.ingest_hash _ _ g.added g.rows) rs ks));
    }

insert_all-Rounds :
    (now : Time) (rs : List SpoolRecord) (p p' : Progress)
    → insert_all now rs p ≡ ok p'
    → Rounds p p' rs
unfolding insert_all
insert_all-Rounds now [] p p' e =
    subst (λ x. Rounds p x []) (same_ok p e)
      (record {
        added = [];
        rows = sym (append-nil p.db.raw_points);
        stored = tt;
        above = omega arith;
        covers = tt;
        top = λ b h k. h;
        consistent = λ c. c;
        known = λ _. record { raw = refl; ids = refl; next = refl };
      })
insert_all-Rounds now (r ∷ rs) p p' e = elim (Outcome-cases (insert_one now r p)) [
  | inl (p1, f) ↦
      first_and_rest p p1 p' r rs (insert_one-Round now r p p1 f)
        (insert_all-Rounds now rs p1 p' (rw (f, insert_all) at e))
  | inr (x, f) ↦ absurd (not_both (insert_all now (r ∷ rs) p) {y = x} (rw (f, insert_all) refl) e)
]

-- What a call comes to. A success has every record's hash in the table and covers its sequence
-- number; the rows that were there stay, in front. An error leaves every table as it was.
abbrev pub Committed : List SpoolRecord → Db → Outcome StoreError ℕ × Db → Type 0
Committed rs db (ok n, db') =
    All (λ r. has_hash r.point.ingest_hash db'.raw_points ≡ true) rs
    × All (λ r. r.seq ≤ n) rs
    × ((added : List RawPoint) × (db'.raw_points ≡ db.raw_points ++ added))
Committed rs db (err e, db') = db' ≡ db

from_initial :
    (db : Db) (p : Progress) (rs : List SpoolRecord)
    → Rounds (initial db) p rs
    → (added : List RawPoint) × (p.db.raw_points ≡ db.raw_points ++ added)
from_initial db p rs b =
    (b.added, b.rows ∙ ap (λ rows. rows ++ b.added) (ensure_default_user-SameRows db).raw)

-- A call of `InsertSpoolBatch` is all or nothing. When it succeeds, the hash of every record of the
-- batch is in the table, the number it returns is at least every record's sequence number, and the
-- rows that were there are kept in front of the new ones. When it fails, no table has changed.
pub insert_spool_batch-Committed :
    (now : Time) (failing : Bool) (rs : List SpoolRecord) (db : Db)
    → Committed rs db (insert_spool_batch now failing rs db)
unfolding insert_spool_batch finish
insert_spool_batch-Committed now failing [] db = (tt, tt, ([], sym (append-nil db.raw_points)))
insert_spool_batch-Committed now failing (r ∷ rs) db =
    elim (Outcome-cases (insert_all now (r ∷ rs) (initial db))) [
      | inr (x, f) ↦ rw (f, finish) refl
      | inl (p, f) ↦ elim (Bool-cases failing) [
        | inl down ↦ rw (f, down) refl
        | inr up ↦
            let b = insert_all-Rounds now (r ∷ rs) (initial db) p f in
            rw (f, up) (b.stored, b.covers, from_initial db p (r ∷ rs) b)
      ]
    ]

-- The number that a call returns is no higher than a bound of the batch's sequence numbers.
pub insert_spool_batch-number :
    (now : Time) (failing : Bool) (rs : List SpoolRecord) (db : Db) (n bound : ℕ)
    → (insert_spool_batch now failing rs db).0 ≡ ok n
    → All (λ r. r.seq ≤ bound) rs
    → n ≤ bound
unfolding insert_spool_batch finish
insert_spool_batch-number now failing [] db n bound e h = ground arith
insert_spool_batch-number now failing (r ∷ rs) db n bound e h =
    elim (Outcome-cases (insert_all now (r ∷ rs) (initial db))) [
      | inr (x, f) ↦ absurd (ground (arith, f))
      | inl (p, f) ↦ elim (Bool-cases failing) [
        | inl down ↦ absurd (ground (arith, f))
        | inr up ↦
            let low = (insert_all-Rounds now (r ∷ rs) (initial db) p f).top bound (omega arith) h in
            ground (arith, f, low)
      ]
    ]

-- The tables stay consistent across a call of `InsertSpoolBatch`, whatever it returns: no two raw
-- points share a hash or a sequence number, and each has its row of `points`.
pub insert_spool_batch-Consistent :
    (now : Time) (failing : Bool) (rs : List SpoolRecord) (db : Db)
    → Consistent db
    → Consistent (insert_spool_batch now failing rs db).1
unfolding insert_spool_batch finish
insert_spool_batch-Consistent now failing [] db c = c
insert_spool_batch-Consistent now failing (r ∷ rs) db c =
    elim (Outcome-cases (insert_all now (r ∷ rs) (initial db))) [
      | inr (x, f) ↦ rw (f, finish) c
      | inl (p, f) ↦ elim (Bool-cases failing) [
        | inl down ↦ rw (f, down) c
        | inr up ↦
            let same = ensure_default_user-SameRows db in
            let start : Consistent (ensure_default_user db) = record {
              distinct = subst Distinct (sym same.raw) c.distinct;
              linked = same.ids ∙ c.linked ∙ ap (map (λ q. q.id)) (sym same.raw);
            } in
            let after = (insert_all-Rounds now (r ∷ rs) (initial db) p f).consistent start in
            rw (f, up) (record { distinct = after.distinct; linked = after.linked })
      ]
    ]
