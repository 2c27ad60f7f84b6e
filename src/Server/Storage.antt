-- ===== src/Server/Storage.antt =====
-- The store and the spool of the process keep the laws that the flusher relies on.
use plexplore.Prelude.{
  ℕ, ◌≤◌, ◌<◌, ◌≡◌, refl, sym, ap, subst, ◌∙◌, inl, inr, true, none, some, List, [], Outcome, ok,
  err, String, All, arith, max,
}
use plexplore.GoTime.{Time}
use plexplore.Prelude.Dict.{Dict}
use plexplore.Ingest.Models.{SpoolRecord, Bytes}
use plexplore.Ingest.Json.{Json, Lawful, Checkpoint}
use plexplore.Spool.Codec.{SpoolError}
use plexplore.Spool.World.{World, Node}
use plexplore.Spool.Replay.{contents_of, advance_checkpoint}
use plexplore.Spool.Log.{calm}
use plexplore.Spool.Checkpoints.{advance_checkpoint-Advanced}
use plexplore.Spool.Keeping.{InSpool, compact_committed_segments-InSpool}
use plexplore.Spool.Quiet.{compact_committed_segments-Same}
use plexplore.Store.{Db, StoreError, has_hash, insert_spool_batch}
use plexplore.Store.Batches.{Committed, insert_spool_batch-Committed, insert_spool_batch-number}
use plexplore.Store.Rounds.{has_hash-append}
use plexplore.Flusher.Durable.{View, Durable}
use plexplore.Server.{
  Persisted, flusher_backend, insert_batch, advance_to, compact_segments, with_text, without_value,
  next_fault,
}

-- The hash of the record is in the table of raw points.
abbrev pub InTable : SpoolRecord → Db → Type 0
InTable r db = has_hash r.point.ingest_hash db.raw_points ≡ true

Committed-keeps :
    (rs : List SpoolRecord) (db : Db) (c : Outcome StoreError ℕ × Db)
    → Committed rs db c
    → (r : SpoolRecord) → InTable r db
    → InTable r c.1
Committed-keeps rs db (ok n, db') (_, _, (added, rows)) r h =
    ap (has_hash r.point.ingest_hash) rows
    ∙ ground (arith, has_hash-append r.point.ingest_hash db.raw_points added)
Committed-keeps rs db (err e, db') same r h = rw same h

Committed-stores :
    (rs : List SpoolRecord) (db : Db) (c : Outcome StoreError ℕ × Db)
    → Committed rs db c
    → (n : ℕ) → c.0 ≡ ok n
    → All (λ r. InTable r c.1) rs
Committed-stores rs db (ok n, db') h m e = h.0
Committed-stores rs db (err x, db') h m e = absurd (cc)

-- The checkpoint in the file, 0 where the file does not read as one.
unfoldable pub number_of : Outcome SpoolError Checkpoint → ℕ
number_of (ok c) = c.last_committed_seq
number_of (err e) = 0

-- How an advance ends where no call of `os` fails: the file reads as a checkpoint, at the larger of
-- the two numbers or at the old one, and the directory `d` is as it was.
record Moved (j : Json) (c : Checkpoint) (n : ℕ) (d : Dict Bytes Node) (w : World) : Type 0 where
  calm_still : w.faults ≡ []
  next : Checkpoint
  reads_as : contents_of j w.checkpoint_file ≡ ok next
  highest : next.last_committed_seq ≤ max n c.last_committed_seq
  risen : c.last_committed_seq ≤ next.last_committed_seq
  disk : w.disk ≡ d

advance_checkpoint-Moved :
    (j : Json) (now : Time) (n : ℕ) (w : World) (c : Checkpoint)
    → Lawful j
    → 0 < now
    → w.faults ≡ []
    → contents_of j w.checkpoint_file ≡ ok c
    → Moved j c n w.disk (advance_checkpoint j now n w).1
advance_checkpoint-Moved j now n w c law dated none_fails current =
    let cp = w.checkpoint_file in
    let settled = calm w.manager w.disk cp in
    let as_calm : settled ≡ w = rw none_fails refl in
    subst (λ v. Moved j c n w.disk (advance_checkpoint j now n v).1) as_calm
      elim (advance_checkpoint-Advanced j now n w.manager w.disk cp c current law dated) [
        | inl a ↦
            subst (λ r. Moved j c n w.disk r.1) (sym a.result)
              (record {
                calm_still = refl;
                next = a.next;
                reads_as = a.reads_as;
                highest = omega (arith, a.highest);
                risen = omega (arith, a.highest);
                disk = refl;
              })
        | inr u ↦
            subst (λ r. Moved j c n w.disk r.1) (sym u.result)
              (record {
                calm_still = refl;
                next = c;
                reads_as = current;
                highest = omega arith;
                risen = omega arith;
                disk = refl;
              })
      ]

with_text-ok :
    {E : Type 0} (text : E → String) (r : Outcome E ℕ) (n : ℕ) → with_text text r ≡ ok n → r ≡ ok n
unfolding with_text
with_text-ok text (ok m) n e = ground arith
with_text-ok text (err x) n e = absurd (cc)

module _ (j : Json) (law : Lawful j) (now : Time) (dated : 0 < now)
    (store_text : StoreError → String) (spool_text : SpoolError → String) where
  -- No call of `os` is to fail, and the checkpoint file reads as a checkpoint.
  pub record Readable (s : Persisted) : Type 0 where
    pub calm_disk : s.spool.faults ≡ []
    pub current : Checkpoint
    pub reads_as : contents_of j s.spool.checkpoint_file ≡ ok current

  abbrev pub committed : Persisted → ℕ
  committed s = number_of (contents_of j s.spool.checkpoint_file)

  -- A record is stored when its hash is in the table, and spooled when a segment has its number.
  abbrev pub flusher_view : View Persisted
  flusher_view = record {
    Good = Readable;
    Stored = λ r s. InTable r s.db;
    checkpoint = committed;
    Spooled = λ n s. InSpool j n s.spool.disk;
  }

  the_run :
      (run : Persisted → Outcome String ℕ × Persisted)
      → (flusher_backend j now store_text spool_text).compact ≡ some run
      → compact_segments j now store_text spool_text ≡ run
  unfolding flusher_backend
  the_run run e =
      let default = compact_segments j now store_text spool_text in
      ap (λ o. elim o [ none ↦ default | some f ↦ f ]) e

  -- The store and the spool of the process, in a world in which no call of `os` fails and the
  -- checkpoint file reads as a checkpoint, with a lawful codec and a clock past year 1, keep the
  -- laws that the flusher relies on, also where calls of the database's driver fail: a record is
  -- stored when its hash is in the table, a batch that is inserted is stored whole, nothing that is
  -- stored is lost, the checkpoint never goes back and rises no further than to what is asked, and
  -- compaction keeps a record with each sequence number past the checkpoint that a segment has.
  pub flusher_backend-Durable : Durable (flusher_backend j now store_text spool_text) flusher_view
  unfolding flusher_backend insert_batch advance_to compact_segments with_text without_value
      next_fault number_of
  flusher_backend-Durable = record {
    insert_good =
        λ rs s g. record { calm_disk = g.calm_disk; current = g.current; reads_as = g.reads_as };
    insert_keeps = λ rs s g.
        Committed-keeps rs s.db _
          (insert_spool_batch-Committed now (next_fault s.store_faults).0 rs s.db);
    insert_stores = λ rs s n g e.
        let failing = (next_fault s.store_faults).0 in
        Committed-stores rs s.db _ (insert_spool_batch-Committed now failing rs s.db) n
          (with_text-ok store_text (insert_spool_batch now failing rs s.db).0 n e);
    insert_number = λ rs s n bound g e.
        let failing = (next_fault s.store_faults).0 in
        insert_spool_batch-number now failing rs s.db n bound
          (with_text-ok store_text (insert_spool_batch now failing rs s.db).0 n e);
    insert_checkpoint = λ rs s g. refl;
    insert_spooled = λ rs s g k h. h;
    advance_good = λ n s g.
        let moved =
          advance_checkpoint-Moved j now n s.spool g.current law dated g.calm_disk g.reads_as in
        record { calm_disk = moved.calm_still; current = moved.next; reads_as = moved.reads_as };
    advance_keeps = λ n s g r h. h;
    advance_bound = λ n bound s g low under.
        let moved =
          advance_checkpoint-Moved j now n s.spool g.current law dated g.calm_disk g.reads_as in
        let before = ap number_of g.reads_as in
        let after = ap number_of moved.reads_as in
        subst (λ k. k ≤ bound) (sym after)
          (omega (arith, moved.highest, low, subst (λ k. k ≤ bound) before under));
    advance_rises = λ n s g.
        let moved =
          advance_checkpoint-Moved j now n s.spool g.current law dated g.calm_disk g.reads_as in
        let before = ap number_of g.reads_as in
        let after = ap number_of moved.reads_as in omega (arith, before, after, moved.risen);
    advance_spooled = λ n s g k h.
        let moved =
          advance_checkpoint-Moved j now n s.spool g.current law dated g.calm_disk g.reads_as in
        subst (InSpool j k) (sym moved.disk) h;
    compact_good = λ run s e g.
        let same = compact_committed_segments-Same j s.spool g.calm_disk in
        subst (λ f. Readable (f s).1) (the_run run e)
          (record {
            calm_disk = same.faults;
            current = g.current;
            reads_as = ap (contents_of j) same.checkpoint ∙ g.reads_as;
          });
    compact_keeps = λ run s e g r h. subst (λ f. InTable r (f s).1.db) (the_run run e) h;
    compact_checkpoint = λ run s e g.
        let same = compact_committed_segments-Same j s.spool g.calm_disk in
        subst (λ f. committed (f s).1 ≡ committed s) (the_run run e)
          (ap (λ cp. number_of (contents_of j cp)) same.checkpoint);
    compact_spooled = λ run s e g k past h.
        let at : g.current.last_committed_seq < k =
          subst (λ n. n < k) (ap number_of g.reads_as) past in
        subst (λ f. InSpool j k (f s).1.spool.disk) (the_run run e)
          (compact_committed_segments-InSpool j k s.spool g.current law g.calm_disk g.reads_as at
            h);
  }
