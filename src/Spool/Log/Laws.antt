-- ===== src/Spool/Log/Laws.antt =====
-- Append, replay and the checkpoint on a log, when no call of `os` fails.
use plexplore.Prelude.{
  ℕ, suc, ◌+◌, ◌<◌, ◌≡◌, refl, sym, ap, subst, ◌∙◌, Option, some, List, [], ◌∷◌, ◌++◌, ok, arith,
  length, All, append_assoc, append-nil, Outcome,
}
use plexplore.Prelude.Dict
use plexplore.Prelude.Dict.{Dict}
use plexplore.GoTime.{Time}
use plexplore.Float64.{FloatOps}
use plexplore.Ingest.Models.{CanonicalPoint, SpoolRecord, Bytes}
use plexplore.Ingest.Json.{Json}
use plexplore.Ingest.Hash.{Formats}
use plexplore.Text.{u64_mod}
use plexplore.Spool.Segment.{segment_file_name}
use plexplore.Spool.Codec.{SpoolError, serialize_record}
use plexplore.Spool.World.{FileSpoolManager, FsyncMode, World, Node, file, bytes_eq}
use plexplore.Spool.Append.{append_one, append_loop, append_canonical_points, record_of}
use plexplore.Spool.Log.{Segment, contents, calm, IsLog, ActiveIsLast}
use plexplore.Spool.Log.Disk.{append_last}
use plexplore.Spool.Log.Steps.{ensure_calm, write_calm, account_calm, contents-last, Ascending-grow}

module _ (fl : FloatOps) (fmt : Formats) (j : Json) (now : Time) (cp : Option Bytes) where
  -- The point's record has a JSON text, whatever its sequence number.
  abbrev pub CanSpool : CanonicalPoint → Type 0
  CanSpool p =
      (seq : ℕ) → (line : Bytes) × (serialize_record j (record_of fl fmt j now seq p) ≡ ok line)

  append_one-calm :
      (segs : List Segment) (m : FileSpoolManager) (d : Dict Bytes Node) (p : CanonicalPoint)
      → IsLog j segs m d
      → m.next_seq + 1 < u64_mod
      → CanSpool p
      → (m' : FileSpoolManager) × (d' : Dict Bytes Node) × (segs' : List Segment) × (append_one fl
            fmt j now p
            (calm m d cp)
          ≡ (ok (record_of fl fmt j now m.next_seq p), calm m' d' cp))
        × IsLog j segs' m' d'
        × (contents segs' ≡ contents segs ++ record_of fl fmt j now m.next_seq p ∷ [])
        × (m'.next_seq ≡ m.next_seq + 1)
  unfolding append_one
  append_one-calm segs m d p log k can =
      let r = record_of fl fmt j now m.next_seq p in
      let (line, ser) = can m.next_seq in
      let (m1, d1, ensuring, op) = ensure_calm j now cp segs m d (length line) log (omega arith) in
      let (text, found, extended) =
        append_last j 0 (suc m.next_seq) op.start op.closed op.rs d1 r line op.on_disk op.ascending
          (omega arith) ser in
      let d2 = Dict.insert (segment_file_name op.start) (file (text ++ line)) d1 in
      let writing = write_calm d1 cp (segment_file_name op.start) line text m1 op.active found in
      let (m3, accounting, next3, active3) = account_calm d2 cp now (length line) m1 in
      let next : m3.next_seq ≡ m.next_seq + 1 = omega (arith, next3, op.next) in
      (
        m3,
        d2,
        op.closed ++ (op.start, op.rs ++ r ∷ []) ∷ [],
        rw (ser, append_one, ensuring, writing, accounting) refl,
        record {
          on_disk = extended;
          ascending =
              Ascending-grow 0 (suc m.next_seq) m3.next_seq op.closed op.start op.rs
                (op.rs ++ r ∷ []) (omega arith) op.ascending;
          active_last =
              subst (λ f. ActiveIsLast f (op.closed ++ (op.start, op.rs ++ r ∷ []) ∷ []))
                (sym (active3 ∙ op.active)) (op.closed, op.start, op.rs ++ r ∷ [], refl, refl);
        },
        contents-last op.closed op.start op.rs (r ∷ []) ∙ ap (λ xs. xs ++ r ∷ []) op.same,
        next,
      )

  -- The records that a list of points becomes.
  abbrev pub records_of : ℕ → List CanonicalPoint → List SpoolRecord
  records_of seq [] = []
  records_of seq (p ∷ ps) = record_of fl fmt j now seq p ∷ records_of (seq + 1) ps

  -- What an append comes to: the records, with the sequence numbers from the next one on, are
  -- returned and stand at the end of the log.
  pub record Appended (ps : List CanonicalPoint) (segs : List Segment) (m : FileSpoolManager)
      (r : Outcome SpoolError (List SpoolRecord) × World) : Type 0 where
    pub manager : FileSpoolManager
    pub disk : Dict Bytes Node
    pub log : List Segment
    pub result : r ≡ (ok (records_of m.next_seq ps), calm manager disk cp)
    pub is_log : IsLog j log manager disk
    pub at_end : contents log ≡ contents segs ++ records_of m.next_seq ps
    pub next : manager.next_seq ≡ m.next_seq + length ps

  append_loop-calm :
      (ps : List CanonicalPoint) (segs : List Segment) (m : FileSpoolManager) (d : Dict Bytes Node)
      → IsLog j segs m d
      → m.next_seq + length ps < u64_mod
      → All CanSpool ps
      → Appended ps segs m (append_loop fl fmt j now ps (calm m d cp))
  unfolding append_loop
  append_loop-calm [] segs m d log k can = record {
    manager = m;
    disk = d;
    log = segs;
    result = refl;
    is_log = log;
    at_end = sym (append-nil (contents segs));
    next = omega arith;
  }
  append_loop-calm (p ∷ ps) segs m d log k can =
      let (m1, d1, segs1, one, log1, end1, next1) =
        append_one-calm segs m d p log (omega arith) can.0 in
      let rest = append_loop-calm ps segs1 m1 d1 log1 (omega arith) can.1 in
      let r = record_of fl fmt j now m.next_seq p in
      record {
        manager = rest.manager;
        disk = rest.disk;
        log = rest.log;
        result =
            rw (one, append_loop, rest.result)
              (ap (λ n. (ok (r ∷ records_of n ps), calm rest.manager rest.disk cp)) next1);
        is_log = rest.is_log;
        at_end =
            rest.at_end
            ∙ ap (λ xs. xs ++ records_of m1.next_seq ps) end1
            ∙ append_assoc (contents segs) (r ∷ []) (records_of m1.next_seq ps)
            ∙ ap (λ n. contents segs ++ r ∷ records_of n ps) next1;
        next = omega (arith, rest.next);
      }

  -- When no call of `os` fails, the fsync mode is known, the points have JSON texts and the sequence
  -- numbers do not reach 2^64, `AppendCanonicalPoints` on a log returns one record for each point,
  -- numbered from the next sequence number on, and puts them at the end of the log, across any
  -- number of segments; directory and manager hold a log again.
  pub append_canonical_points-calm :
      (ps : List CanonicalPoint) (segs : List Segment) (m : FileSpoolManager) (d : Dict Bytes Node)
      (mode : FsyncMode)
      → IsLog j segs m d
      → m.fsync_mode ≡ some mode
      → m.next_seq + length ps < u64_mod
      → All CanSpool ps
      → Appended ps segs m (append_canonical_points fl fmt j now ps (calm m d cp))
  unfolding append_canonical_points
  append_canonical_points-calm [] segs m d mode log known k can =
      unfold append_loop in append_loop-calm [] segs m d log k can
  append_canonical_points-calm (p ∷ ps) segs m d mode log known k can =
      simp known (append_loop-calm (p ∷ ps) segs m d log k can)
