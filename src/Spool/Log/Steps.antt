-- ===== src/Spool/Log/Steps.antt =====
-- The steps of an append when no call of `os` fails.
use plexplore.Prelude.{
  ℕ, suc, ◌+◌, ◌%◌, ◌≤◌, ◌<◌, ◌≡◌, refl, sym, ap, subst, ◌∙◌, true, false, Bool-cases, Option-cases,
  inl, inr, Option, none, some, List, [], ◌∷◌, ◌++◌, append_assoc, append-nil, ok, arith, ltb,
}
use plexplore.Prelude.Dict
use plexplore.Prelude.Dict.{Dict}
use plexplore.GoTime.{Time}
use plexplore.Ingest.Models.{SpoolRecord, Bytes}
use plexplore.Ingest.Json.{Json}
use plexplore.Text.{u64_mod}
use plexplore.Spool.Segment.{segment_file_name}
use plexplore.Spool.World.{FileSpoolManager, Node, file, bytes_eq, write_append}
use plexplore.Spool.Append.{
  close_active, open_new_segment, need_new_segment, ensure_segment, account_for, should_fsync,
  write_active,
}
use plexplore.Spool.Log.{Segment, OnDisk, Ascending, contents, calm, IsLog, ActiveIsLast}
use plexplore.Spool.Log.Disk.{lookup_fresh, insert_fresh}

module _ (d : Dict Bytes Node) (cp : Option Bytes) where
  -- Closing leaves the directory and the sequence numbers.
  pub close_calm :
      (m : FileSpoolManager)
      → (m' : FileSpoolManager) × (close_active true (calm m d cp) ≡ (ok tt, calm m' d cp))
        × (m'.next_seq ≡ m.next_seq)
  unfolding close_active
  close_calm m = elim (Option-cases m.active_file) [
    | inl e ↦ (m, rw (e, close_active) refl, refl)
    | inr (name, e) ↦ elim (Bool-cases (ltb 0 m.bytes_since_sync)) [
      | inl due ↦ (
        record m {
          active_file = none;
          active_segment_start = 0;
          active_segment_size = 0;
          bytes_since_sync = 0;
        },
        rw (e, close_active, due) refl,
        refl,
      )
      | inr clean ↦ (
        record m {
          active_file = none;
          active_segment_start = 0;
          active_segment_size = 0;
          bytes_since_sync = 0;
        },
        rw (e, close_active, clean) refl,
        refl,
      )
    ]
  ]

  pub open_calm :
      (now : Time) (start : ℕ) (m : FileSpoolManager)
      → Dict.lookup (segment_file_name start) d ≡ none
      → (m' : FileSpoolManager) × (open_new_segment now start (calm m d cp)
          ≡ (ok tt, calm m' (Dict.insert (segment_file_name start) (file []) d) cp))
        × (m'.next_seq ≡ m.next_seq)
        × (m'.active_file ≡ some (segment_file_name start))
  unfolding open_new_segment
  open_calm now start m fresh = (
    record m {
      active_file = some (segment_file_name start);
      active_segment_start = start;
      active_segment_size = 0;
      bytes_since_sync = 0;
      last_sync_at = now;
    },
    rw (fresh, open_new_segment) refl,
    refl,
    refl,
  )

  pub write_calm :
      (name line text : Bytes) (m : FileSpoolManager)
      → m.active_file ≡ some name
      → Dict.lookup name d ≡ some (file text)
      → write_active line (calm m d cp)
        ≡ (ok tt, calm m (Dict.insert name (file (text ++ line)) d) cp)
  unfolding write_active write_append
  write_calm name line text m active found =
      rw (active, write_active) (rw (found, write_append) refl)

  pub account_calm :
      (now : Time) (written : ℕ) (m : FileSpoolManager)
      → (m' : FileSpoolManager) × (account_for now written (calm m d cp) ≡ (ok tt, calm m' d cp))
        × (m'.next_seq ≡ (m.next_seq + 1) % u64_mod)
        × (m'.active_file ≡ m.active_file)
  unfolding account_for
  account_calm now written m =
      let grown = record m {
        active_segment_size = m.active_segment_size + written;
        bytes_since_sync = m.bytes_since_sync + written;
      } in
      let next = (m.next_seq + 1) % u64_mod in
      elim (Bool-cases (should_fsync now grown)) [
        | inl due ↦ (
          record grown { bytes_since_sync = 0; last_sync_at = now; next_seq = next },
          rw (due, account_for) refl,
          refl,
          refl,
        )
        | inr not_due ↦
            (record grown { next_seq = next }, rw (not_due, account_for) refl, refl, refl)
      ]

pub contents-append : (xs ys : List Segment) → contents (xs ++ ys) ≡ contents xs ++ contents ys
contents-append [] ys = refl
contents-append ((s, rs) ∷ xs) ys =
    ap (◌++◌ rs) (contents-append xs ys) ∙ sym (append_assoc rs (contents xs) (contents ys))

pub Ascending-snoc :
    (low n : ℕ) (segs : List Segment) (rs : List SpoolRecord)
    → Ascending low n segs
    → Ascending low (suc n) (segs ++ (n, rs) ∷ [])
Ascending-snoc low n [] rs a = (a, omega arith, omega arith)
Ascending-snoc low n ((s, qs) ∷ segs) rs a =
    (a.0, omega arith, Ascending-snoc (suc s) n segs rs a.2)

pub Ascending-grow :
    (low n n' : ℕ) (closed : List Segment) (s : ℕ) (rs qs : List SpoolRecord)
    → n ≤ n'
    → Ascending low n (closed ++ (s, rs) ∷ [])
    → Ascending low n' (closed ++ (s, qs) ∷ [])
Ascending-grow low n n' [] s rs qs h a = (a.0, omega arith, omega arith)
Ascending-grow low n n' ((b, bs) ∷ closed) s rs qs h a =
    (a.0, omega arith, Ascending-grow (suc b) n n' closed s rs qs h a.2)

pub contents-last :
    (closed : List Segment) (s : ℕ) (rs qs : List SpoolRecord)
    → contents (closed ++ (s, rs ++ qs) ∷ []) ≡ contents (closed ++ (s, rs) ∷ []) ++ qs
contents-last [] s rs qs = simp append-nil
contents-last ((b, bs) ∷ closed) s rs qs =
    ap (◌++◌ bs) (contents-last closed s rs qs)
    ∙ sym (append_assoc bs (contents (closed ++ (s, rs) ∷ [])) qs)

-- The log once a segment is open for the next record.
pub record IsOpen (j : Json) (before : List SpoolRecord) (n : ℕ) (m : FileSpoolManager)
    (d : Dict Bytes Node) : Type 0 where
  pub closed : List Segment
  pub start : ℕ
  pub rs : List SpoolRecord
  pub next : m.next_seq ≡ n
  pub active : m.active_file ≡ some (segment_file_name start)
  pub on_disk : OnDisk j (closed ++ (start, rs) ∷ []) d
  pub ascending : Ascending 0 (suc n) (closed ++ (start, rs) ∷ [])
  pub same : contents (closed ++ (start, rs) ∷ []) ≡ before

no_need_open :
    (m : FileSpoolManager) (incoming : ℕ)
    → m.active_file ≡ none
    → need_new_segment m incoming ≡ false
    → ⊥
unfolding need_new_segment
no_need_open m incoming e h = ground arith

module _ (j : Json) (now : Time) (cp : Option Bytes) where
  pub stay-IsOpen :
      (segs : List Segment) (m : FileSpoolManager) (d : Dict Bytes Node) (name : Bytes)
      → IsLog j segs m d
      → m.active_file ≡ some name
      → IsOpen j (contents segs) m.next_seq m d
  stay-IsOpen segs m d name log e =
      let (closed, start, rs, shape, named) = subst (λ f. ActiveIsLast f segs) e log.active_last in
      record {
        closed = closed;
        start = start;
        rs = rs;
        next = refl;
        active = e ∙ ap some named;
        on_disk = subst (λ xs. OnDisk j xs d) shape log.on_disk;
        ascending =
            Ascending-grow 0 m.next_seq (suc m.next_seq) closed start rs rs (omega arith)
              (subst (Ascending 0 m.next_seq) shape log.ascending);
        same = sym (ap contents shape);
      }

  pub ensure_calm :
      (segs : List Segment) (m : FileSpoolManager) (d : Dict Bytes Node) (incoming : ℕ)
      → IsLog j segs m d
      → m.next_seq < u64_mod
      → (m' : FileSpoolManager) × (d' : Dict Bytes Node) × (ensure_segment now m.next_seq incoming
            (calm m d cp)
          ≡ (ok tt, calm m' d' cp))
        × IsOpen j (contents segs) m.next_seq m' d'
  unfolding ensure_segment
  ensure_calm segs m d incoming log k = elim (Bool-cases (need_new_segment m incoming)) [
    | inl need ↦
        let (m1, closing, next1) = close_calm d cp m in
        let fresh = lookup_fresh j 0 m.next_seq segs d log.on_disk log.ascending k in
        let (m2, opening, next2, active) = open_calm d cp now m.next_seq m1 fresh in
        (
          m2,
          Dict.insert (segment_file_name m.next_seq) (file []) d,
          rw (need, ensure_segment, closing, opening) refl,
          record {
            closed = segs;
            start = m.next_seq;
            rs = [];
            next = next2 ∙ next1;
            active = active;
            on_disk = insert_fresh j 0 m.next_seq segs d log.on_disk log.ascending k;
            ascending = Ascending-snoc 0 m.next_seq segs [] log.ascending;
            same = contents-append segs ((m.next_seq, []) ∷ []) ∙ append-nil (contents segs);
          },
        )
    | inr stay ↦ elim (Option-cases m.active_file) [
      | inl e ↦ absurd (no_need_open m incoming e stay)
      | inr (name, e) ↦ (m, d, rw (stay, ensure_segment) refl, stay-IsOpen segs m d name log e)
    ]
  ]
