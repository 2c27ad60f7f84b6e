-- ===== src/Spool/Keeping.antt =====
-- Compaction loses no record that a replay needs.
use plexplore.Prelude.{
  ℕ, ◌+◌, ◌≤◌, ◌<◌, ◌≡◌, refl, sym, ap, subst, ◌∙◌, inl, inr, ◌⊎◌, Option, none, some, List, [],
  ◌∷◌, Outcome, ok, Outcome-cases, Option-cases, Bool-cases, ltb, ltb→le, All-Memᴰ, Memᴰ,
  if◌then◌else◌, arith,
}
use plexplore.Prelude.Dict
use plexplore.Prelude.Dict.{Dict}
use plexplore.Ingest.Models.{SpoolRecord, Bytes}
use plexplore.Ingest.Json.{Json, Lawful, Checkpoint}
use plexplore.Spool.Segment.{segment_file_name}
use plexplore.Spool.Codec.{SpoolError}
use plexplore.Spool.World.{
  FileSpoolManager, World, Node, file, directory, bytes_eq, read_dir, remove_file, os_call,
  take_fault,
}
use plexplore.Spool.Replay.{
  contents_of, read_segment_file, list_segment_starts, decode_lines, split_lines,
}
use plexplore.Spool.Compaction.{
  is_active, max_seq_of, compact_one, compact_loop, compact_committed_segments,
}
use plexplore.Spool.Deletion.{max_seq_of-covers}
use plexplore.Spool.Log.{calm}
use plexplore.Spool.Log.Reading.{read_checkpoint-calm}
use plexplore.Spool.Quiet.{Quiet, compact_one-Quiet, list_segment_starts-Quiet}

module _ (j : Json) where
  -- A segment file of the directory can be read, and has a record with the sequence number.
  pub record InSpool (n : ℕ) (disk : Dict Bytes Node) : Type 0 where
    pub start : ℕ
    pub text : Bytes
    pub records : List SpoolRecord
    pub on_disk : Dict.lookup (segment_file_name start) disk ≡ some (file text)
    pub decoded : decode_lines j (split_lines text []) ≡ ok records
    pub spooled : SpoolRecord
    pub there : Memᴰ spooled records
    pub number : spooled.seq ≡ n

  -- What a round of the compaction does to the directory.
  Erased : ℕ → ℕ → Dict Bytes Node → Dict Bytes Node → Type 0
  Erased committed start d d' =
      (text : Bytes) × (rs : List SpoolRecord) × (Dict.lookup (segment_file_name start) d
        ≡ some (file text))
      × (decode_lines j (split_lines text []) ≡ ok rs)
      × (max_seq_of start rs ≤ committed)
      × (d' ≡ Dict.erase (segment_file_name start) d)

  compact_one-Erased :
      (committed start : ℕ) (m : FileSpoolManager) (d : Dict Bytes Node) (cp : Option Bytes)
      → let d' = (compact_one j committed start (calm m d cp)).1.disk in
        (d' ≡ d) ⊎ Erased committed start d d'
  unfolding compact_one read_segment_file remove_file Erased
  compact_one-Erased committed start m d cp = elim (Bool-cases (is_active m start)) [
    | inl writable ↦ inl (rw writable refl)
    | inr closed ↦ elim (Bool-cases (ltb committed start)) [
      | inl later ↦ inl (rw (closed, later) refl)
      | inr started ↦ elim (Option-cases (Dict.lookup (segment_file_name start) d)) [
        | inl missing ↦ inl (rw (closed, started, missing) refl)
        | inr (directory, e) ↦ inl (rw (closed, started, e) refl)
        | inr (file text, e) ↦ elim (Outcome-cases (decode_lines j (split_lines text []))) [
          | inr (x, torn) ↦ inl (rw (closed, started, e, torn) refl)
          | inl (rs, read) ↦ elim (Bool-cases (ltb committed (max_seq_of start rs))) [
            | inl above ↦ inl (rw (closed, started, e, read, above) refl)
            | inr covered ↦ inr (
              text,
              rs,
              e,
              read,
              ltb→le committed (max_seq_of start rs) covered,
              rw (closed, started, e, read, covered, e) refl,
            )
          ]
        ]
      ]
    ]
  ]

  erase-InSpool :
      (committed start n : ℕ) (d d' : Dict Bytes Node)
      → committed < n
      → Erased committed start d d'
      → InSpool n d
      → InSpool n d'
  unfolding Erased
  erase-InSpool committed start n d d' past (text, rs, found, read, covered, erased) s =
      let name = segment_file_name start in
      let other = segment_file_name s.start in
      elim (Bool-cases (bytes_eq.beq name other)) [
        | inl same ↦
            let e : name ≡ other = (bytes_eq.beq_iff name other).0 same in
            let texts : text ≡ s.text =
              same_text (sym found ∙ ap (λ k. Dict.lookup k d) e ∙ s.on_disk) in
            let lists : rs ≡ s.records =
              same_records
                (sym read ∙ ap (λ t. decode_lines j (split_lines t [])) texts ∙ s.decoded) in
            let low =
              All-Memᴰ (λ r. r.seq ≤ committed) rs (max_seq_of-covers start committed rs covered)
                (subst (Memᴰ s.spooled) (sym lists) s.there) in
            absurd (omega (arith, low, s.number))
        | inr differs ↦ record {
          start = s.start;
          text = s.text;
          records = s.records;
          on_disk =
              ap (Dict.lookup other) erased
              ∙ Dict.lookup-erase name other d
              ∙ ap (λ b. if b then none else Dict.lookup other d) differs
              ∙ s.on_disk;
          decoded = s.decoded;
          spooled = s.spooled;
          there = s.there;
          number = s.number;
        }
      ]
    where
      same_text : {a b : Bytes} → let x : Option Node = some (file a) in x ≡ some (file b) → a ≡ b
      same_text e = cc

      same_records :
          {a b : List SpoolRecord}
          → let x : Outcome SpoolError (List SpoolRecord) = ok a in x ≡ ok b → a ≡ b
      same_records e = cc

  compact_one-InSpool :
      (committed start n : ℕ) (w : World)
      → w.faults ≡ []
      → committed < n
      → InSpool n w.disk
      → InSpool n (compact_one j committed start w).1.disk
  compact_one-InSpool committed start n w none_fails past s =
      let settled = calm w.manager w.disk w.checkpoint_file in
      let as_calm : settled ≡ w = rw none_fails refl in
      subst (λ x. InSpool n (compact_one j committed start x).1.disk) as_calm
        elim (compact_one-Erased committed start w.manager w.disk w.checkpoint_file) [
          | inl same ↦ subst (InSpool n) (sym same) s
          | inr gone ↦ erase-InSpool committed start n w.disk _ past gone s
        ]

  compact_loop-InSpool :
      (committed deleted n : ℕ) (starts : List ℕ) (w : World)
      → w.faults ≡ []
      → committed < n
      → InSpool n w.disk
      → InSpool n (compact_loop j committed deleted starts w).1.disk
  unfolding compact_loop Quiet
  compact_loop-InSpool committed deleted n [] w none_fails past s = s
  compact_loop-InSpool committed deleted n (start ∷ starts) w none_fails past s =
      let first = compact_one j committed start w in
      let quiet = compact_one-Quiet j committed start w none_fails in
      let kept = compact_one-InSpool committed start n w none_fails past s in
      elim (Outcome-cases first.0) [
        | inl (done, e) ↦ rw e (
            compact_loop-InSpool committed (if done then deleted + 1 else deleted) n starts first.1
              quiet.faults past kept)
        | inr (x, e) ↦ rw e kept
      ]

  listed-disk : (w : World) → w.faults ≡ [] → (list_segment_starts w).1.disk ≡ w.disk
  unfolding list_segment_starts read_dir os_call take_fault
  listed-disk w none_fails = rw none_fails refl

  -- A compaction in a world in which no call of `os` fails, with a lawful codec and a checkpoint
  -- file that reads as a checkpoint, keeps each record past the checkpoint in a segment that can be
  -- read.
  pub compact_committed_segments-InSpool :
      (n : ℕ) (w : World) (c : Checkpoint)
      → Lawful j
      → w.faults ≡ []
      → contents_of j w.checkpoint_file ≡ ok c
      → c.last_committed_seq < n
      → InSpool n w.disk
      → InSpool n (compact_committed_segments j w).1.disk
  unfolding compact_committed_segments Quiet
  compact_committed_segments-InSpool n w c law none_fails current past s =
      let settled = calm w.manager w.disk w.checkpoint_file in
      let as_calm : settled ≡ w = rw none_fails refl in
      let reading = read_checkpoint-calm j law w.manager w.checkpoint_file w.disk c current in
      let listed = list_segment_starts settled in
      let quiet = list_segment_starts-Quiet settled refl in
      let kept = subst (InSpool n) (sym (listed-disk settled refl)) s in
      subst (λ x. InSpool n (compact_committed_segments j x).1.disk) as_calm
        elim (Outcome-cases listed.0) [
          | inl (starts, e) ↦
              rw (reading, e)
                (compact_loop-InSpool c.last_committed_seq 0 n starts listed.1 quiet.faults past
                  kept)
          | inr (x, e) ↦ rw (reading, e) kept
        ]
