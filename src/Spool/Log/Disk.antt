-- ===== src/Spool/Log/Disk.antt =====
-- Lookups and writes in a directory of segment files.
use plexplore.Prelude.{
  ℕ, suc, ◌≤◌, ◌<◌, ◌≡◌, refl, sym, ap, subst, ◌∙◌, true, false, Bool-cases, inl, inr, none, some,
  List, [], ◌∷◌, ◌++◌, arith,
}
use plexplore.Prelude.Dict
use plexplore.Prelude.Dict.{Dict}
use plexplore.Ingest.Models.{SpoolRecord, Bytes}
use plexplore.Ingest.Json.{Json}
use plexplore.Text.{u64_mod}
use plexplore.Spool.Segment.{segment_file_name, parse_segment_start_seq, parse-segment_file_name}
use plexplore.Spool.World.{Node, file, bytes_eq, bytes_beq, bytes_beq_iff}
use plexplore.Spool.Codec.{serialize_record}
use plexplore.Prelude.{ok}
use plexplore.Spool.Lines.{Written, Written-append}
use plexplore.Spool.Log.{Segment, OnDisk, Ascending}

-- Different starts have different names.
pub names_differ :
    (a b : ℕ) → a < b → b < u64_mod → bytes_beq (segment_file_name a) (segment_file_name b) ≡ false
names_differ a b h k = elim (Bool-cases (bytes_beq (segment_file_name a) (segment_file_name b))) [
  | inr differ ↦ differ
  | inl same ↦
      let e = (bytes_beq_iff (segment_file_name a) (segment_file_name b)).0 same in
      let read =
        sym (parse-segment_file_name a (omega arith))
        ∙ ap parse_segment_start_seq e
        ∙ parse-segment_file_name b k in
      absurd (ground (arith, read))
]

pub names_same : (a : ℕ) → bytes_beq (segment_file_name a) (segment_file_name a) ≡ true
names_same a = (bytes_beq_iff (segment_file_name a) (segment_file_name a)).1 refl

-- A name that starts no segment of the log is not in the directory.
pub lookup_fresh :
    (j : Json) (low s : ℕ) (segs : List Segment) (d : Dict Bytes Node)
    → OnDisk j segs d
    → Ascending low s segs
    → s < u64_mod
    → Dict.lookup (segment_file_name s) d ≡ none
unfolding Dict.lookup
lookup_fresh j low s [] d o a k = rw o refl
lookup_fresh j low s ((b, rs) ∷ segs) d (text, others, shape, w, o) a k =
    ap (Dict.lookup (segment_file_name s)) shape
    ∙ rw (names_differ b s a.1 k) (lookup_fresh j (suc b) s segs others o a.2 k)

-- A new empty segment goes to the end of the directory.
pub insert_fresh :
    (j : Json) (low s : ℕ) (segs : List Segment) (d : Dict Bytes Node)
    → OnDisk j segs d
    → Ascending low s segs
    → s < u64_mod
    → OnDisk j (segs ++ (s, []) ∷ []) (Dict.insert (segment_file_name s) (file []) d)
unfolding Dict.insert
insert_fresh j low s [] d o a k = ([], [], rw o refl, refl, refl)
insert_fresh j low s ((b, rs) ∷ segs) d (text, others, shape, w, o) a k = (
  text,
  Dict.insert (segment_file_name s) (file []) others,
  ap (Dict.insert (segment_file_name s) (file [])) shape ∙ rw (names_differ b s a.1 k) refl,
  w,
  insert_fresh j (suc b) s segs others o a.2 k,
)

last_above :
    (low high s : ℕ) (closed : List Segment) (rs : List SpoolRecord)
    → Ascending low high (closed ++ (s, rs) ∷ [])
    → (low ≤ s) × (s < high)
last_above low high s [] rs a = (a.0, a.1)
last_above low high s ((b, bs) ∷ closed) rs a =
    let rest = last_above (suc b) high s closed rs a.2 in (omega (arith, rest.0), rest.1)

pub Ascending-weaken :
    (low low' high : ℕ) (segs : List Segment)
    → low ≤ low'
    → Ascending low' high segs
    → Ascending low high segs
Ascending-weaken low low' high [] h a = omega arith
Ascending-weaken low low' high ((s, rs) ∷ segs) h a = (omega arith, a.1, a.2)

-- The last segment's file, and the directory with one more line in it.
pub append_last :
    (j : Json) (low high s : ℕ) (closed : List Segment) (rs : List SpoolRecord)
    (d : Dict Bytes Node) (r : SpoolRecord) (line : Bytes)
    → OnDisk j (closed ++ (s, rs) ∷ []) d
    → Ascending low high (closed ++ (s, rs) ∷ [])
    → high ≤ u64_mod
    → serialize_record j r ≡ ok line
    → (text : Bytes) × (Dict.lookup (segment_file_name s) d ≡ some (file text))
      × OnDisk j
          (closed ++ (s, rs ++ r ∷ []) ∷ [])
          (Dict.insert (segment_file_name s) (file (text ++ line)) d)
unfolding Dict.lookup Dict.insert
append_last j low high s [] rs d r line (text, others, shape, w, o) a k e = (
  text,
  ap (Dict.lookup (segment_file_name s)) shape ∙ rw (names_same s) refl,
  (
    (text ++ line),
    others,
    ap (Dict.insert (segment_file_name s) (file (text ++ line))) shape ∙ rw (names_same s) refl,
    Written-append j rs r text line w e,
    o,
  ),
)
append_last j low high s ((b, bs) ∷ closed) rs d r line (other, others, shape, w, o) a k e =
    let above = last_above (suc b) high s closed rs a.2 in
    let differ = names_differ b s above.0 (omega arith) in
    let (text, found, after) = append_last j (suc b) high s closed rs others r line o a.2 k e in
    (
      text,
      ap (Dict.lookup (segment_file_name s)) shape ∙ rw differ found,
      (
        other,
        Dict.insert (segment_file_name s) (file (text ++ line)) others,
        ap (Dict.insert (segment_file_name s) (file (text ++ line))) shape ∙ rw differ refl,
        w,
        after,
      ),
    )

-- The files of the log can be read where they are in the directory.
abbrev pub Readable : Json → List Segment → Dict Bytes Node → Type 0
Readable j [] d = Unit
Readable j ((s, rs) ∷ segs) d =
    ((text : Bytes) × (Dict.lookup (segment_file_name s) d ≡ some (file text)) × Written j rs text)
    × Readable j segs d

Readable-later :
    (j : Json) (b high : ℕ) (n : Node) (segs : List Segment) (d : Dict Bytes Node)
    → Ascending (suc b) high segs
    → high ≤ u64_mod
    → Readable j segs d
    → Readable j segs ((segment_file_name b, n) ∷ d)
unfolding Dict.lookup
Readable-later j b high n [] d a k h = tt
Readable-later j b high n ((s, rs) ∷ segs) d a k ((text, found, w), rest) = (
  (text, rw (names_differ b s a.0 (omega arith)) found, w),
  Readable-later j b high n segs d (Ascending-weaken (suc b) (suc s) high segs (omega arith) a.2) k
      rest,
)

pub OnDisk-Readable :
    (j : Json) (low high : ℕ) (segs : List Segment) (d : Dict Bytes Node)
    → OnDisk j segs d
    → Ascending low high segs
    → high ≤ u64_mod
    → Readable j segs d
unfolding Dict.lookup
OnDisk-Readable j low high [] d o a k = tt
OnDisk-Readable j low high ((s, rs) ∷ segs) d (text, others, shape, w, o) a k =
    subst (Readable j ((s, rs) ∷ segs)) (sym shape) (
      (text, rw (names_same s) refl, w),
      Readable-later j s high (file text) segs others a.2 k
          (OnDisk-Readable j (suc s) high segs others o a.2 k),
    )
