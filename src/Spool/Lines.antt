-- ===== src/Spool/Lines.antt =====
-- A segment file read back: the records of the lines that were written, and nothing once a line is
-- torn.
use mathlib.Core.List.{reverse, reverse-cons}
use plexplore.Prelude.{
  ℕ, ◌≡◌, ◌≢◌, refl, sym, ap, ◌∙◌, Bool-cases, inl, inr, ==_iff, List, [], ◌∷◌, ◌++◌, ok, err, All,
  append_assoc, append-nil, ◌==◌,
}
use plexplore.Ingest.Models.{SpoolRecord, Bytes}
use plexplore.Ingest.Json.{Json, Lawful, newline}
use plexplore.Spool.Codec.{
  SpoolError, serialize_record, deserialize_record, serialize_record-line,
  deserialize-serialize_record,
}
use plexplore.Spool.Replay.{split_lines, decode_lines}

-- The contents of a file to which the records were written.
abbrev pub Written : Json → List SpoolRecord → Bytes → Type 0
Written j [] contents = contents ≡ []
Written j (r ∷ rs) contents =
    (line : Bytes) × (rest : Bytes) × (serialize_record j r ≡ ok line)
    × (contents ≡ line ++ rest)
    × Written j rs rest

pub Written-append :
    (j : Json) (rs : List SpoolRecord) (r : SpoolRecord) (contents line : Bytes)
    → Written j rs contents
    → serialize_record j r ≡ ok line
    → Written j (rs ++ r ∷ []) (contents ++ line)
Written-append j [] r contents line w e = (line, [], e, rw (w, append-nil line) refl, refl)
Written-append j (x ∷ rs) r contents line (first, rest, f, shape, w) e = (
  first,
  rest ++ line,
  f,
  ap (λ c. c ++ line) shape ∙ append_assoc first rest line,
  Written-append j rs r rest line w e,
)

split_lines-line :
    (text rest part : Bytes)
    → All (λ c. c ≢ newline) text
    → split_lines (text ++ newline ∷ rest) part
      ≡ (reverse part ++ (text ++ newline ∷ [])) ∷ split_lines rest []
unfolding split_lines
split_lines-line [] rest part h = ap (λ l. l ∷ split_lines rest []) (reverse-cons newline part)
split_lines-line (c ∷ text) rest part h = elim (Bool-cases (c == newline)) [
  | inl e ↦ absurd (h.0 ((==_iff c newline).0 e))
  | inr e ↦
      rw (e, split_lines)
        (split_lines-line text rest (c ∷ part) h.1
          ∙ ap (λ l. l ∷ split_lines rest [])
              (ap (λ l. l ++ (text ++ newline ∷ [])) (reverse-cons c part)
                ∙ append_assoc (reverse part) (c ∷ []) (text ++ newline ∷ [])))
]

-- A segment file that holds the lines of some records, written by a lawful JSON codec, decodes to
-- these records, in order.
pub decode-Written :
    (j : Json) (rs : List SpoolRecord) (contents : Bytes)
    → Lawful j
    → Written j rs contents
    → decode_lines j (split_lines contents []) ≡ ok rs
unfolding decode_lines
decode-Written j [] contents law w = unfold split_lines in rw w refl
decode-Written j (r ∷ rs) contents law (line, rest, e, shape, w) =
    let (text, line_shape, plain) = serialize_record-line j r line law e in
    let split =
      ap (λ c. split_lines c [])
        (shape ∙ ap (λ l. l ++ rest) line_shape ∙ append_assoc text (newline ∷ []) rest)
      ∙ split_lines-line text rest [] plain
      ∙ ap (λ l. l ∷ split_lines rest []) (sym line_shape) in
    let first = deserialize-serialize_record j r line law e in
    let others = decode-Written j rs rest law w in
    ap (decode_lines j) split ∙ (rw (first, decode_lines, others, decode_lines) refl)

split_lines-rest :
    (c : ℕ) (text part : Bytes)
    → All (λ b. b ≢ newline) text
    → split_lines text (c ∷ part) ≡ (reverse (c ∷ part) ++ text) ∷ []
unfolding split_lines
split_lines-rest c [] part h = ap (λ l. l ∷ []) (sym (append-nil (reverse (c ∷ part))))
split_lines-rest c (b ∷ text) part h = elim (Bool-cases (b == newline)) [
  | inl e ↦ absurd (h.0 ((==_iff b newline).0 e))
  | inr e ↦
      rw (e, split_lines)
        (split_lines-rest b text (c ∷ part) h.1
          ∙ ap (λ l. l ∷ [])
              (ap (λ l. l ++ text) (reverse-cons b (c ∷ part))
                ∙ append_assoc (reverse (c ∷ part)) (b ∷ []) text))
]

split_first :
    (c : ℕ) (part : Bytes)
    → All (λ b. b ≢ newline) (c ∷ part)
    → split_lines (c ∷ part) [] ≡ (c ∷ part) ∷ []
unfolding split_lines
split_first c part h = elim (Bool-cases (c == newline)) [
  | inl e ↦ absurd (h.0 ((==_iff c newline).0 e))
  | inr e ↦ rw (e, split_lines) (split_lines-rest c part [] h.1)
]

-- A segment file whose last line was cut short, before its newline, and does not decode, cannot be
-- read: the error of the torn line is all that is returned, whatever records stand before it.
pub decode-torn :
    (j : Json) (rs : List SpoolRecord) (contents : Bytes) (c : ℕ) (part : Bytes) (e : SpoolError)
    → Lawful j
    → Written j rs contents
    → All (λ b. b ≢ newline) (c ∷ part)
    → deserialize_record j (c ∷ part) ≡ err e
    → decode_lines j (split_lines (contents ++ c ∷ part) []) ≡ err e
unfolding decode_lines
decode-torn j [] contents c part e law w plain bad =
    let cut : split_lines (c ∷ part) [] ≡ (c ∷ part) ∷ [] = split_first c part plain in
    ap (λ t. decode_lines j (split_lines (t ++ c ∷ part) [])) w
    ∙ ap (decode_lines j) cut
    ∙ rw (bad, decode_lines) refl
decode-torn j (r ∷ rs) contents c part e law (line, rest, ser, shape, w) plain bad =
    let (text, line_shape, whole) = serialize_record-line j r line law ser in
    let split =
      ap (λ s. split_lines (s ++ c ∷ part) [])
        (shape ∙ ap (λ l. l ++ rest) line_shape ∙ append_assoc text (newline ∷ []) rest)
      ∙ ap (λ s. split_lines s []) (append_assoc text (newline ∷ rest) (c ∷ part))
      ∙ split_lines-line text (rest ++ c ∷ part) [] whole
      ∙ ap (λ l. l ∷ split_lines (rest ++ c ∷ part) []) (sym line_shape) in
    let first = deserialize-serialize_record j r line law ser in
    let others = decode-torn j rs rest c part e law w plain bad in
    ap (decode_lines j) split ∙ rw (first, decode_lines, others, decode_lines) refl
