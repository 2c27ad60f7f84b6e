-- ===== src/Spool/Codec.antt =====
-- internal/spool/record_codec.go and checkpoint.go: the lines of a segment and the checkpoint file.
use plexplore.Prelude.{
  ◌≡◌, ◌≢◌, refl, sym, ap, ◌∙◌, none, some, [], ◌∷◌, ◌++◌, Outcome, ok, err, arith, if◌then◌else◌,
  ◌<◌, All, Option-cases, inl, inr,
}
use plexplore.GoTime.{Time, is_zero}
use plexplore.Ingest.Models.{SpoolRecord, Bytes}
use plexplore.Ingest.Json.{Json, Checkpoint, Lawful, IsObject, newline}
use plexplore.Text.{trim_space, strip_any, spaces, spaces_reversed}
use plexplore.Text.Trim.{trim_space_line}

pub data SpoolError : Type 0 where
  invalid_fsync_mode serialize_failed record_empty_line record_invalid : SpoolError
  checkpoint_empty_data checkpoint_invalid io_failed not_exist : SpoolError

unfoldable pub serialize_record : Json → SpoolRecord → Outcome SpoolError Bytes
serialize_record j r = elim (j.marshal r) [
  | none ↦ err serialize_failed
  | some text ↦ ok (text ++ newline ∷ [])
]

decode_record : Json → Bytes → Outcome SpoolError SpoolRecord
decode_record j [] = err record_empty_line
decode_record j (c ∷ s) = elim (j.unmarshal (c ∷ s)) [ none ↦ err record_invalid | some r ↦ ok r ]

unfoldable pub deserialize_record : Json → Bytes → Outcome SpoolError SpoolRecord
unfolding decode_record
deserialize_record j line = decode_record j (trim_space line)

unfoldable pub serialize_checkpoint : Json → Time → Checkpoint → Outcome SpoolError Bytes
serialize_checkpoint j now c =
    let dated = if is_zero c.updated_at_utc then record c { updated_at_utc = now } else c in
    elim (j.marshal_checkpoint dated) [
      | none ↦ err serialize_failed
      | some text ↦ ok (text ++ newline ∷ [])
    ]

decode_checkpoint : Json → Bytes → Outcome SpoolError Checkpoint
decode_checkpoint j [] = err checkpoint_empty_data
decode_checkpoint j (c ∷ s) = elim (j.unmarshal_checkpoint (c ∷ s)) [
  | none ↦ err checkpoint_invalid
  | some c' ↦ ok c'
]

unfoldable pub deserialize_checkpoint : Json → Bytes → Outcome SpoolError Checkpoint
unfolding decode_checkpoint
deserialize_checkpoint j contents = decode_checkpoint j (trim_space contents)

brace_first : (t : Bytes) → strip_any spaces (b'{' ∷ t) ≡ none
unfolding strip_any
brace_first t = refl

newline_last : (t : Bytes) → strip_any spaces_reversed (newline ∷ t) ≡ some t
unfolding strip_any
newline_last t = refl

brace_last : (t : Bytes) → strip_any spaces_reversed (b'}' ∷ t) ≡ none
unfolding strip_any
brace_last t = refl

-- The line of an object is trimmed to the object.
pub trim_space-object : (text : Bytes) → IsObject text → trim_space (text ++ newline ∷ []) ≡ text
trim_space-object text ((mid, shape), _) =
    ap (λ t. trim_space (t ++ newline ∷ [])) shape
    ∙ trim_space_line b'{' b'}' newline mid brace_first newline_last brace_last
    ∙ sym shape

decode_record-object :
    (j : Json) (text : Bytes) (r : SpoolRecord)
    → IsObject text
    → j.unmarshal text ≡ some r
    → decode_record j text ≡ ok r
unfolding decode_record
decode_record-object j [] r ((mid, shape), _) h = absurd (ground arith)
decode_record-object j (c ∷ s) r o h = rw (h, decode_record)

decode_checkpoint-object :
    (j : Json) (text : Bytes) (c : Checkpoint)
    → IsObject text
    → j.unmarshal_checkpoint text ≡ some c
    → decode_checkpoint j text ≡ ok c
unfolding decode_checkpoint
decode_checkpoint-object j [] c ((mid, shape), _) h = absurd (ground arith)
decode_checkpoint-object j (x ∷ s) c o h = rw (h, decode_checkpoint)

serialize_record-ok :
    (j : Json) (r : SpoolRecord) (line : Bytes)
    → serialize_record j r ≡ ok line
    → (text : Bytes) × (j.marshal r ≡ some text) × (line ≡ text ++ newline ∷ [])
unfolding serialize_record
serialize_record-ok j r line h = elim (Option-cases (j.marshal r)) [
  | inl e ↦ absurd (ground arith)
  | inr (text, e) ↦ (text, e, ground arith)
]

-- `DeserializeRecord` reads back the record from the line that `SerializeRecord` made of it, by a
-- lawful JSON codec.
pub deserialize-serialize_record :
    (j : Json) (r : SpoolRecord) (line : Bytes)
    → Lawful j
    → serialize_record j r ≡ ok line
    → deserialize_record j line ≡ ok r
unfolding deserialize_record
deserialize-serialize_record j r line law h =
    let (text, e, shape) = serialize_record-ok j r line h in
    let object = law.record_object r text e in
    ap (λ l. decode_record j (trim_space l)) shape
    ∙ ap (decode_record j) (trim_space-object text object)
    ∙ decode_record-object j text r object (law.record_back r text e)

-- A line is one line: its only newline is its last byte.
pub serialize_record-line :
    (j : Json) (r : SpoolRecord) (line : Bytes)
    → Lawful j
    → serialize_record j r ≡ ok line
    → (text : Bytes) × (line ≡ text ++ newline ∷ []) × All (λ c. c ≢ newline) text
serialize_record-line j r line law h =
    let (text, e, shape) = serialize_record-ok j r line h in
    (text, shape, (law.record_object r text e).1)

-- `DeserializeCheckpoint` reads back a dated checkpoint from what `SerializeCheckpoint` made of it,
-- by a lawful JSON codec.
pub deserialize-serialize_checkpoint :
    (j : Json) (now : Time) (c : Checkpoint) (contents : Bytes)
    → Lawful j
    → 0 < c.updated_at_utc
    → serialize_checkpoint j now c ≡ ok contents
    → deserialize_checkpoint j contents ≡ ok c
unfolding deserialize_checkpoint serialize_checkpoint
deserialize-serialize_checkpoint j now c contents law dated h =
    elim (Option-cases (j.marshal_checkpoint c)) [
      | inl e ↦ absurd (ground arith)
      | inr (text, e) ↦
          let object = law.checkpoint_object c text e in
          let shape : contents ≡ text ++ newline ∷ [] = ground arith in
          ap (λ l. decode_checkpoint j (trim_space l)) shape
          ∙ ap (decode_checkpoint j) (trim_space-object text object)
          ∙ decode_checkpoint-object j text c object (law.checkpoint_back c text e)
    ]
