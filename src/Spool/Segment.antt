-- ===== src/Spool/Segment.antt =====
-- internal/spool/segment.go: the names of segment files.
use plexplore.Prelude.{
  ℕ, ◌≤◌, ◌<◌, ◌≡◌, ◌≢◌, refl, sym, subst, ap, ◌∙◌, not, ◌||◌, Option, none, some, [], ◌∷◌, ◌++◌,
  arith, if◌then◌else◌, All, All-append, All-map, append_assoc,
}
use plexplore.Ingest.Models.{Bytes}
use plexplore.Text.{
  codes, padded, parse_uint, u64_mod, trim_space, base, has_prefix, has_suffix, trim_prefix,
  trim_suffix, strip_any, spaces, spaces_reversed,
}
use plexplore.Text.Trim.{
  trim_space_plain, base_plain, has_prefix-append, trim_prefix-append, has_suffix-append,
  trim_suffix-append,
}
use plexplore.Text.Decimal.{parse_uint-padded, padded-AllDigits}

abbrev pub name_prefix : Bytes
name_prefix = codes "segment-"

abbrev pub segment_extension : Bytes
segment_extension = codes ".ndjson"

-- `SegmentFileName`
unfoldable pub segment_file_name : ℕ → Bytes
segment_file_name start = name_prefix ++ (padded start ++ segment_extension)

-- `ParseSegmentStartSeq`, with `none` for an error
unfoldable pub parse_segment_start_seq : Bytes → Option ℕ
parse_segment_start_seq name =
    let b = base (trim_space name) in
    if not (has_prefix b name_prefix) || not (has_suffix b segment_extension)
    then none
    else parse_uint (trim_suffix (trim_prefix b name_prefix) segment_extension)

-- The name without its first and last byte.
inner : ℕ → Bytes
inner start = codes "egment-" ++ (padded start ++ codes ".ndjso")

segment_file_name-inner : (start : ℕ) → segment_file_name start ≡ b's' ∷ inner start ++ b'n' ∷ []
unfolding segment_file_name inner
segment_file_name-inner start =
    ap (λ t. codes "segment-" ++ t) (sym (append_assoc (padded start) (codes ".ndjso") (b'n' ∷ [])))

no_slash : (start : ℕ) → All (λ c. c ≢ b'/') (segment_file_name start)
unfolding segment_file_name
no_slash start =
    All-append (λ c. c ≢ b'/') (codes "segment-") _ (omega arith)
      (All-append (λ c. c ≢ b'/') (padded start) _
        (All-map (λ c. (b'0' ≤ c) × (c ≤ b'9')) {Q = λ c. c ≢ b'/'} (λ c d e. omega arith)
          (padded start) (padded-AllDigits start))
        (omega arith))

first_plain : (t : Bytes) → strip_any spaces (b's' ∷ t) ≡ none
unfolding strip_any
first_plain t = refl

last_plain : (t : Bytes) → strip_any spaces_reversed (b'n' ∷ t) ≡ none
unfolding strip_any
last_plain t = refl

cleaned : (start : ℕ) → base (trim_space (segment_file_name start)) ≡ segment_file_name start
cleaned start =
    let shape = segment_file_name-inner start in
    ap (λ n. base (trim_space n)) shape
    ∙ ap base (trim_space_plain b's' b'n' (inner start) first_plain last_plain)
    ∙ base_plain b's' b'n' (inner start) (subst (All (λ c. c ≢ b'/')) shape (no_slash start))
    ∙ sym shape

-- `ParseSegmentStartSeq` reads a uint64 start back from the name that `SegmentFileName` makes of it.
pub parse-segment_file_name :
    (start : ℕ) → start < u64_mod → parse_segment_start_seq (segment_file_name start) ≡ some start
unfolding parse_segment_start_seq
parse-segment_file_name start h =
    let digits_and_end = padded start ++ segment_extension in
    let regrouped = append_assoc name_prefix (padded start) segment_extension in
    rw (cleaned start) (
      unfold segment_file_name in
      rw
        (
          has_prefix-append name_prefix digits_and_end,
          ← regrouped,
          has_suffix-append segment_extension (name_prefix ++ padded start),
          regrouped,
          trim_prefix-append name_prefix digits_and_end,
          trim_suffix-append segment_extension (padded start),
        )
        (parse_uint-padded start h))
