-- ===== src/Tests/SpoolRuns.antt =====
-- The theorems on the spool, at concrete spools.
use plexplore.Prelude.{
  ◌≤◌, ◌⊎◌, false, true, All, ℕ, ◌≡◌, refl, none, some, List, [], ◌∷◌, ◌++◌, Outcome, ok, err,
  arith,
}
use plexplore.Prelude.Int.{pos}
use plexplore.Prelude.Memᴰ
use plexplore.Prelude.Dict
use plexplore.Prelude.Dict.{Dict}
use plexplore.Ingest.Models.{Bytes}
use plexplore.Ingest.Json.{Checkpoint}
use plexplore.Text.{trim_space}
use plexplore.Spool.Segment.{segment_file_name, parse_segment_start_seq, parse-segment_file_name}
use plexplore.Spool.Codec.{
  SpoolError, io_failed, checkpoint_empty_data, record_invalid, serialize_record,
  deserialize_record, serialize_checkpoint, deserialize-serialize_record,
  deserialize-serialize_checkpoint,
}
use plexplore.Spool.World.{
  World, bytes_eq, bytes_beq_iff, FileSpoolManager, ManagerOptions, Node, file, balanced,
  normalize_fsync_mode, new_file_spool_manager,
}
use plexplore.Spool.Append.{append_canonical_points, record_of}
use plexplore.Spool.Replay.{
  advance_checkpoint, contents_of, replay_after_checkpoint, decode_lines, split_lines,
}
use plexplore.Spool.Lines.{Written, decode-Written, decode-torn}
use plexplore.Spool.Log.{Segment, calm, IsLog}
use plexplore.Spool.Log.Laws.{Appended, records_of, append_canonical_points-calm}
use plexplore.Spool.Log.Reading.{replay_after_checkpoint-calm}
use plexplore.Spool.Log.Restart.{restarted, past, replay-append, restart_loses_appended}
use plexplore.Spool.Checkpoints.{
  Advanced, Unwritten, cut_short, advance_checkpoint-Advanced, advance_checkpoint-cut,
}
use plexplore.Spool.Compaction.{compact_one, is_active}
use plexplore.Spool.Keeping.{InSpool}
use plexplore.Spool.Deletion.{compact_one-committed}
use plexplore.Tests.Samples.{
  whole_numbers, short_formats, home, at_home, unary_json, unary_json-Lawful,
}

abbrev options : ManagerOptions
options = record { fsync_mode = []; fsync_interval = pos 0; fsync_byte_threshold = pos 0 }

abbrev fresh_manager : FileSpoolManager
fresh_manager = new_file_spool_manager (pos 100) options

-- {1} and {11} with their newlines
abbrev line_1 : Bytes
line_1 = b'{' ∷ b'1' ∷ b'}' ∷ 10 ∷ []

abbrev line_2 : Bytes
line_2 = b'{' ∷ b'1' ∷ b'1' ∷ b'}' ∷ 10 ∷ []

two_lines : Written unary_json (at_home 1 ∷ at_home 2 ∷ []) (line_1 ++ line_2)
unfolding serialize_record
two_lines = (line_1, line_2, refl, refl, (line_2, [], refl, refl, refl))

-- The checkpoint {11,1}
abbrev checkpoint_11 : Bytes
checkpoint_11 = b'{' ∷ b'1' ∷ b'1' ∷ b',' ∷ b'1' ∷ b'}' ∷ 10 ∷ []

abbrev at_2 : Checkpoint
at_2 = record { last_committed_seq = 2; updated_at_utc = 1 }

at_2_read : contents_of unary_json (some checkpoint_11) ≡ ok at_2
unfolding contents_of serialize_checkpoint
at_2_read =
    deserialize-serialize_checkpoint unary_json 1 at_2 checkpoint_11 unary_json-Lawful (omega arith)
      refl

pub two_written :
    (seq : ℕ)
    → (line : Bytes) × (serialize_record unary_json
          (record_of whole_numbers short_formats unary_json 2_000 seq home)
        ≡ ok line)
unfolding serialize_record record_of
two_written seq = (_, refl)

parse-segment_file_name_example : parse_segment_start_seq (segment_file_name 7) ≡ some 7
parse-segment_file_name_example = parse-segment_file_name 7 (omega arith)

deserialize-serialize_record_example : deserialize_record unary_json line_1 ≡ ok (at_home 1)
unfolding serialize_record
deserialize-serialize_record_example =
    deserialize-serialize_record unary_json (at_home 1) line_1 unary_json-Lawful refl

decode-Written_example :
    decode_lines unary_json (split_lines (line_1 ++ line_2) []) ≡ ok (at_home 1 ∷ at_home 2 ∷ [])
decode-Written_example =
    decode-Written unary_json (at_home 1 ∷ at_home 2 ∷ []) (line_1 ++ line_2) unary_json-Lawful
      two_lines

torn_invalid : deserialize_record unary_json (b'{' ∷ []) ≡ err record_invalid
unfolding deserialize_record trim_space
torn_invalid = refl

decode-torn_example :
    decode_lines unary_json (split_lines ((line_1 ++ line_2) ++ b'{' ∷ []) []) ≡ err record_invalid
decode-torn_example =
    decode-torn unary_json (at_home 1 ∷ at_home 2 ∷ []) (line_1 ++ line_2) b'{' [] record_invalid
      unary_json-Lawful two_lines ((λ e. omega arith), tt) torn_invalid

-- A spool of one closed segment, which starts at 1 and holds two records, before the next one is 3.
abbrev pub one_segment : List Segment
one_segment = (1, at_home 1 ∷ at_home 2 ∷ []) ∷ []

abbrev pub one_file : Dict Bytes Node
one_file = (segment_file_name 1, file (line_1 ++ line_2)) ∷ []

abbrev pub later_manager : FileSpoolManager
later_manager = record fresh_manager { next_seq = 3 }

pub one_file-IsLog : IsLog unary_json one_segment later_manager one_file
unfolding new_file_spool_manager
one_file-IsLog = record {
  on_disk = (line_1 ++ line_2, [], refl, two_lines, refl);
  ascending = (omega arith, omega arith, omega arith);
  active_last = tt;
}

pub later_manager_mode : later_manager.fsync_mode ≡ some balanced
unfolding new_file_spool_manager normalize_fsync_mode trim_space
later_manager_mode = refl

append_canonical_points-calm_example :
    Appended whole_numbers short_formats unary_json 2_000 none
      (home ∷ home ∷ [])
      one_segment
      later_manager
      (append_canonical_points whole_numbers short_formats unary_json 2_000
        (home ∷ home ∷ [])
        (calm later_manager one_file none))
append_canonical_points-calm_example =
    append_canonical_points-calm whole_numbers short_formats unary_json 2_000 none
      (home ∷ home ∷ []) one_segment later_manager one_file balanced one_file-IsLog
      later_manager_mode (omega arith) (two_written, (two_written, tt))

replay_after_checkpoint-calm_example :
    (replay_after_checkpoint unary_json (calm later_manager one_file (some checkpoint_11)))
    ≡ (ok [], calm later_manager one_file (some checkpoint_11))
replay_after_checkpoint-calm_example =
    replay_after_checkpoint-calm unary_json unary_json-Lawful later_manager (some checkpoint_11) 3
      one_segment one_file at_2 one_file-IsLog.on_disk (omega arith, omega arith, omega arith)
      (omega arith) at_2_read

replay-append_example :
    (replay_after_checkpoint unary_json (
      restarted fresh_manager
        (append_canonical_points whole_numbers short_formats unary_json 2_000
          (home ∷ home ∷ [])
          (calm later_manager one_file (some checkpoint_11))).1)).0
    ≡ ok (
        past at_2 (
          (at_home 1 ∷ at_home 2 ∷ [])
          ++ records_of whole_numbers short_formats unary_json 2_000
              (some checkpoint_11)
              3
              (home ∷ home ∷ [])))
replay-append_example =
    replay-append whole_numbers short_formats unary_json 2_000 (some checkpoint_11)
      unary_json-Lawful at_2 at_2_read (home ∷ home ∷ []) one_segment later_manager fresh_manager
      one_file balanced one_file-IsLog later_manager_mode (omega arith)
      (two_written, (two_written, tt))

restart_loses_appended_example :
    (replay_after_checkpoint unary_json (
      restarted fresh_manager
        (append_canonical_points whole_numbers short_formats unary_json 2_000
          (home ∷ home ∷ [])
          (calm fresh_manager [] (some checkpoint_11))).1)).0
    ≡ ok []
restart_loses_appended_example =
    restart_loses_appended whole_numbers short_formats unary_json 2_000 (some checkpoint_11)
      unary_json-Lawful at_2 at_2_read (home ∷ home ∷ []) (pos 100) options fresh_manager
      (omega arith) (omega arith) (two_written, (two_written, tt))

-- The checkpoint {111,1}, which follows {11,1}.
abbrev checkpoint_111 : Bytes
checkpoint_111 = b'{' ∷ b'1' ∷ b'1' ∷ b'1' ∷ b',' ∷ b'1' ∷ b'}' ∷ 10 ∷ []

written_111 :
    serialize_checkpoint unary_json 1 (record { last_committed_seq = 3; updated_at_utc = 1 })
    ≡ ok checkpoint_111
unfolding serialize_checkpoint
written_111 = refl

abbrev advanced_111 : Outcome SpoolError Checkpoint × World
advanced_111 = advance_checkpoint unary_json 1 3 (calm fresh_manager one_file (some checkpoint_11))

advance_checkpoint-Advanced_example :
    Advanced unary_json 1 3 fresh_manager one_file (some checkpoint_11) at_2 at_2_read advanced_111
    ⊎ Unwritten unary_json 1 3 fresh_manager one_file
        (some checkpoint_11)
        at_2
        at_2_read
        advanced_111
advance_checkpoint-Advanced_example =
    advance_checkpoint-Advanced unary_json 1 3 fresh_manager one_file (some checkpoint_11) at_2
      at_2_read unary_json-Lawful (omega arith)

advance_checkpoint-cut_example :
    (w : World) × (advance_checkpoint unary_json 1 3 (
        cut_short unary_json 1 3 fresh_manager one_file
          (some checkpoint_11)
          at_2
          checkpoint_111
          at_2_read
          written_111)
      ≡ (err io_failed, w))
    × (contents_of unary_json w.checkpoint_file ≡ err checkpoint_empty_data)
advance_checkpoint-cut_example =
    advance_checkpoint-cut unary_json 1 3 fresh_manager one_file (some checkpoint_11) at_2
      checkpoint_111 at_2_read written_111 (omega arith)

segment_found : Dict.lookup (segment_file_name 1) one_file ≡ some (file (line_1 ++ line_2))
unfolding Dict.lookup
segment_found = rw ((bytes_beq_iff (segment_file_name 1) (segment_file_name 1)).1 refl) refl

pub two_spooled : InSpool unary_json 2 one_file
two_spooled = record {
  start = 1;
  text = line_1 ++ line_2;
  records = at_home 1 ∷ at_home 2 ∷ [];
  on_disk = segment_found;
  decoded =
      decode-Written unary_json (at_home 1 ∷ at_home 2 ∷ []) (line_1 ++ line_2) unary_json-Lawful
        two_lines;
  spooled = at_home 2;
  there = Memᴰ.tail (Memᴰ.head refl);
  number = refl;
}

compact_one-committed_example :
    (compact_one unary_json 2 1 (calm later_manager one_file none)
      ≡ (ok false, calm later_manager one_file none))
    ⊎ ((is_active later_manager 1 ≡ false)
        × All (λ r. r.seq ≤ 2) (at_home 1 ∷ at_home 2 ∷ [])
        × (compact_one unary_json 2 1 (calm later_manager one_file none)
            ≡ (ok true, calm later_manager (Dict.erase (segment_file_name 1) one_file) none)))
compact_one-committed_example =
    compact_one-committed unary_json later_manager one_file none 2 1 (at_home 1 ∷ at_home 2 ∷ [])
      (line_1 ++ line_2) unary_json-Lawful segment_found two_lines
