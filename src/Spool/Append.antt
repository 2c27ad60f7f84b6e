-- ===== src/Spool/Append.antt =====
-- internal/spool/append.go: the actions that write segments. The mutex makes each call of
-- `AppendCanonicalPoints` one action; `now` is the clock during it.
use plexplore.Prelude.{
  ℕ, ◌+◌, ◌%◌, Bool, true, false, not, Option, none, some, List, [], ◌∷◌, length, ltb, leb, ◌&&◌,
  ◌||◌, if◌then◌else◌, str_eq,
}
use plexplore.Prelude.Int.{leb_ℤ}
use plexplore.GoTime.{Time, sub_time}
use plexplore.Float64.{FloatOps}
use plexplore.Ingest.Models.{CanonicalPoint, SpoolRecord, Bytes}
use plexplore.Ingest.Json.{Json}
use plexplore.Ingest.Hash.{Formats, generate_deterministic_ingest_hash}
use plexplore.Text.{u64_mod}
use plexplore.Spool.Segment.{segment_file_name}
use plexplore.Spool.Codec.{invalid_fsync_mode, serialize_record}
use plexplore.Spool.World.{
  FileSpoolManager, FsyncMode, always, balanced, low_wear, Io, pure, raise, lift, gets, modify,
  ◌>>=◌, ◌>>◌, os_call, open_append, write_append,
}

-- Runs an action only if the test holds.
abbrev pub when : Bool → Io (Unit {0}) → Io (Unit {0})
when true m = m
when false m = pure tt

-- `closeActiveLocked`, of a manager with an open file
close_open : Bool → FileSpoolManager → Io (Unit {0})
unfolding os_call
close_open sync_before_close m = do
  when (sync_before_close && ltb 0 m.bytes_since_sync) os_call
  os_call
  modify (λ s. record s {
    active_file = none;
    active_segment_start = 0;
    active_segment_size = 0;
    bytes_since_sync = 0;
  })

close_if_open : Bool → FileSpoolManager → Option Bytes → Io (Unit {0})
close_if_open sync_before_close m none = pure tt
close_if_open sync_before_close m (some name) = close_open sync_before_close m

unfoldable pub close_active : Bool → Io (Unit {0})
unfolding close_if_open close_open
close_active sync_before_close w = close_if_open sync_before_close w.manager w.manager.active_file w

-- `Close`
unfoldable pub close : Io (Unit {0})
unfolding close_active
close = close_active true

-- `openNewSegmentLocked`
unfoldable pub open_new_segment : Time → ℕ → Io (Unit {0})
unfolding open_append os_call
open_new_segment now start = do
  let name = segment_file_name start
  size ← open_append name
  os_call
  modify (λ s. record s {
    active_file = some name;
    active_segment_start = start;
    active_segment_size = size;
    bytes_since_sync = 0;
    last_sync_at = now;
  })

is_open : Option Bytes → Bool
is_open none = false
is_open (some name) = true

-- The test of `ensureSegmentForWriteLocked`.
unfoldable pub need_new_segment : FileSpoolManager → ℕ → Bool
unfolding is_open
need_new_segment m incoming =
    not (is_open m.active_file)
    || (ltb 0 m.segment_max_bytes
        && (ltb m.segment_max_bytes (m.active_segment_size + incoming)
            && ltb 0 m.active_segment_size))

-- `ensureSegmentForWriteLocked`
unfoldable pub ensure_segment : Time → ℕ → ℕ → Io (Unit {0})
ensure_segment now next_seq incoming = do
  need ← gets (λ w. need_new_segment w.manager incoming)
  when need (do close_active true; open_new_segment now next_seq)

mode_should_fsync : Time → FileSpoolManager → Option FsyncMode → Bool
mode_should_fsync now m (some always) = true
mode_should_fsync now m (some balanced) =
    if leb m.fsync_threshold m.bytes_since_sync
    then true
    else leb_ℤ m.fsync_interval (sub_time now m.last_sync_at)
mode_should_fsync now m (some low_wear) = false
mode_should_fsync now m none = false

-- `shouldFSyncLocked`
unfoldable pub should_fsync : Time → FileSpoolManager → Bool
unfolding mode_should_fsync
should_fsync now m = mode_should_fsync now m m.fsync_mode

write_to : Bytes → Option Bytes → Io (Unit {0})
write_to line none = pure tt
write_to line (some name) = write_append name line

-- The write to the active file.
unfoldable pub write_active : Bytes → Io (Unit {0})
unfolding write_to
write_active line w = write_to line w.manager.active_file w

-- After the write: the sizes, the sync that is due, and the next sequence number.
unfoldable pub account_for : Time → ℕ → Io (Unit {0})
unfolding should_fsync os_call
account_for now written = do
  modify (λ s. record s {
    active_segment_size = s.active_segment_size + written;
    bytes_since_sync = s.bytes_since_sync + written;
  })
  due ← gets (λ w. should_fsync now w.manager)
  when due (do os_call; modify (λ s. record s { bytes_since_sync = 0; last_sync_at = now }))
  modify (λ s. record s { next_seq = (s.next_seq + 1) % u64_mod })

module _ (fl : FloatOps) (fmt : Formats) (j : Json) (now : Time) where
  -- The record that a point becomes.
  unfoldable pub record_of : ℕ → CanonicalPoint → SpoolRecord
  record_of seq p = record {
    seq = seq;
    device_id = p.device_id;
    received_at = now;
    point =
        if str_eq p.ingest_hash ""
        then record p { ingest_hash = generate_deterministic_ingest_hash fl fmt p }
        else p;
    checkpoint_only = false;
  }

  -- One round of the loop of `AppendCanonicalPoints`.
  unfoldable pub append_one : CanonicalPoint → Io SpoolRecord
  unfolding record_of
  append_one p = do
    seq ← gets (λ w. w.manager.next_seq)
    let r = record_of seq p
    line ← lift (serialize_record j r)
    ensure_segment now r.seq (length line)
    write_active line
    account_for now (length line)
    pure r

  unfoldable pub append_loop : List CanonicalPoint → Io (List SpoolRecord)
  append_loop [] = pure []
  append_loop (p ∷ ps) = do r ← append_one p; rs ← append_loop ps; pure (r ∷ rs)

  known_mode : Option FsyncMode → Io (Unit {0})
  known_mode none = raise invalid_fsync_mode
  known_mode (some mode) = pure tt

  -- `AppendCanonicalPoints`
  unfoldable pub append_canonical_points : List CanonicalPoint → Io (List SpoolRecord)
  unfolding known_mode os_call
  append_canonical_points [] = pure []
  append_canonical_points (p ∷ ps) = do
    mode ← gets (λ w. w.manager.fsync_mode)
    known_mode mode
    os_call
    append_loop (p ∷ ps)
